-- ===== src/Tokenizer/Output.antt =====
-- What `tokenize` returns and what it throws.
use gbas.Prelude.{
  ℕ, suc, ◌+◌, ◌≡◌, refl, sym, ◌∙◌, ap, true, ◌||◌, List, [], ◌∷◌, ◌++◌, ◌==◌, if_both, subst,
  length, All, All-append, get_elem?, some, Text, codes, arith, ◌≤◌,
}
use gbas.Result.{
  Error, Result, ok, err, ◌>>=◌, ok-injective, bind-eq-ok, tokenizer_exception, Post, returns,
  raises, Post-bind,
}
use gbas.CharUtils.{is_numeric_op}
use gbas.Tokenizer.{
  Token, TokenList, Scanner, is_word, is_symbol, eol, eof, get_lines, tokenize_line, tokenize,
}
use gbas.Tokenizer.Lex
use gbas.Tokenizer.Lex.{Mode, gap, quoted, emit, invalid, lex}
use gbas.Tokenizer.Ends.{finish, lex_lines, tokenize_line-lex, tokenize-lex}
use gbas.Tokenizer.Language.{
  IsWord, IsString, Reads, done, skip_comment, skip_space, take_symbol, take_string, take_word,
  lex-Reads,
}
use gbas.Tokenizer.Complete.{Reads-lex}

-- The loop over a line accepts every line of the token language, from every state: it adds the
-- tokens that the line reads as and "EOL", and counts the line.
pub tokenize_line-accepts :
    (line : Text) (s : Scanner) (ts : TokenList)
    → Reads line ts
    → (tokenize_line line s >>= finish) ≡ ok (s.tokens ++ (ts ++ eol ∷ []), s.lineno + 1)
tokenize_line-accepts line s ts r = tokenize_line-lex line s ∙ (rw (Reads-lex line s.lineno r 0))

-- A line that the loop over a line accepts reads as some tokens of the token language, and what
-- the loop adds to its tokens is those and "EOL". It counts the line.
pub tokenize_line_sound :
    (line : Text) (s t : Scanner)
    → tokenize_line line s ≡ ok t
    → (ts : TokenList) × Reads line ts
      × (t.tokens ≡ s.tokens ++ (ts ++ eol ∷ []))
      × (t.lineno ≡ s.lineno + 1)
tokenize_line_sound line s t h =
    go (lex line s.lineno gap 0 line) refl (rw h at (tokenize_line-lex line s))
  where
    go :
        (q : Result TokenList)
        → lex line s.lineno gap 0 line ≡ q
        → finish t ≡ (q >>= λ ts. ok (s.tokens ++ (ts ++ eol ∷ []), s.lineno + 1))
        → (ts : TokenList) × Reads line ts
          × (t.tokens ≡ s.tokens ++ (ts ++ eol ∷ []))
          × (t.lineno ≡ s.lineno + 1)
    go (ok ts) q e = (ts, lex-Reads line s.lineno gap 0 line q, ground arith, ground arith)
    go (err _) q e = cc

pub data IsToken : Token → Type 0 where
  word : {tok : Token} → IsWord tok → IsToken tok
  string : {tok : Token} → IsString tok → IsToken tok
  symbol : {tok : Token} {c : ℕ} → tok ≡ c ∷ [] → is_symbol c ≡ true → IsToken tok

Reads-IsToken : {cs : Text} {ts : TokenList} → Reads cs ts → All IsToken ts
Reads-IsToken done = tt
Reads-IsToken (skip_comment h) = tt
Reads-IsToken (skip_space h r) = Reads-IsToken r
Reads-IsToken (take_symbol h r) = (IsToken.symbol refl h, Reads-IsToken r)
Reads-IsToken (take_string h e r) = (IsToken.string h, Reads-IsToken r)
Reads-IsToken (take_word h e d r) = (IsToken.word h, Reads-IsToken r)

eol-IsToken : IsToken eol
unfolding is_word
eol-IsToken = IsToken.word (cc, refl)

eof-IsToken : IsToken eof
unfolding is_word
eof-IsToken = IsToken.word (cc, refl)

lex_lines-IsToken :
    (lines : List Text) (n : ℕ) {ts : TokenList} → lex_lines n lines ≡ ok ts → All IsToken ts
unfolding lex_lines
lex_lines-IsToken [] n h = rw (← ok-injective h) tt
lex_lines-IsToken (line ∷ lines) n h =
    let (ts, q, rest) =
      bind-eq-ok (lex line n gap 0 line)
        (λ ts. lex_lines (n + 1) lines >>= λ more. ok (ts ++ eol ∷ more)) h in
    let (more, r, e) = bind-eq-ok (lex_lines (n + 1) lines) (λ more. ok (ts ++ eol ∷ more)) rest in
    rw (← ok-injective e) (
      All-append IsToken ts (eol ∷ more) (Reads-IsToken (lex-Reads line n gap 0 line q))
        (eol-IsToken, lex_lines-IsToken lines (n + 1) r))

-- If `tokenize` returns, every token is a word, a quoted string or a one-symbol token, the
-- markers "EOL" and "EOF" being words, and the last token is "EOF".
pub tokenize-IsToken :
    (input : Text) {ts : TokenList}
    → tokenize input ≡ ok ts
    → All IsToken ts × ((before : TokenList) × (ts ≡ before ++ eof ∷ []))
tokenize-IsToken input h =
    let (before, q, e) =
      bind-eq-ok (lex_lines 0 (get_lines input)) (λ ts. ok (ts ++ eof ∷ []))
        (sym (tokenize-lex input) ∙ h) in
    (
      rw (← ok-injective e) (
          All-append IsToken before (eof ∷ []) (lex_lines-IsToken (get_lines input) 0 q)
            (eof-IsToken, tt)),
      (before, sym (ok-injective e)),
    )

-- Tokens with a space behind each.
pub unlex : TokenList → Text
unlex [] = []
unlex (tok ∷ ts) = tok ++ b' ' ∷ unlex ts

Reads-unlex : (ts : TokenList) → All IsToken ts → Reads (unlex ts) ts
unfolding unlex
Reads-unlex [] h = done
Reads-unlex (tok ∷ ts) (IsToken.word h, r) =
    take_word h refl refl (skip_space refl (Reads-unlex ts r))
Reads-unlex (tok ∷ ts) (IsToken.string h, r) =
    take_string h refl (skip_space refl (Reads-unlex ts r))
Reads-unlex (tok ∷ ts) (IsToken.symbol e h, r) =
    rw e (take_symbol h (skip_space refl (Reads-unlex ts r)))

-- A list of tokens that are words, quoted strings or symbols, written out with a space behind
-- each, is read back as the same tokens.
pub tokenize_line-unlex :
    (ts : TokenList) (s : Scanner)
    → All IsToken ts
    → (tokenize_line (unlex ts) s >>= finish) ≡ ok (s.tokens ++ (ts ++ eol ∷ []), s.lineno + 1)
tokenize_line-unlex ts s h = tokenize_line-accepts (unlex ts) s ts (Reads-unlex ts h)

-- A `TokenizerException` at a column of the line that it numbers, counted from `n`.
abbrev pub PointsInto : ℕ → List Text → Error → Type 0
PointsInto n lines e =
    (msg : Text) × (i : ℕ) × (col : ℕ) × (line : Text) × (e ≡ tokenizer_exception msg (n + i) col)
    × (get_elem? lines i ≡ some line)
    × (col ≤ length line)

-- The same of `lex`, up to the end `top` of its line.
abbrev IsWithin : ℕ → ℕ → Error → Type 0
IsWithin n top e = (msg : Text) × (col : ℕ) × (e ≡ tokenizer_exception msg n col) × (col ≤ top)

abbrev ErrsWithin : ℕ → ℕ → Result TokenList → Type 0
ErrsWithin n top = Post (λ _. Unit {0}) (IsWithin n top)

emit-ErrsWithin :
    (n top : ℕ) (tok : Token) (r : Result TokenList)
    → ErrsWithin n top r
    → ErrsWithin n top (emit tok r)
emit-ErrsWithin n top tok r h = Post-bind h (λ _ _. returns tt)

invalid-ErrsWithin :
    (line msg : Text) (n p top : ℕ) → p ≤ top → ErrsWithin n top (invalid line n msg p)
invalid-ErrsWithin line msg n p top h = raises (msg ++ line, p, refl, h)

lex-ErrsWithin :
    (line : Text) (n : ℕ) (m : Mode) (p top : ℕ) (cs : Text)
    → top ≡ p + length cs
    → ErrsWithin n top (lex line n m p cs)
unfolding lex
lex-ErrsWithin line n gap p top [] h = returns tt
lex-ErrsWithin line n gap p top (c ∷ cs) h =
    let skip = lex-ErrsWithin line n gap (suc p) top cs (omega arith) in
    if_both (ErrsWithin n top) (c == b';') (λ _. returns tt)
      λ _.
        if_both (ErrsWithin n top) (c == b' ') (λ _. skip)
          λ _.
            if_both (ErrsWithin n top) (is_word c)
              (λ _. lex-ErrsWithin line n (Lex.word (c ∷ [])) (suc p) top cs (omega arith))
              λ _.
                if_both (ErrsWithin n top) (c == b'"')
                  (λ _. lex-ErrsWithin line n (quoted (c ∷ [])) (suc p) top cs (omega arith))
                  λ _.
                    if_both (ErrsWithin n top) (is_symbol c)
                      (λ _. emit-ErrsWithin n top (c ∷ []) _ skip)
                      λ _. invalid-ErrsWithin line (codes "Invalid token") n p top (omega arith)
lex-ErrsWithin line n (Lex.word buf) p top [] h = returns tt
lex-ErrsWithin line n (Lex.word buf) p top (c ∷ cs) h =
    let skip = lex-ErrsWithin line n gap (suc p) top cs (omega arith) in
    if_both (ErrsWithin n top) (c == b' ') (λ _. emit-ErrsWithin n top buf _ skip)
      λ _.
        if_both (ErrsWithin n top) (is_numeric_op c || c == b',' || c == b')')
          (λ _. emit-ErrsWithin n top buf _ (emit-ErrsWithin n top (c ∷ []) _ skip))
          λ _.
            if_both (ErrsWithin n top) (is_word c)
              (λ _. lex-ErrsWithin line n (Lex.word (buf ++ c ∷ [])) (suc p) top cs (omega arith))
              λ _. invalid-ErrsWithin line (codes "Invalid token ") n p top (omega arith)
lex-ErrsWithin line n (quoted buf) p top [] h =
    raises (codes "Unterminated string", p, refl, omega arith)
lex-ErrsWithin line n (quoted buf) p top (c ∷ cs) h =
    if_both (ErrsWithin n top) (c == b'"')
      (λ _.
        emit-ErrsWithin n top (buf ++ c ∷ []) _
          (lex-ErrsWithin line n gap (suc p) top cs (omega arith)))
      λ _. lex-ErrsWithin line n (quoted (buf ++ c ∷ [])) (suc p) top cs (omega arith)

Points : ℕ → List Text → Result TokenList → Type 0
Points n lines (ok _) = Unit
Points n lines (err e) = PointsInto n lines e

lex_lines-Points : (lines : List Text) (n : ℕ) → Points n lines (lex_lines n lines)
unfolding lex_lines Points
lex_lines-Points [] n = tt
lex_lines-Points (line ∷ lines) n =
    go (lex line n gap 0 line) (lex_lines (n + 1) lines)
      (lex-ErrsWithin line n gap 0 (length line) line (omega arith))
      (lex_lines-Points lines (n + 1))
  where
    go :
        (q r : Result TokenList)
        → ErrsWithin n (length line) q
        → Points (n + 1) lines r
        → Points n (line ∷ lines) (q >>= λ ts. r >>= λ more. ok (ts ++ eol ∷ more))
    go (ok _) (ok _) a b = tt
    go (ok _) (err _) a (msg, i, col, text, e, at, le) =
        (msg, suc i, col, text, e ∙ ap (λ l. tokenizer_exception msg l col) (omega arith), at, le)
    go (err _) r (raises (msg, col, e, le)) b =
        (msg, 0, col, line, e ∙ ap (λ l. tokenizer_exception msg l col) (omega arith), refl, le)

Points-eof :
    (lines : List Text) (r : Result TokenList) {e : Error}
    → Points 0 lines r
    → (r >>= λ ts. ok (ts ++ eof ∷ [])) ≡ err e
    → PointsInto 0 lines e
unfolding Points
Points-eof lines (ok ts) p h = cc
Points-eof lines (err _) p h = subst (PointsInto 0 lines) (cc) p

-- If `tokenize` throws, it is a `TokenizerException` whose line number is that of a line of the
-- input and whose column lies in it or at its end.
pub tokenize-PointsInto :
    (input : Text) {e : Error} → tokenize input ≡ err e → PointsInto 0 (get_lines input) e
tokenize-PointsInto input h =
    Points-eof (get_lines input) (lex_lines 0 (get_lines input))
      (lex_lines-Points (get_lines input) 0) (sym (tokenize-lex input) ∙ h)
