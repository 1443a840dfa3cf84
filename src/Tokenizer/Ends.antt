-- ===== src/Tokenizer/Ends.antt =====
-- The loop over a line ends within its fuel, and gives what `lex` gives.
use gbas.Prelude.{
  ℕ, zero, suc, ◌+◌, ◌*◌, ◌-◌, ◌<◌, ◌≡◌, ◌⊎◌, inl, inr, refl, sym, ◌∙◌, ap₂, append_assoc,
  append-nil, Bool, Bool-cases, true, false, ◌||◌, List, [], ◌∷◌, ◌++◌, leb, ◌==◌, if_both, length,
  get_or, Text, arith,
}
use gbas.Result.{Result, ok, err, ◌>>=◌}
use gbas.CharUtils.{is_numeric_op}
use gbas.Tokenizer.{
  TokenList, State, start_line, start_token, string_token, token, end_token, end_line, Scanner,
  is_word, is_symbol, step_in, step, is_end_line, scan, scan_fuel, eol, eof, tokenize_line,
  tokenize_lines, get_lines, initial, tokenize,
}
use gbas.Tokenizer.Lex.{gap, lex}
use gbas.Tokenizer.Refine.{symbol-excludes, outcome, spec_in, spec, step_in-spec}

-- A token has not begun only where its first character is at hand.
abbrev ReadyIn : State → Text → Bool → ℕ → Type 0
ReadyIn token [] at_end c = (at_end ≡ false) × (is_word c ≡ true)
ReadyIn _ _ at_end c = Unit

abbrev Ready : Text → Scanner → Type 0
Ready line s = ReadyIn s.state s.tokbuf (leb (length line) s.pos) (get_or line s.pos 0)

abbrev rank : State → Text → ℕ
rank start_line buf = 3
rank start_token buf = 2
rank string_token buf = 0
rank token [] = 1
rank token (_ ∷ _) = 4
rank end_token buf = 3
rank end_line buf = 0

abbrev measure : Text → Scanner → ℕ
measure line s = 4 * (length line - s.pos) + rank s.state s.tokbuf

abbrev Advances : Text → Scanner → Result Scanner → Type 0
Advances line s (ok t) = Ready line t × (measure line t < measure line s)
Advances line s (err _) = Unit

rank-append : (buf : Text) (c : ℕ) → rank token (buf ++ c ∷ []) ≡ 4
rank-append [] c = refl
rank-append (_ ∷ _) c = refl

Ready-append : (buf : Text) (c : ℕ) (b : Bool) (d : ℕ) → ReadyIn token (buf ++ c ∷ []) b d
Ready-append [] c b d = tt
Ready-append (_ ∷ _) c b d = tt

within : (n p : ℕ) → leb n p ≡ false → p < n
within n p h = ground arith

or_false : (a b : Bool) → (a || b) ≡ false → a ≡ false
or_false a b h = ground arith

rank_pos : (buf : Text) → 0 < rank token buf
rank_pos [] = omega arith
rank_pos (_ ∷ _) = omega arith

tok_rank :
    (buf : Text) (b : Bool) (c : ℕ)
    → ReadyIn token buf b c
    → (b ≡ true) ⊎ (is_word c ≡ false)
    → rank token buf ≡ 4
tok_rank [] b c r h = ground arith
tok_rank (_ ∷ _) b c r h = refl

step_in-Advances :
    (st : State) (line : Text) (s : Scanner)
    → s.state ≡ st
    → Ready line s
    → is_end_line st ≡ false
    → Advances line s (step_in st line (leb (length line) s.pos) (get_or line s.pos 0) s)
unfolding step_in
step_in-Advances start_line line s e r ne =
    if_both (Advances line s) (leb (length line) s.pos) (λ h. (tt, rw e (omega arith)))
      λ h.
        let k = within (length line) s.pos h in
        if_both (Advances line s) (get_or line s.pos 0 == b' ') (λ h. (rw e tt, rw e (omega arith)))
          (λ h. (tt, rw e (omega arith)))
step_in-Advances start_token line s e r ne =
    if_both (Advances line s) (leb (length line) s.pos || get_or line s.pos 0 == b';')
      (λ h. (tt, rw e (omega arith)))
      λ h.
        let k = within (length line) s.pos (or_false _ _ h) in
        if_both (Advances line s) (get_or line s.pos 0 == b' ') (λ h. (rw e tt, rw e (omega arith)))
          λ _.
            if_both (Advances line s) (is_word (get_or line s.pos 0))
              (λ w. ((or_false _ _ h, w), rw e (omega arith)))
              λ _.
                if_both (Advances line s) (get_or line s.pos 0 == b'"')
                  (λ _. (tt, rw e (omega arith)))
                  λ _.
                    if_both (Advances line s) (is_symbol (get_or line s.pos 0))
                      (λ _. (tt, rw e (omega arith))) (λ _. tt)
step_in-Advances string_token line s e r ne =
    if_both (Advances line s) (leb (length line) s.pos) (λ h. tt)
      λ h.
        let k = within (length line) s.pos h in
        if_both (Advances line s) (get_or line s.pos 0 == b'"') (λ h. (tt, rw e (omega arith)))
          (λ h. (tt, rw e (omega arith)))
step_in-Advances token line s e r ne =
    let started = tok_rank s.tokbuf (leb (length line) s.pos) (get_or line s.pos 0) (rw e at r) in
    if_both (Advances line s) (leb (length line) s.pos)
      (λ h. (tt, rw e (omega (arith, started (inl h)))))
      λ h.
        let k = within (length line) s.pos h in
        if_both (Advances line s) (get_or line s.pos 0 == b' ')
          (λ _. (tt, rw e (omega (arith, rank_pos s.tokbuf))))
          λ _.
            if_both (Advances line s) (is_numeric_op (get_or line s.pos 0))
              (λ h. (
                tt,
                rw e
                    (omega (arith, started (inr (symbol-excludes (get_or line s.pos 0) (rw h)).2))),
              ))
              λ op.
                if_both (Advances line s)
                  (get_or line s.pos 0 == b',' || get_or line s.pos 0 == b')')
                  (λ h. (
                    tt,
                    rw e (
                        omega (
                          arith,
                          started (inr (symbol-excludes (get_or line s.pos 0) (rw op h)).2),
                        )),
                  ))
                  λ _.
                    if_both (Advances line s) (is_word (get_or line s.pos 0))
                      (λ _. (
                        Ready-append s.tokbuf _ _ _,
                        rw e (
                            omega (
                              arith,
                              rank_pos s.tokbuf,
                              rank-append s.tokbuf (get_or line s.pos 0),
                            )),
                      ))
                      (λ _. tt)
step_in-Advances end_token line s e r ne = (tt, rw e (omega arith))
step_in-Advances end_line line s e r ne = cc

-- What the caller of the loop reads: the tokens and the line number.
abbrev pub finish : Scanner → Result (TokenList × ℕ)
finish s = ok (s.tokens, s.lineno)

finish-spec : (line : Text) (s : Scanner) → is_end_line s.state ≡ true → finish s ≡ spec line s
unfolding spec spec_in
finish-spec line s h = go s.state refl
  where
    go : (st : State) → s.state ≡ st → finish s ≡ spec line s
    go end_line e = rw e
    go _ e = cc (h, e)

after_step :
    (f : ℕ) (line : Text) (s : Scanner) (next : Result Scanner)
    → ((t : Scanner) → Ready line t → measure line t < f → (scan f line t >>= finish) ≡ spec line t)
    → measure line s < suc f
    → Advances line s next
    → (next >>= spec line) ≡ spec line s
    → ((elim next [ ok t ↦ scan f line t | err e ↦ err e ]) >>= finish) ≡ spec line s
after_step f line s (ok t) ih h a e = ih t a.0 (omega (arith, a.1)) ∙ e
after_step f line s (err _) ih h a e = e

scan-spec :
    (f : ℕ) (line : Text) (s : Scanner)
    → Ready line s
    → measure line s < f
    → (scan f line s >>= finish) ≡ spec line s
unfolding scan
scan-spec zero line s r h = absurd (omega arith)
scan-spec (suc f) line s r h = elim (Bool-cases (is_end_line s.state)) [
  | inl over ↦ rw (over, scan, ◌>>=◌) (finish-spec line s over)
  | inr more ↦
      rw (more, scan, ◌>>=◌)
        (after_step f line s (step line s) (scan-spec f line) h
          (unfold step in step_in-Advances s.state line s refl r more)
          (unfold step spec in step_in-spec s.state line s refl))
]

push_eol :
    (s : Scanner) (r : Result Scanner) (q : Result TokenList)
    → (r >>= finish) ≡ outcome s q
    → ((r >>= λ t. ok (record t { tokens = t.tokens ++ eol ∷ [] })) >>= finish)
      ≡ (q >>= λ ts. ok (s.tokens ++ (ts ++ eol ∷ []), s.lineno + 1))
push_eol s (ok t) (ok ts) h = ground (arith, append_assoc s.tokens ts (eol ∷ []))
push_eol s (ok t) (err _) h = cc
push_eol s (err _) (ok _) h = cc
push_eol s (err _) (err _) h = cc

-- One line: the tokens that `lex` reads from it and "EOL", or the exception of `lex`.
pub tokenize_line-lex :
    (line : Text) (s : Scanner)
    → (tokenize_line line s >>= finish)
      ≡ (lex line s.lineno gap 0 line >>= λ ts. ok (s.tokens ++ (ts ++ eol ∷ []), s.lineno + 1))
unfolding tokenize_line
tokenize_line-lex line s = push_eol s _ _ (
    unfold spec spec_in in
    scan-spec (scan_fuel line) line (record s { state = start_line; pos = 0 }) tt (omega arith))

-- The lines of an input, by `lex`.
unfoldable pub lex_lines : ℕ → List Text → Result TokenList
lex_lines n [] = ok []
lex_lines n (line ∷ lines) =
    lex line n gap 0 line >>= λ ts. lex_lines (n + 1) lines >>= λ more. ok (ts ++ eol ∷ more)

abbrev report : TokenList → ℕ → Result (TokenList × ℕ)
report ts n = ok (ts, n)

regroup :
    (before ts : TokenList) (n k : ℕ) (m : Result TokenList)
    → (m >>= λ more. report ((before ++ (ts ++ eol ∷ [])) ++ more) (n + 1 + k))
      ≡ ((m >>= λ more. ok (ts ++ eol ∷ more)) >>= λ all. report (before ++ all) (n + suc k))
regroup before ts n k (ok more) = ap₂ report (simp append_assoc) (omega arith)
regroup before ts n k (err _) = refl

after_line :
    (lines : List Text) (s : Scanner) (r : Result Scanner) (q : Result TokenList)
    → ((t : Scanner)
        → (tokenize_lines lines t >>= finish)
          ≡ (lex_lines t.lineno lines >>= λ ts. ok (t.tokens ++ ts, t.lineno + length lines)))
    → (r >>= finish) ≡ (q >>= λ ts. ok (s.tokens ++ (ts ++ eol ∷ []), s.lineno + 1))
    → ((r >>= tokenize_lines lines) >>= finish) ≡ (
        (q >>= λ ts. lex_lines (s.lineno + 1) lines >>= λ more. ok (ts ++ eol ∷ more)) >>= λ ts.
        ok (s.tokens ++ ts, s.lineno + suc (length lines)))
after_line lines s (ok t) (ok ts) ih h =
    ih t
    ∙ (rw (fields.0, fields.1)
        (regroup s.tokens ts s.lineno (length lines) (lex_lines (s.lineno + 1) lines)))
  where
    fields : (t.tokens ≡ s.tokens ++ (ts ++ eol ∷ [])) × (t.lineno ≡ s.lineno + 1)
    fields = ground arith
after_line lines s (ok t) (err _) ih h = cc
after_line lines s (err _) (ok _) ih h = cc
after_line lines s (err _) (err _) ih h = cc

tokenize_lines-lex :
    (lines : List Text) (s : Scanner)
    → (tokenize_lines lines s >>= finish)
      ≡ (lex_lines s.lineno lines >>= λ ts. ok (s.tokens ++ ts, s.lineno + length lines))
unfolding tokenize_lines lex_lines
tokenize_lines-lex [] s = ap₂ report (sym (append-nil s.tokens)) (omega arith)
tokenize_lines-lex (line ∷ lines) s =
    after_line lines s (tokenize_line line s) (lex line s.lineno gap 0 line)
      (tokenize_lines-lex lines) (tokenize_line-lex line s)

push_eof :
    (r : Result Scanner) (q : Result TokenList) (n : ℕ)
    → (r >>= finish) ≡ (q >>= λ ts. ok (ts, n))
    → (r >>= λ s. ok (s.tokens ++ eof ∷ [])) ≡ (q >>= λ ts. ok (ts ++ eof ∷ []))
push_eof (ok s) (ok ts) n h = ground arith
push_eof (ok _) (err _) n h = cc
push_eof (err _) (ok _) n h = cc
push_eof (err _) (err _) n h = cc

-- For every input `tokenize` returns or throws what a lexer by recursion on the characters of
-- each line does, with "EOF" behind its tokens.
pub tokenize-lex :
    (input : Text) → tokenize input ≡ (lex_lines 0 (get_lines input) >>= λ ts. ok (ts ++ eof ∷ []))
unfolding tokenize
tokenize-lex input =
    push_eof (tokenize_lines (get_lines input) initial) (lex_lines 0 (get_lines input)) _
      (tokenize_lines-lex (get_lines input) initial)
