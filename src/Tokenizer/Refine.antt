-- ===== src/Tokenizer/Refine.antt =====
-- The state machine computes what `lex` computes, error positions included, and always ends.
use gbas.Prelude.{
  ℕ, zero, suc, ◌+◌, ◌≡◌, refl, inl, inr, true, false, ◌||◌, [], ◌∷◌, ◌++◌, leb, ◌==◌, length,
  get_or, drop, Text, append_assoc, append-nil, Bool-cases, arith,
}
use gbas.Result.{Result, ok, err, ◌>>=◌}
use gbas.CharUtils.{is_numeric_op}
use gbas.Tokenizer.{
  TokenList, State, start_line, start_token, string_token, token, end_token, end_line, Scanner,
  is_word, is_symbol, step_in,
}
use gbas.Tokenizer.Lex.{gap, word, quoted, emit, lex}

-- What the characters from `p` on are, by the tests that the loop makes.
data View (line : Text) (p : ℕ) : Type 0 where
  past_end : leb (length line) p ≡ true → drop p line ≡ [] → View line p
  within :
      leb (length line) p ≡ false → drop p line ≡ get_or line p 0 ∷ drop (suc p) line → View line p

view : (line : Text) (p : ℕ) → View line p
view [] zero = past_end refl refl
view [] (suc p) = past_end (ground arith) refl
view (c ∷ cs) zero = within (ground arith) refl
view (c ∷ cs) (suc p) = elim (view cs p) [
  | past_end a b ↦ past_end (ground arith) b
  | within a b ↦ within (ground arith) b
]

-- What is left to do from a state, by `lex`: the tokens and the line number at the end of the line.
abbrev pub outcome : Scanner → Result TokenList → Result (TokenList × ℕ)
outcome s r = r >>= λ ts. ok (s.tokens ++ ts, s.lineno + 1)

unfoldable pub spec_in : State → Text → Text → Scanner → Result (TokenList × ℕ)
spec_in start_line line rest s = outcome s (lex line s.lineno gap s.pos rest)
spec_in start_token line rest s = outcome s (lex line s.lineno gap s.pos rest)
spec_in string_token line rest s = outcome s (lex line s.lineno (quoted s.tokbuf) s.pos rest)
spec_in token line rest s = outcome s (lex line s.lineno (word s.tokbuf) s.pos rest)
spec_in end_token line rest s = outcome s (emit s.tokbuf (lex line s.lineno gap s.pos rest))
spec_in end_line line rest s = ok (s.tokens, s.lineno)

unfoldable pub spec : Text → Scanner → Result (TokenList × ℕ)
spec line s = spec_in s.state line (drop s.pos line) s

outcome-emit :
    (s : Scanner) (r : Result TokenList) (t : Scanner)
    → t.tokens ≡ s.tokens ++ s.tokbuf ∷ []
    → t.lineno ≡ s.lineno
    → outcome t r ≡ outcome s (emit s.tokbuf r)
outcome-emit s (ok ts) t h k = rw (h, k, append_assoc)
outcome-emit s (err e) t h k = refl

-- A character that starts a word, and one that ends a word by being a token itself.
module _ (c : ℕ) where
  pub is_word-excludes :
      is_word c ≡ true
      → ((c == b' ') ≡ false) × ((is_numeric_op c || c == b',' || c == b')') ≡ false)
  unfolding is_word is_numeric_op
  is_word-excludes h = ground arith

  pub symbol-excludes :
      (is_numeric_op c || c == b',' || c == b')') ≡ true
      → ((c == b';') ≡ false)
        × ((c == b' ') ≡ false)
        × (is_word c ≡ false)
        × ((c == b'"') ≡ false)
        × (is_symbol c ≡ true)
  unfolding is_word is_symbol is_numeric_op
  symbol-excludes h = ground arith

module _ (line : Text) (n p c : ℕ) (cs : Text) where
  pub lex-word_start :
      is_word c ≡ true → lex line n (word []) p (c ∷ cs) ≡ lex line n (word (c ∷ [])) (suc p) cs
  unfolding lex
  lex-word_start h = let k = is_word-excludes c h in ground arith

  pub lex-symbol :
      (is_numeric_op c || c == b',' || c == b')') ≡ true
      → lex line n gap p (c ∷ cs) ≡ emit (c ∷ []) (lex line n gap (suc p) cs)
  unfolding lex
  lex-symbol h = let k = symbol-excludes c h in ground arith

-- The cases of `step_in-spec` inside the line, at the character `c`.
module _ (line : Text) (s : Scanner) (c : ℕ) (cs : Text) (here : drop s.pos line ≡ c ∷ cs)
    (next : drop (suc s.pos) line ≡ cs) where
  at_start_line :
      s.state ≡ start_line
      → (step_in start_line line false c s >>= spec line)
        ≡ outcome s (lex line s.lineno gap s.pos (c ∷ cs))
  unfolding step_in spec spec_in
  at_start_line e = elim (Bool-cases (c == b' ')) [
    | inl h ↦ unfold lex in rw (h, e, next) (ground arith)
    | inr h ↦ rw (h, here)
  ]

  at_start_token :
      s.state ≡ start_token
      → (step_in start_token line false c s >>= spec line)
        ≡ outcome s (lex line s.lineno gap s.pos (c ∷ cs))
  unfolding step_in spec spec_in
  at_start_token e = elim (Bool-cases (c == b';')) [
    | inl h ↦ unfold lex in rw (h, append-nil)
    | inr comment ↦ elim (Bool-cases (c == b' ')) [
      | inl h ↦ unfold lex in rw (comment, h, e, next)
      | inr space ↦ elim (Bool-cases (is_word c)) [
        | inl h ↦
            rw (comment, space, h, here)
              (rw (lex-word_start line s.lineno s.pos c cs h)
                (unfold lex in rw (comment, space, h)))
        | inr other ↦ elim (Bool-cases (c == b'"')) [
          | inl h ↦ unfold lex in rw (comment, space, other, h, next)
          | inr plain ↦ elim (Bool-cases (is_symbol c)) [
            | inl h ↦ unfold lex in rw (comment, space, other, plain, h, next)
            | inr h ↦ unfold lex in rw (comment, space, other, plain, h)
          ]
        ]
      ]
    ]
  ]

  at_string_token :
      (step_in string_token line false c s >>= spec line)
      ≡ outcome s (lex line s.lineno (quoted s.tokbuf) s.pos (c ∷ cs))
  unfolding step_in spec spec_in lex
  at_string_token = elim (Bool-cases (c == b'"')) [ inl h ↦ rw (h, next) | inr h ↦ rw (h, next) ]

  at_token :
      s.state ≡ token
      → (step_in token line false c s >>= spec line)
        ≡ outcome s (lex line s.lineno (word s.tokbuf) s.pos (c ∷ cs))
  unfolding step_in spec spec_in
  at_token e = elim (Bool-cases (c == b' ')) [
    | inl h ↦ unfold lex in rw (h, next)
    | inr space ↦ elim (Bool-cases (is_numeric_op c)) [
      | inl h ↦
          rw (space, h, here)
            (rw (lex-symbol line s.lineno s.pos c cs (rw h)) (unfold lex in rw (space, h)))
      | inr op ↦ elim (Bool-cases (c == b',' || c == b')')) [
        | inl h ↦
            rw (space, op, h, here)
              (rw (lex-symbol line s.lineno s.pos c cs (rw op h)) (unfold lex in rw (space, op, h)))
        | inr close ↦ elim (Bool-cases (is_word c)) [
          | inl h ↦ unfold lex in rw (space, op, close, h, next)
          | inr h ↦ unfold lex in rw (space, op, close, h)
        ]
      ]
    ]
  ]

pub step_in-spec :
    (st : State) (line : Text) (s : Scanner)
    → s.state ≡ st
    → (step_in st line (leb (length line) s.pos) (get_or line s.pos 0) s >>= spec line)
      ≡ spec_in st line (drop s.pos line) s
unfolding step_in spec spec_in lex
step_in-spec start_line line s e = elim (view line s.pos) [
  | past_end a b ↦ rw (a, b, append-nil)
  | within a b ↦ rw (a, b) (at_start_line line s _ _ b refl e)
]
step_in-spec start_token line s e = elim (view line s.pos) [
  | past_end a b ↦ rw (a, b, append-nil)
  | within a b ↦ rw (a, b) (at_start_token line s _ _ b refl e)
]
step_in-spec string_token line s e = elim (view line s.pos) [
  | past_end a b ↦ rw (a, b)
  | within a b ↦ rw (a, b) (at_string_token line s _ _ b refl)
]
step_in-spec token line s e = elim (view line s.pos) [
  | past_end a b ↦ rw (a, b)
  | within a b ↦ rw (a, b) (at_token line s _ _ b refl e)
]
step_in-spec end_token line s e =
    outcome-emit s (lex line s.lineno gap s.pos (drop s.pos line))
      (record s { tokens = s.tokens ++ s.tokbuf ∷ []; tokbuf = []; state = start_token }) refl refl
step_in-spec end_line line s e = rw e
