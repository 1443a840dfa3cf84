-- ===== src/Parser/Operands.antt =====
-- src/parser.cpp: the operands that the parser returns are those the grammar gives the tokens.
use gbas.Prelude.{
  ℕ, zero, suc, ◌<◌, Bool, false, lt→ltb, subst, arith, ◌≡◌, refl, sym, ◌∙◌, ap, ap₂, append-nil,
  Bool-cases, inl, inr, true, ◌&&◌, ◌||◌, not, List, [], ◌∷◌, ◌++◌, append_assoc, length, ◌==◌, ltb,
  if◌then◌else◌, codes, text_eq, eq_of_text_eq,
}
use gbas.Result.{Error, Result, ok, err, ◌>>=◌, bind-eq-ok, ok-injective, passed}
use gbas.Ast.{Node, register, dregister}
use gbas.Tokenizer.{Token, TokenList, eol}
use gbas.Parser.Classes.{is_register, is_dregister, is_newline, is_comma}
use gbas.Parser.Expression.{
  pure, ◌>>>=◌, next, peek, register_of, dregister_of, register_, dregister_, operand,
}
use gbas.Parser.Program.{operands_loop}
use gbas.Parser.Sound.{then_ok, addition_sound}
use gbas.Parser.Longest.{addition-EndsSum}
use gbas.Parser.Listing.{Operand, single, pair, sum, Operands, newline, comma, with_operand}

-- Operands.
register_of_ok :
    (tok : Token) {n : Node} → register_of tok ≡ ok n → (c : ℕ) × (tok ≡ c ∷ []) × (n ≡ register c)
unfolding register_of
register_of_ok [] h = cc
register_of_ok (c ∷ []) h = (
  c,
  refl,
  sym (
      ok-injective
        (passed
          (c == b'a'
            || c == b'f'
            || c == b'b'
            || c == b'c'
            || c == b'd'
            || c == b'e'
            || c == b'h'
            || c == b'l')
          (ok (register c)) _ h).1),
)
register_of_ok (_ ∷ _ ∷ _) h = cc

abbrev IsPairNode : Token → Node → Type 0
IsPairNode tok n = (r : ℕ) × (s : ℕ) × (tok ≡ r ∷ s ∷ []) × (n ≡ dregister r s)

or_pair :
    (r s : ℕ) (tok : Token) (rest : Result Node) {n : Node}
    → (rest ≡ ok n → IsPairNode tok n)
    → (if text_eq tok (r ∷ s ∷ []) then ok (dregister r s) else rest) ≡ ok n
    → IsPairNode tok n
or_pair r s tok rest f h = elim (Bool-cases (text_eq tok (r ∷ s ∷ []))) [
  | inl k ↦ (r, s, eq_of_text_eq tok (r ∷ s ∷ []) k, sym (ok-injective (rw k at h)))
  | inr k ↦ f (rw k at h)
]

dregister_of_ok : (tok : Token) {n : Node} → dregister_of tok ≡ ok n → IsPairNode tok n
unfolding dregister_of
dregister_of_ok tok = or_pair b'a' b'f' tok _ (
    or_pair b'b' b'c' tok _ (
      or_pair b'd' b'e' tok _ (
        or_pair b'h' b'l' tok _
          (or_pair b's' b'p' tok _ (or_pair b'p' b'c' tok _ (λ h. absurd (no h)))))))
  where
    no : {n : Node} {x : Error} → ◌≡◌ {A = Result Node} (err x) (ok n) → ⊥
    no h = cc

taken_one :
    (ts : TokenList) (f : Token → Result Node) {tok : Token} {mid rest : TokenList} {n n' : Node}
    → next ts ≡ ok (tok, mid)
    → f tok ≡ ok n'
    → pure n' mid ≡ ok (n, rest)
    → (tok : Token) × (ts ≡ tok ∷ rest) × (f tok ≡ ok n)
taken_one [] f p r e = cc
taken_one (x ∷ ts) f {tok} {mid} {rest} {n} {n'} p r e =
    let q = ok-injective p in
    let w = ok-injective e in
    (
      x,
      ap (◌∷◌ x) (ap (λ z. z.1) q ∙ ap (λ z. z.1) w),
      ap f (ap (λ z. z.0) q) ∙ r ∙ ap ok (ap (λ z. z.0) w),
    )

-- A parser of one token.
one_token :
    (ts : TokenList) (f : Token → Result Node) {n : Node} {rest : TokenList}
    → (next ts >>>= λ tok more. f tok >>= λ n. ok (n, more)) ≡ ok (n, rest)
    → (tok : Token) × (ts ≡ tok ∷ rest) × (f tok ≡ ok n)
one_token ts f h =
    let (tok, mid, p, q) = then_ok (next ts) (λ tok more. f tok >>= λ n. ok (n, more)) h in
    let (n, r, e) = bind-eq-ok (f tok) (λ n. ok (n, mid)) q in taken_one ts f p r e

single-Operand :
    (ts rest : TokenList) (tok : Token) (c : ℕ) {n : Node}
    → is_register (peek ts) ≡ true
    → ts ≡ tok ∷ rest
    → tok ≡ c ∷ []
    → n ≡ register c
    → Operand ts n rest
single-Operand ts rest tok c k split p q = rw (split, p, q) (single (rw (split, p) at k))

pair-Operand :
    (ts rest : TokenList) (tok : Token) (r s : ℕ) {n : Node}
    → is_dregister (peek ts) ≡ true
    → ts ≡ tok ∷ rest
    → tok ≡ r ∷ s ∷ []
    → n ≡ dregister r s
    → Operand ts n rest
pair-Operand ts rest tok r s k split p q = rw (split, p, q) (pair (rw (split, p) at k))

operand_sound :
    (f : ℕ) (ts : TokenList) {n : Node} {rest : TokenList}
    → operand f ts ≡ ok (n, rest)
    → Operand ts n rest
unfolding operand register_ dregister_
operand_sound f ts {n} {rest} h = elim (Bool-cases (is_register (peek ts))) [
  | inl k ↦
      let (tok, split, p) = one_token ts register_of (rw k at h) in
      let (c, q, e) = register_of_ok tok p in single-Operand ts rest tok c k split q e
  | inr k ↦ elim (Bool-cases (is_dregister (peek ts))) [
    | inl l ↦
        let (tok, split, p) = one_token ts dregister_of (rw (k, l) at h) in
        let (r, s, q, e) = dregister_of_ok tok p in pair-Operand ts rest tok r s l split q e
    | inr l ↦
        let (taken, split, s) = addition_sound f ts (rw (k, l) at h) in
        sum k l split s (addition-EndsSum f ts (rw (k, l) at h))
  ]
]

pub next_ok :
    (ts : TokenList) {tok : Token} {mid : TokenList} → next ts ≡ ok (tok, mid) → ts ≡ tok ∷ mid
next_ok [] h = cc
next_ok (x ∷ ts) h = let e = ok-injective h in ap₂ (◌∷◌) (ap (λ z. z.0) e) (ap (λ z. z.1) e)

-- The loop adds operands behind those that it has.
abbrev pub Loop : List Node → TokenList → List Node → TokenList → Type 0
Loop acc ts ns rest = (more : List Node) × (ns ≡ acc ++ more) × Operands ts more rest

comma-first :
    (acc ns : List Node) (ts : TokenList) (tok : Token) (mid rest : TokenList)
    → ts ≡ tok ∷ mid
    → is_comma (peek ts) ≡ true
    → Loop acc mid ns rest
    → Loop acc ts ns rest
unfolding is_comma
comma-first acc ns ts tok mid rest at_tok k (more, e, o) =
    let is_tok : (tok ≡ codes ",") = eq_of_text_eq tok (codes ",") (rw at_tok at k) in
    rw (at_tok, is_tok) (more, e, comma o)

newline-Loop : (acc : List Node) (ts : TokenList) → is_newline (peek ts) ≡ true → Loop acc ts acc ts
unfolding is_newline
newline-Loop acc [] k = cc
newline-Loop acc (tok ∷ ts) k = rw (eq_of_text_eq tok eol k) ([], sym (append-nil acc), newline)

first_false : (a b : Bool) → (not a && b) ≡ true → a ≡ false
first_false a b h = ground arith

full : (a : Bool) (m : ℕ) → (not a && ltb m 3) ≡ false → m < 3 → a ≡ true
full a m h few = ground (arith, lt→ltb m 3 few)

pub operands_loop_sound :
    (f : ℕ) (acc : List Node) (ts : TokenList) {ns : List Node} {rest : TokenList}
    → length ns < 3
    → operands_loop f acc ts ≡ ok (ns, rest)
    → Loop acc ts ns rest
unfolding operands_loop
operands_loop_sound zero acc ts few h = cc
operands_loop_sound (suc f) acc ts {ns} {rest} few h =
    elim (Bool-cases (not (is_newline (peek ts)) && ltb (length acc) 3)) [
      | inl k ↦ elim (Bool-cases (is_comma (peek ts))) [
        | inl l ↦
            let (tok, mid, p, q) = then_ok (next ts) (λ _. operands_loop f acc) (rw (k, l) at h) in
            comma-first acc ns ts tok mid rest (next_ok ts p) l
              (operands_loop_sound f acc mid few q)
        | inr l ↦
            let (n, mid, p, q) =
              then_ok (operand (suc f) ts) (λ n. operands_loop f (acc ++ n ∷ []))
                (rw (k, l) at h) in
            let (more, e, o) = operands_loop_sound f (acc ++ n ∷ []) mid few q in
            (
              n ∷ more,
              e ∙ append_assoc acc (n ∷ []) more,
              with_operand (first_false (is_newline (peek ts)) (ltb (length acc) 3) k) l
                  (operand_sound (suc f) ts p) o,
            )
      ]
      | inr k ↦
          let e = ok-injective (rw k at h) in
          let short : (length acc < 3) =
            subst (λ (xs : List Node). length xs < 3) (ap (λ z. z.0) (sym e)) few in
          subst (λ z. Loop acc ts z.0 z.1) e
            (newline-Loop acc ts (full (is_newline (peek ts)) (length acc) k short))
    ]
