-- ===== src/Parser/Longest.antt =====
-- The expression that the parser takes is the longest: no operator stands behind it.
use gbas.Prelude.{ℕ, zero, suc, ◌<◌, ◌≡◌, ◌↔◌, ap, subst, Bool-cases, inl, inr, false, ◌++◌, length}
use gbas.Result.{ok, ok-injective}
use gbas.Ast.{Node}
use gbas.Tokenizer.{TokenList}
use gbas.Parser.Classes.{is_addition, is_multiplication}
use gbas.Parser.Expression.{
  next, peek, unary, multiplication_loop, multiplication, addition_loop, addition,
}
use gbas.Parser.Grammar.{Sum}
use gbas.Parser.Sound.{then_ok, addition_sound}
use gbas.Parser.Complete.{addition_complete}

-- No operator of a product, and none of a sum.
abbrev pub EndsProduct : TokenList → Type 0
EndsProduct ts = is_multiplication (peek ts) ≡ false

abbrev pub EndsSum : TokenList → Type 0
EndsSum ts = (is_addition (peek ts) ≡ false) × EndsProduct ts

multiplication_loop-EndsProduct :
    (f : ℕ) (left : Node) (ts : TokenList) {n : Node} {rest : TokenList}
    → multiplication_loop f left ts ≡ ok (n, rest)
    → EndsProduct rest
unfolding multiplication_loop
multiplication_loop-EndsProduct zero left ts h = cc
multiplication_loop-EndsProduct (suc f) left ts h =
    elim (Bool-cases (is_multiplication (peek ts))) [
      | inl k ↦
          let (op, mid, p, e) = then_ok (next ts) _ (rw k at h) in
          let (right, mid', q, e') = then_ok (unary f mid) _ e in
          multiplication_loop-EndsProduct f _ mid' e'
      | inr k ↦ subst EndsProduct (ap (λ z. z.1) (ok-injective (rw k at h))) k
    ]

multiplication-EndsProduct :
    (f : ℕ) (ts : TokenList) {n : Node} {rest : TokenList}
    → multiplication f ts ≡ ok (n, rest)
    → EndsProduct rest
unfolding multiplication
multiplication-EndsProduct f ts h =
    let (left, mid, p, e) = then_ok (unary f ts) (multiplication_loop f) h in
    multiplication_loop-EndsProduct f left mid e

addition_loop-EndsSum :
    (f : ℕ) (left : Node) (ts : TokenList) {n : Node} {rest : TokenList}
    → EndsProduct ts
    → addition_loop f left ts ≡ ok (n, rest)
    → EndsSum rest
unfolding addition_loop
addition_loop-EndsSum zero left ts l h = cc
addition_loop-EndsSum (suc f) left ts l h = elim (Bool-cases (is_addition (peek ts))) [
  | inl k ↦
      let (op, mid, p, e) = then_ok (next ts) _ (rw k at h) in
      let (right, mid', q, e') = then_ok (multiplication f mid) _ e in
      addition_loop-EndsSum f _ mid' (multiplication-EndsProduct f mid q) e'
  | inr k ↦ subst EndsSum (ap (λ z. z.1) (ok-injective (rw k at h))) (k, l)
]

pub addition-EndsSum :
    (f : ℕ) (ts : TokenList) {n : Node} {rest : TokenList}
    → addition f ts ≡ ok (n, rest)
    → EndsSum rest
unfolding addition
addition-EndsSum f ts h =
    let (left, mid, p, e) = then_ok (multiplication f ts) (addition_loop f) h in
    addition_loop-EndsSum f left mid (multiplication-EndsProduct f ts p) e

-- Let the fuel exceed the number of tokens. Then `addition` returns a tree, and leaves some
-- tokens, exactly if those before them are an expression of the grammar with that tree, and
-- those that are left begin with no operator of a sum or a product.
pub addition_lem :
    (f : ℕ) (ts : TokenList) (n : Node) (rest : TokenList)
    → length ts < f
    → (addition f ts ≡ ok (n, rest))
      ↔ ((taken : TokenList) × (ts ≡ taken ++ rest) × Sum taken n × EndsSum rest)
addition_lem f ts n rest room = (forth, back)
  where
    forth :
        addition f ts ≡ ok (n, rest)
        → (taken : TokenList) × (ts ≡ taken ++ rest) × Sum taken n × EndsSum rest
    forth h =
        let (taken, split, s) = addition_sound f ts h in (taken, split, s, addition-EndsSum f ts h)

    back :
        (taken : TokenList) × (ts ≡ taken ++ rest) × Sum taken n × EndsSum rest
        → addition f ts ≡ ok (n, rest)
    back (taken, split, s, (plus, times)) =
        rw split (addition_complete f rest s plus times (subst (λ x. length x < f) split room))
