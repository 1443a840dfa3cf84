-- ===== src/Parser/Sound.antt =====
-- What the expression parser returns is what the grammar gives the tokens that it took.
use gbas.Prelude.{
  ℕ, zero, suc, ◌≡◌, ◌⊎◌, inl, inr, refl, sym, ◌∙◌, ap, Bool, Bool-cases, true, false, ◌&&◌, ◌||◌,
  [], ◌∷◌, ◌++◌, ltb, if◌then◌else◌, length, subst, codes, text_eq, eq_of_text_eq, arith,
  append_assoc,
}
use gbas.CharUtils.{is_number}
use gbas.Result.{Result, ok, err, bind-eq-ok, ok-injective}
use gbas.Ast.{Node, BinaryOpType, binary_op}
use gbas.Tokenizer.{Token, TokenList}
use gbas.Parser.Classes.{is_label, is_addition, is_multiplication}
use gbas.Parser.Expression.{
  Parser, pure, ◌>>>=◌, peek, begins, is_empty, parse_number, label_, number_, primary, unary,
  multiplication_loop, multiplication, addition_loop, addition,
}
use gbas.Parser.Numerals.{parse_number_ok}
use gbas.Parser.Grammar.{
  Unary, name, numeral, negated, Factors, no_factor, times, over, Product, factors, Terms, no_term,
  plus, minus, Sum, terms,
}

-- The tokens that were taken, and what they read as.
abbrev pub Took {ℓ} : (TokenList → Node → Type ℓ) → TokenList → Node → TokenList → Type ℓ
Took P ts n rest = (taken : TokenList) × (ts ≡ taken ++ rest) × P taken n

-- Inversion of a successful `r >>>= g`.
pub then_ok :
    {A B : Type 0} (r : Result (A × TokenList)) (g : A → Parser B) {b : B} {rest : TokenList}
    → (r >>>= g) ≡ ok (b, rest)
    → (a : A) × (mid : TokenList) × (r ≡ ok (a, mid)) × (g a mid ≡ ok (b, rest))
then_ok (ok (a, mid)) g h = (a, mid, refl, h)
then_ok (err _) g h = cc

-- A loop that stops takes nothing.
stops {ℓ} :
    (P : TokenList → Node → Type ℓ) (left : Node) (ts : TokenList) {n : Node} {rest : TokenList}
    → pure left ts ≡ pure n rest
    → P [] left
    → Took P ts n rest
stops P left ts h p =
    ([], ap (λ q. q.1) (ok-injective h), subst (P []) (ap (λ q. q.0) (ok-injective h)) p)

second : (a b c : Bool) → (a && (b || c)) ≡ true → b ≡ false → c ≡ true
second a b c h k = ground arith

is_multiplication_space : is_multiplication (codes " ") ≡ false
unfolding is_multiplication
is_multiplication_space = refl

is_addition_space : is_addition (codes " ") ≡ false
unfolding is_addition
is_addition_space = refl

label_sound :
    (ts : TokenList) {n : Node} {rest : TokenList}
    → is_label (peek ts) ≡ true
    → label_ ts ≡ ok (n, rest)
    → Took Unary ts n rest
unfolding label_
label_sound [] k h = cc
label_sound (tok ∷ ts) k h = (
  tok ∷ [],
  ap (◌∷◌ tok) (ap (λ p. p.1) (ok-injective h)),
  subst (Unary (tok ∷ [])) (ap (λ p. p.0) (ok-injective h)) (name k),
)

number_sound :
    (ts : TokenList) {n : Node} {rest : TokenList}
    → is_label (peek ts) ≡ false
    → is_number (peek ts) ≡ true
    → number_ ts ≡ ok (n, rest)
    → Took Unary ts n rest
unfolding number_
number_sound [] k l h = cc
number_sound (tok ∷ ts) k l h =
    let (v, q, e) = bind-eq-ok (parse_number tok) (λ n. ok (n, ts)) h in
    let (small, is) = parse_number_ok tok l q in
    (
      tok ∷ [],
      ap (◌∷◌ tok) (ap (λ p. p.1) (ok-injective e)),
      subst (Unary (tok ∷ [])) (sym is ∙ ap (λ p. p.0) (ok-injective e)) (numeral k l small),
    )

primary_sound :
    (ts : TokenList) {n : Node} {rest : TokenList}
    → primary ts ≡ ok (n, rest)
    → Took Unary ts n rest
unfolding primary
primary_sound ts h = elim (Bool-cases (is_label (peek ts))) [
  | inl k ↦ label_sound ts k (rw k at h)
  | inr k ↦ elim (Bool-cases (is_number (peek ts))) [
    | inl l ↦ number_sound ts k l (rw (k, l) at h)
    | inr l ↦ cc (rw (k, l) at h)
  ]
]

pub unary_sound :
    (f : ℕ) (ts : TokenList) {n : Node} {rest : TokenList}
    → unary f ts ≡ ok (n, rest)
    → Took Unary ts n rest
unfolding unary
unary_sound zero ts h = cc
unary_sound (suc f) [] h = primary_sound [] h
unary_sound (suc f) (tok ∷ ts) h = elim (Bool-cases (is_empty tok)) [
  | inl k ↦ cc (rw k at h)
  | inr k ↦ elim (Bool-cases (begins b'-' tok)) [
    | inl l ↦
        let (m, mid, p, e) = then_ok (unary f ts) _ (rw (k, l) at h) in
        let (taken, split, u) = unary_sound f ts p in
        (
          tok ∷ taken,
          ap (◌∷◌ tok) (split ∙ ap (λ q. taken ++ q.1) (ok-injective e)),
          subst (Unary (tok ∷ taken)) (ap (λ p. p.0) (ok-injective e)) (negated l u),
        )
    | inr l ↦ primary_sound (tok ∷ ts) (rw (k, l) at h)
  ]
]

is_multiplication_token :
    (tok : Token) → is_multiplication tok ≡ true → (tok ≡ codes "*") ⊎ (tok ≡ codes "/")
unfolding is_multiplication
is_multiplication_token tok h = elim (Bool-cases (text_eq tok (codes "*"))) [
  | inl k ↦ inl (eq_of_text_eq tok (codes "*") k)
  | inr k ↦ inr (
      eq_of_text_eq tok (codes "/")
        (second (ltb 0 (length tok)) (text_eq tok (codes "*")) (text_eq tok (codes "/")) h k))
]

-- One round: the operator is one of the two.
multiplication_loop_round :
    (left right n : Node) (tok : Token) (ts us vs rest : TokenList)
    → is_multiplication tok ≡ true
    → ts ≡ us ++ vs ++ rest
    → Unary us right
    → Factors
        (binary_op (if begins b'*' tok then BinaryOpType.mult else BinaryOpType.div) left right)
        vs
        n
    → Took (Factors left) (tok ∷ ts) n rest
multiplication_loop_round left right n tok ts us vs rest h split u v =
    elim (is_multiplication_token tok h) [
      | inl k ↦ (codes "*" ∷ (us ++ vs), rw (k, split), times u (rw k at v) refl)
      | inr k ↦ (codes "/" ∷ (us ++ vs), rw (k, split), over u (rw k at v) refl)
    ]

multiplication_loop_sound :
    (f : ℕ) (left : Node) (ts : TokenList) {n : Node} {rest : TokenList}
    → multiplication_loop f left ts ≡ ok (n, rest)
    → Took (Factors left) ts n rest
unfolding multiplication_loop
multiplication_loop_sound zero left ts h = cc
multiplication_loop_sound (suc f) left [] h =
    stops (Factors left) left [] (rw is_multiplication_space at h) no_factor
multiplication_loop_sound (suc f) left (tok ∷ ts) {n} {rest} h =
    elim (Bool-cases (is_multiplication tok)) [
      | inl k ↦
          let (right, mid, p, e) = then_ok (unary f ts) _ (rw k at h) in
          let (us, split, u) = unary_sound f ts p in
          let (vs, split', v) =
            multiplication_loop_sound f
              (binary_op (if begins b'*' tok then BinaryOpType.mult else BinaryOpType.div) left
                right)
              mid e in
          multiplication_loop_round left right n tok ts us vs rest k
            (split ∙ ap (λ m. us ++ m) split' ∙ sym (append_assoc us vs rest)) u v
      | inr k ↦ stops (Factors left) left (tok ∷ ts) (rw k at h) no_factor
    ]

multiplication_sound :
    (f : ℕ) (ts : TokenList) {n : Node} {rest : TokenList}
    → multiplication f ts ≡ ok (n, rest)
    → Took Product ts n rest
unfolding multiplication
multiplication_sound f ts {n} {rest} h =
    let (left, mid, p, e) = then_ok (unary f ts) _ h in
    let (us, split, u) = unary_sound f ts p in
    let (vs, split', v) = multiplication_loop_sound f left mid e in
    (us ++ vs, split ∙ ap (λ m. us ++ m) split' ∙ sym (append_assoc us vs rest), factors u v refl)

is_addition_token : (tok : Token) → is_addition tok ≡ true → (tok ≡ codes "+") ⊎ (tok ≡ codes "-")
unfolding is_addition
is_addition_token tok h = elim (Bool-cases (text_eq tok (codes "+"))) [
  | inl k ↦ inl (eq_of_text_eq tok (codes "+") k)
  | inr k ↦ inr (
      eq_of_text_eq tok (codes "-")
        (second (ltb 0 (length tok)) (text_eq tok (codes "+")) (text_eq tok (codes "-")) h k))
]

-- One round: the operator is one of the two.
addition_loop_round :
    (left right n : Node) (tok : Token) (ts us vs rest : TokenList)
    → is_addition tok ≡ true
    → ts ≡ us ++ vs ++ rest
    → Product us right
    → Terms
        (binary_op (if begins b'+' tok then BinaryOpType.add else BinaryOpType.sub) left right)
        vs
        n
    → Took (Terms left) (tok ∷ ts) n rest
addition_loop_round left right n tok ts us vs rest h split u v = elim (is_addition_token tok h) [
  | inl k ↦ (codes "+" ∷ (us ++ vs), rw (k, split), plus u (rw k at v) refl)
  | inr k ↦ (codes "-" ∷ (us ++ vs), rw (k, split), minus u (rw k at v) refl)
]

addition_loop_sound :
    (f : ℕ) (left : Node) (ts : TokenList) {n : Node} {rest : TokenList}
    → addition_loop f left ts ≡ ok (n, rest)
    → Took (Terms left) ts n rest
unfolding addition_loop
addition_loop_sound zero left ts h = cc
addition_loop_sound (suc f) left [] h =
    stops (Terms left) left [] (rw is_addition_space at h) no_term
addition_loop_sound (suc f) left (tok ∷ ts) {n} {rest} h = elim (Bool-cases (is_addition tok)) [
  | inl k ↦
      let (right, mid, p, e) = then_ok (multiplication f ts) _ (rw k at h) in
      let (us, split, u) = multiplication_sound f ts p in
      let (vs, split', v) =
        addition_loop_sound f
          (binary_op (if begins b'+' tok then BinaryOpType.add else BinaryOpType.sub) left right)
          mid e in
      addition_loop_round left right n tok ts us vs rest k
        (split ∙ ap (λ m. us ++ m) split' ∙ sym (append_assoc us vs rest)) u v
  | inr k ↦ stops (Terms left) left (tok ∷ ts) (rw k at h) no_term
]

-- If `addition` returns, the tokens that it took are an expression of the grammar with the tree
-- that it returns, and the other tokens are left as they are.
pub addition_sound :
    (f : ℕ) (ts : TokenList) {n : Node} {rest : TokenList}
    → addition f ts ≡ ok (n, rest)
    → (taken : TokenList) × (ts ≡ taken ++ rest) × Sum taken n
unfolding addition
addition_sound f ts {n} {rest} h =
    let (left, mid, p, e) = then_ok (multiplication f ts) _ h in
    let (us, split, u) = multiplication_sound f ts p in
    let (vs, split', v) = addition_loop_sound f left mid e in
    (us ++ vs, split ∙ ap (λ m. us ++ m) split' ∙ sym (append_assoc us vs rest), terms u v refl)
