-- ===== src/Evaluate/Shape.antt =====
-- What `evaluate` does to the tree: a second pass finds nothing to do, and bytes stay bytes.
use gbas.Prelude.{ℕ, ◌≡◌, sym, ◌⊎◌, inl, inr, ◌∙◌, ap}
use gbas.Result.{ok, ◌>>=◌, bind-eq-ok, ok-injective}
use gbas.Ast.{
  BinaryOpType, UnaryOpType, Node, Nodes, instruction1, instruction2, directive, number, binary_op,
  unary_op, nil, cons, root,
}
use gbas.Evaluate.{binary_byte, unary_byte, fold_binary, fold_unary, evaluate, evaluate_children}
use gbas.Evaluate.Value.{evaluate_binary_ok, evaluate_unary_ok}

-- An operator is folded to a number, or stays.
pub fold_binary-cases :
    (op : BinaryOpType) (a b : Node) {m : Node}
    → fold_binary op a b ≡ ok m
    → ((v : ℕ) × (m ≡ number v)) ⊎ (m ≡ binary_op op a b)
unfolding fold_binary
fold_binary-cases op (number a) (number b) h =
    let (v, q, e) = bind-eq-ok (binary_byte op a b) (λ v. ok (number v)) h in
    inl (v, sym (ok-injective e))
fold_binary-cases op _ _ h = inr (sym (ok-injective h))

pub fold_unary-cases :
    (op : UnaryOpType) (a : Node) {m : Node}
    → fold_unary op a ≡ ok m
    → ((v : ℕ) × (m ≡ number v)) ⊎ (m ≡ unary_op op a)
unfolding fold_unary
fold_unary-cases op (number a) h =
    let (v, q, e) = bind-eq-ok (unary_byte op a) (λ v. ok (number v)) h in
    inl (v, sym (ok-injective e))
fold_unary-cases op _ h = inr (sym (ok-injective h))

-- Where the operator is one that there is, it is folded over what its operands evaluate to.
refold_binary :
    (op : BinaryOpType) (l r a b : Node) {m : Node}
    → evaluate (binary_op op l r) ≡ ok m
    → evaluate a ≡ ok a
    → evaluate b ≡ ok b
    → evaluate (binary_op op a b) ≡ fold_binary op a b
unfolding evaluate
refold_binary BinaryOpType.invalid l r a b h p q = cc
refold_binary op l r a b h p q = rw (p, q)

refold_unary :
    (op : UnaryOpType) (n a : Node) {m : Node}
    → evaluate (unary_op op n) ≡ ok m
    → evaluate a ≡ ok a
    → evaluate (unary_op op a) ≡ fold_unary op a
unfolding evaluate
refold_unary UnaryOpType.invalid n a h p = cc
refold_unary UnaryOpType.neg n a h p = rw p

mutual
  unfolding evaluate

  idem : (n : Node) {m : Node} → evaluate n ≡ ok m → evaluate m ≡ ok m
  idem (root ns) h =
      let (ms, p, e) = bind-eq-ok (evaluate_children ns) (λ ms. ok (root ms)) h in
      rw (← ok-injective e, idem_children ns p)
  idem (instruction1 t n) h =
      let (m, p, e) = bind-eq-ok (evaluate n) (λ m. ok (instruction1 t m)) h in
      rw (← ok-injective e, idem n p)
  idem (instruction2 t l r) h =
      let (a, p, h') =
        bind-eq-ok (evaluate l) (λ a. evaluate r >>= λ b. ok (instruction2 t a b)) h in
      let (b, q, e) = bind-eq-ok (evaluate r) (λ b. ok (instruction2 t a b)) h' in
      rw (← ok-injective e, idem l p, idem r q)
  idem (directive t args) h = cc
  idem (binary_op op l r) h =
      let (a, b, p, q, e) = evaluate_binary_ok op l r h in
      elim (fold_binary-cases op a b e) [
        | inl (v, k) ↦ rw k
        | inr k ↦ rw k (refold_binary op l r a b h (idem l p) (idem r q) ∙ e ∙ ap ok k)
      ]
  idem (unary_op op n) h =
      let (a, p, e) = evaluate_unary_ok op n h in
      elim (fold_unary-cases op a e) [
        | inl (v, k) ↦ rw k
        | inr k ↦ rw k (refold_unary op n a h (idem n p) ∙ e ∙ ap ok k)
      ]
  idem _ h = rw (← ok-injective h)

  idem_children :
      (ns : Nodes) {ms : Nodes} → evaluate_children ns ≡ ok ms → evaluate_children ms ≡ ok ms
  idem_children nil h = rw (← ok-injective h)
  idem_children (cons n ns) h =
      let (m, p, h') =
        bind-eq-ok (evaluate n) (λ m. evaluate_children ns >>= λ ms. ok (cons m ms)) h in
      let (ms, q, e) = bind-eq-ok (evaluate_children ns) (λ ms. ok (cons m ms)) h' in
      rw (← ok-injective e, idem n p, idem_children ns q)

-- If `evaluate` returns a tree, it returns that tree for it as it is.
pub evaluate_idem : (n : Node) {m : Node} → evaluate n ≡ ok m → evaluate m ≡ ok m
evaluate_idem n h = idem n h
