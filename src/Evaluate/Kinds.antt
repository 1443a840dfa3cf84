-- ===== src/Evaluate/Kinds.antt =====
-- `Assembler::evaluate`, `evaluateInstruction`: which parts of a node the folding leaves as they are.
use gbas.Prelude.{ℕ, ◌≡◌, refl, sym, ◌⊎◌, inl, inr, subst}
use gbas.Result.{ok, ◌>>=◌, bind-eq-ok, ok-injective}
use gbas.Ast.{
  Node, instruction1, instruction2, directive, number, binary_op, unary_op, nil, cons, root,
  node_id, n_operands, instruction_type, operands, binary_op_type, unary_op_type,
}
use gbas.Evaluate.{evaluate, evaluate_children}
use gbas.Evaluate.Shape.{fold_binary-cases, fold_unary-cases}
use gbas.Evaluate.Value.{evaluate_binary_ok, evaluate_unary_ok}

-- The second node is the first, with its operands folded.
abbrev pub HasFoldedOperands : Node → Node → Type 0
HasFoldedOperands n m =
    (instruction_type m ≡ instruction_type n)
    × (n_operands m ≡ n_operands n)
    × (evaluate_children (operands n) ≡ ok (operands m))

-- The second node has the class and the operator of the first.
abbrev pub IsAlike : Node → Node → Type 0
IsAlike n m =
    (node_id m ≡ node_id n)
    × (binary_op_type m ≡ binary_op_type n)
    × (unary_op_type m ≡ unary_op_type n)

abbrev Folds : Node → Node → Type 0
Folds n m = HasFoldedOperands n m × (((v : ℕ) × (m ≡ number v)) ⊎ IsAlike n m)

-- What is no instruction has no operands of one.
fold_binary-Folds :
    (op : _) (l r a b m : Node)
    → ((v : ℕ) × (m ≡ number v)) ⊎ (m ≡ binary_op op a b)
    → Folds (binary_op op l r) m
unfolding node_id n_operands instruction_type operands binary_op_type unary_op_type
    evaluate_children
fold_binary-Folds op l r a b m (inl (v, k)) =
    subst (Folds (binary_op op l r)) (sym k) ((refl, refl, refl), inl (v, refl))
fold_binary-Folds op l r a b m (inr k) =
    subst (Folds (binary_op op l r)) (sym k) ((refl, refl, refl), inr (refl, refl, refl))

fold_unary-Folds :
    (op : _) (n a m : Node)
    → ((v : ℕ) × (m ≡ number v)) ⊎ (m ≡ unary_op op a)
    → Folds (unary_op op n) m
unfolding node_id n_operands instruction_type operands binary_op_type unary_op_type
    evaluate_children
fold_unary-Folds op n a m (inl (v, k)) =
    subst (Folds (unary_op op n)) (sym k) ((refl, refl, refl), inl (v, refl))
fold_unary-Folds op n a m (inr k) =
    subst (Folds (unary_op op n)) (sym k) ((refl, refl, refl), inr (refl, refl, refl))

one_operand :
    (n : Node) {m : Node} → evaluate n ≡ ok m → evaluate_children (cons n nil) ≡ ok (cons m nil)
unfolding evaluate_children
one_operand n h = rw h refl

two_operands :
    (l r : Node) {a b : Node}
    → evaluate l ≡ ok a
    → evaluate r ≡ ok b
    → evaluate_children (cons l (cons r nil)) ≡ ok (cons a (cons b nil))
unfolding evaluate_children
two_operands l r h k = rw (h, k) refl

-- If `evaluate` returns a node, it has the type and the number of operands of an instruction
-- that the given node has, and its operands are what `evaluate` returns for those of the given
-- node. It is a number, or it has the class and the operator of the given node.
pub evaluate-HasFoldedOperands :
    (n : Node) {m : Node}
    → evaluate n ≡ ok m
    → HasFoldedOperands n m × (((v : ℕ) × (m ≡ number v)) ⊎ IsAlike n m)
unfolding evaluate node_id n_operands instruction_type operands binary_op_type unary_op_type
evaluate-HasFoldedOperands (root ns) h =
    let (ms, p, e) = bind-eq-ok (evaluate_children ns) (λ ms. ok (root ms)) h in
    subst (Folds (root ns)) (ok-injective e) ((refl, refl, refl), inr (refl, refl, refl))
evaluate-HasFoldedOperands (instruction1 t n) h =
    let (m, p, e) = bind-eq-ok (evaluate n) (λ m. ok (instruction1 t m)) h in
    subst (Folds (instruction1 t n)) (ok-injective e)
      ((refl, refl, one_operand n p), inr (refl, refl, refl))
evaluate-HasFoldedOperands (instruction2 t l r) h =
    let (a, p, h') = bind-eq-ok (evaluate l) (λ a. evaluate r >>= λ b. ok (instruction2 t a b)) h in
    let (b, q, e) = bind-eq-ok (evaluate r) (λ b. ok (instruction2 t a b)) h' in
    subst (Folds (instruction2 t l r)) (ok-injective e)
      ((refl, refl, two_operands l r p q), inr (refl, refl, refl))
evaluate-HasFoldedOperands (directive t args) h = cc
evaluate-HasFoldedOperands (binary_op op l r) {m} h =
    let (a, b, p, q, e) = evaluate_binary_ok op l r h in
    fold_binary-Folds op l r a b m (fold_binary-cases op a b e)
evaluate-HasFoldedOperands (unary_op op n) {m} h =
    let (a, p, e) = evaluate_unary_ok op n h in fold_unary-Folds op n a m (fold_unary-cases op a e)
evaluate-HasFoldedOperands n h =
    subst (Folds n) (ok-injective h) ((refl, refl, refl), inr (refl, refl, refl))
