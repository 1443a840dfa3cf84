-- ===== src/Evaluate/Value.antt =====
-- src/assembler.cpp: `Assembler::evaluate` keeps what an expression stands for.
use gbas.Prelude.{ℕ, ◌+◌, ◌*◌, ◌-◌, ◌/◌, ◌%◌, ◌<◌, ◌≡◌, ◌↔◌, refl, sym, ◌∙◌, subst, Text, arith}
use native.Mathlib.Nat.{mod-lt}
use gbas.Result.{ok, ◌>>=◌, bind-eq-ok, ok-injective}
use gbas.Ast.{
  BinaryOpType, UnaryOpType, Node, instruction1, instruction2, directive, number, binary_op,
  unary_op, root,
}
use gbas.Evaluate.{
  byte, binary_byte, unary_byte, fold_binary, fold_unary, evaluate, evaluate_children,
}
use gbas.Evaluate.Means.{
  Means, numeral, address, operation, opposite, AllBytes, IsExpression, Combines-byte,
  binary_byte-Combines, Combines-binary_byte,
}

-- The parts of a successful run of `evaluate` on an operator.
pub evaluate_binary_ok :
    (op : BinaryOpType) (l r : Node) {m : Node}
    → evaluate (binary_op op l r) ≡ ok m
    → (a : Node) × (b : Node) × (evaluate l ≡ ok a)
      × (evaluate r ≡ ok b)
      × (fold_binary op a b ≡ ok m)
unfolding evaluate
evaluate_binary_ok BinaryOpType.invalid l r h = cc
evaluate_binary_ok op l r h =
    let (a, p, h') = bind-eq-ok (evaluate l) _ h in
    let (b, q, e) = bind-eq-ok (evaluate r) _ h' in (a, b, p, q, e)

pub evaluate_unary_ok :
    (op : UnaryOpType) (n : Node) {m : Node}
    → evaluate (unary_op op n) ≡ ok m
    → (a : Node) × (evaluate n ≡ ok a) × (fold_unary op a ≡ ok m)
unfolding evaluate
evaluate_unary_ok UnaryOpType.invalid n h = cc
evaluate_unary_ok UnaryOpType.neg n h = bind-eq-ok (evaluate n) (fold_unary UnaryOpType.neg) h

-- A folded operator stands for what it stood for before.
fold_binary-Means :
    (env : Text → ℕ) (op : BinaryOpType) (l r : Node) {m : Node}
    → AllBytes l
    → AllBytes r
    → fold_binary op l r ≡ ok m
    → (v : ℕ) → Means env m v ↔ Means env (binary_op op l r) v
unfolding fold_binary
fold_binary-Means env op (number a) (number b) {m} h k e v =
    let (c, q, same) = bind-eq-ok (binary_byte op a b) (λ v. ok (number v)) e in
    subst (λ m. Means env m v ↔ Means env (binary_op op (number a) (number b)) v)
      (ok-injective same) (forth c q, back c q)
  where
    forth :
        (c : ℕ)
        → binary_byte op a b ≡ ok c
        → Means env (number c) v
        → Means env (binary_op op (number a) (number b)) v
    forth c q (numeral _) = operation (numeral h) (numeral k) (binary_byte-Combines op a b h k q)

    back :
        (c : ℕ)
        → binary_byte op a b ≡ ok c
        → Means env (binary_op op (number a) (number b)) v
        → Means env (number c) v
    back c q (operation (numeral _) (numeral _) made) =
        subst (λ x. Means env (number x) v) (ok-injective (sym (Combines-binary_byte k made) ∙ q))
          (numeral (Combines-byte made))
fold_binary-Means env op l r {m} h k e v =
    subst (λ m. Means env m v ↔ Means env (binary_op op l r) v) (ok-injective e)
      ((λ x. x), (λ x. x))

pub negative_unique :
    (a c carry : ℕ) → a < 256 → c < 256 → c + a ≡ 256 * carry → (256 - a) % 256 ≡ c
negative_unique a c carry h k e = omega arith

negative-Means :
    (env : Text → ℕ) (a v : ℕ)
    → a < 256
    → Means env (number (byte (256 - a))) v ↔ Means env (unary_op UnaryOpType.neg (number a)) v
negative-Means env a v h = (forth (byte (256 - a)) refl, back)
  where
    forth :
        (x : ℕ)
        → x ≡ byte (256 - a)
        → Means env (number x) v
        → Means env (unary_op UnaryOpType.neg (number a)) v
    forth x e (numeral small) = opposite (1 - (256 - a) / 256) (numeral h) small (omega arith)

    back : Means env (unary_op UnaryOpType.neg (number a)) v → Means env (number (byte (256 - a))) v
    back (opposite carry (numeral _) small e) =
        subst (λ x. Means env (number x) v) (sym (negative_unique a v carry h small e))
          (numeral small)

fold_unary-Means :
    (env : Text → ℕ) (op : UnaryOpType) (n : Node) {m : Node}
    → AllBytes n
    → fold_unary op n ≡ ok m
    → (v : ℕ) → Means env m v ↔ Means env (unary_op op n) v
unfolding fold_unary unary_byte
fold_unary-Means env UnaryOpType.neg (number a) h e v =
    subst (λ m. Means env m v ↔ Means env (unary_op UnaryOpType.neg (number a)) v) (ok-injective e)
      (negative-Means env a v h)
fold_unary-Means env UnaryOpType.invalid (number a) h e v = cc
fold_unary-Means env op n h e v =
    subst (λ m. Means env m v ↔ Means env (unary_op op n) v) (ok-injective e) ((λ x. x), (λ x. x))

binary_byte-small :
    (op : BinaryOpType) (a b : ℕ) {c : ℕ} → a < 256 → b < 256 → binary_byte op a b ≡ ok c → c < 256
binary_byte-small op a b h k e = Combines-byte (binary_byte-Combines op a b h k e)

fold_binary-AllBytes :
    (op : BinaryOpType) (l r : Node) {m : Node}
    → AllBytes l
    → AllBytes r
    → fold_binary op l r ≡ ok m
    → AllBytes m
unfolding fold_binary
fold_binary-AllBytes op (number a) (number b) h k e =
    let (c, q, same) = bind-eq-ok (binary_byte op a b) (λ v. ok (number v)) e in
    subst AllBytes (ok-injective same) (binary_byte-small op a b h k q)
fold_binary-AllBytes op l r h k e = subst AllBytes (ok-injective e) (h, k)

fold_unary-AllBytes :
    (op : UnaryOpType) (n : Node) {m : Node} → AllBytes n → fold_unary op n ≡ ok m → AllBytes m
unfolding fold_unary unary_byte
fold_unary-AllBytes UnaryOpType.neg (number a) h e =
    subst AllBytes (ok-injective e) (mod-lt (256 - a) (omega arith))
fold_unary-AllBytes UnaryOpType.invalid (number a) h e = cc
fold_unary-AllBytes op n h e = subst AllBytes (ok-injective e) h

pub evaluate-AllBytes : (n : Node) {m : Node} → AllBytes n → evaluate n ≡ ok m → AllBytes m
unfolding evaluate
evaluate-AllBytes (root ns) b h =
    let (ms, p, e) = bind-eq-ok (evaluate_children ns) (λ ms. ok (root ms)) h in
    subst AllBytes (ok-injective e) tt
evaluate-AllBytes (instruction1 t n) b h =
    let (m, p, e) = bind-eq-ok (evaluate n) (λ m. ok (instruction1 t m)) h in
    subst AllBytes (ok-injective e) tt
evaluate-AllBytes (instruction2 t l r) b h =
    let (x, p, h') = bind-eq-ok (evaluate l) (λ a. evaluate r >>= λ b. ok (instruction2 t a b)) h in
    let (y, q, e) = bind-eq-ok (evaluate r) (λ y. ok (instruction2 t x y)) h' in
    subst AllBytes (ok-injective e) tt
evaluate-AllBytes (directive t args) b h = cc
evaluate-AllBytes (binary_op op l r) (b, c) h =
    let (x, y, p, q, e) = evaluate_binary_ok op l r h in
    fold_binary-AllBytes op x y (evaluate-AllBytes l b p) (evaluate-AllBytes r c q) e
evaluate-AllBytes (unary_op op n) b h =
    let (x, p, e) = evaluate_unary_ok op n h in fold_unary-AllBytes op x (evaluate-AllBytes n b p) e
evaluate-AllBytes n b h = subst AllBytes (ok-injective h) b

module _ (env : Text → ℕ) where
  abbrev SameMeaning : Node → Node → Type 0
  SameMeaning m n = (v : ℕ) → Means env m v ↔ Means env n v

  Means-IsExpression : {n : Node} {v : ℕ} → Means env n v → IsExpression n
  Means-IsExpression (numeral _) = tt
  Means-IsExpression (address _) = tt
  Means-IsExpression (operation _ _ _) = tt
  Means-IsExpression (opposite _ _ _ _) = tt

  -- What is no expression means nothing.
  SameMeaning-none : {m n : Node} → ¬ IsExpression m → ¬ IsExpression n → SameMeaning m n
  SameMeaning-none f g v =
      ((λ x. absurd (f (Means-IsExpression x))), (λ x. absurd (g (Means-IsExpression x))))

  -- What every meaning of one node is of another.
  abbrev Implies : Node → Node → Type 0
  Implies m n = (v : ℕ) → Means env m v → Means env n v

  Implies-binary_op :
      (op : BinaryOpType) {a b l r : Node}
      → Implies a l
      → Implies b r
      → Implies (binary_op op a b) (binary_op op l r)
  Implies-binary_op op f g v (operation {a = x} {b = y} p q c) = operation (f x p) (g y q) c

  Implies-unary_op :
      (op : UnaryOpType) {a n : Node} → Implies a n → Implies (unary_op op a) (unary_op op n)
  Implies-unary_op op f v (opposite {a = x} carry p h e) = opposite carry (f x p) h e

  SameMeaning-operation :
      (op : BinaryOpType) {a b l r : Node}
      → SameMeaning a l
      → SameMeaning b r
      → SameMeaning (binary_op op a b) (binary_op op l r)
  SameMeaning-operation op f g v = (
    Implies-binary_op op (λ u. (f u).0) (λ u. (g u).0) v,
    Implies-binary_op op (λ u. (f u).1) (λ u. (g u).1) v,
  )

  SameMeaning-opposite :
      (op : UnaryOpType) {a n : Node}
      → SameMeaning a n
      → SameMeaning (unary_op op a) (unary_op op n)
  SameMeaning-opposite op f v =
      (Implies-unary_op op (λ u. (f u).0) v, Implies-unary_op op (λ u. (f u).1) v)

  SameMeaning-trans : {l m n : Node} → SameMeaning l m → SameMeaning m n → SameMeaning l n
  SameMeaning-trans f g v = ((λ x. (g v).0 ((f v).0 x)), (λ x. (f v).1 ((g v).1 x)))

  -- Let the numbers of a tree be bytes, and `evaluate` return a tree for it. Whatever the
  -- addresses of the labels, the two trees stand for the same bytes, where an operator stands
  -- for the sum, the difference, the product or the negative up to a multiple of 256, or for the
  -- whole quotient.
  pub value-evaluate :
      (n : Node) {m : Node}
      → AllBytes n
      → evaluate n ≡ ok m
      → (v : ℕ) → Means env m v ↔ Means env n v
  unfolding evaluate
  value-evaluate (root ns) b h =
      let (ms, p, e) = bind-eq-ok (evaluate_children ns) (λ ms. ok (root ms)) h in
      subst (λ m. SameMeaning m (root ns)) (ok-injective e) (SameMeaning-none (λ x. x) (λ x. x))
  value-evaluate (instruction1 t n) b h =
      let (m, p, e) = bind-eq-ok (evaluate n) (λ m. ok (instruction1 t m)) h in
      subst (λ m. SameMeaning m (instruction1 t n)) (ok-injective e)
        (SameMeaning-none (λ x. x) (λ x. x))
  value-evaluate (instruction2 t l r) b h =
      let (x, p, h') =
        bind-eq-ok (evaluate l) (λ a. evaluate r >>= λ b. ok (instruction2 t a b)) h in
      let (y, q, e) = bind-eq-ok (evaluate r) (λ y. ok (instruction2 t x y)) h' in
      subst (λ m. SameMeaning m (instruction2 t l r)) (ok-injective e)
        (SameMeaning-none (λ x. x) (λ x. x))
  value-evaluate (directive t args) b h = cc
  value-evaluate (binary_op op l r) {m} (b, c) h =
      let (x, y, p, q, e) = evaluate_binary_ok op l r h in
      SameMeaning-trans
        (fold_binary-Means env op x y (evaluate-AllBytes l b p) (evaluate-AllBytes r c q) e)
        (SameMeaning-operation op (value-evaluate l b p) (value-evaluate r c q))
  value-evaluate (unary_op op n) {m} b h =
      let (x, p, e) = evaluate_unary_ok op n h in
      SameMeaning-trans (fold_unary-Means env op x (evaluate-AllBytes n b p) e)
        (SameMeaning-opposite op (value-evaluate n b p))
  value-evaluate n b h = subst (λ m. SameMeaning m n) (ok-injective h) (λ v. ((λ x. x), (λ x. x)))
