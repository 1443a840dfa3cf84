-- ===== src/Evaluate/Constant.antt =====
-- src/assembler.cpp: `Assembler::evaluate` on expressions without labels.
use gbas.Prelude.{ℕ, zero, suc, ◌<◌, ◌≡◌, ◌⊎◌, inl, inr, refl, ap, Text}
use gbas.Result.{Result, ok, err, ◌>>=◌, undefined}
use gbas.Ast.{BinaryOpType, UnaryOpType, Node, label, number, binary_op, unary_op}
use gbas.Evaluate.{divide, binary_byte, unary_byte, fold_binary, fold_unary, evaluate}
use gbas.Evaluate.Means.{
  Means, numeral, operation, opposite, AllBytes, Means-byte, Combines-binary_byte,
}
use gbas.Evaluate.Value.{negative_unique, evaluate-AllBytes, value-evaluate}

-- An expression of bytes with no label, of operators that there are.
abbrev pub IsConstant : Node → Type 0
IsConstant (number v) = v < 256
IsConstant (binary_op BinaryOpType.invalid l r) = ⊥
IsConstant (binary_op op l r) = IsConstant l × IsConstant r
IsConstant (unary_op UnaryOpType.invalid n) = ⊥
IsConstant (unary_op op n) = IsConstant n
IsConstant _ = ⊥

IsConstant-AllBytes : (n : Node) → IsConstant n → AllBytes n
IsConstant-AllBytes (number v) h = h
IsConstant-AllBytes (binary_op BinaryOpType.invalid l r) h = absurd h
IsConstant-AllBytes (binary_op op l r) (h, k) = (IsConstant-AllBytes l h, IsConstant-AllBytes r k)
IsConstant-AllBytes (unary_op UnaryOpType.invalid n) h = absurd h
IsConstant-AllBytes (unary_op op n) h = IsConstant-AllBytes n h
IsConstant-AllBytes _ h = absurd h

folded :
    (op : BinaryOpType) (a b c : ℕ)
    → binary_byte op a b ≡ ok c
    → fold_binary op (number a) (number b) ≡ ok (number c)
unfolding fold_binary
folded op a b c h = rw h refl

Means-evaluate :
    {env : Text → ℕ} (n : Node) {v : ℕ} → IsConstant n → Means env n v → evaluate n ≡ ok (number v)
unfolding evaluate fold_unary unary_byte
Means-evaluate (number _) h (numeral _) = refl
Means-evaluate (label _) h m = absurd h
Means-evaluate (binary_op BinaryOpType.invalid l r) h m = absurd h
Means-evaluate (binary_op op l r) (h, k) (operation {a = a} {b} {c} p q made) =
    rw (Means-evaluate l h p, Means-evaluate r k q)
      (folded op a b c (Combines-binary_byte (Means-byte q) made))
Means-evaluate (unary_op UnaryOpType.neg n) {v} h (opposite {a = a} carry p small e) =
    rw (Means-evaluate n h p)
      (ap (λ x. ok (number x)) (negative_unique a v carry (Means-byte p) small e))
Means-evaluate n h m = absurd h

-- A constant is folded to a number, but for a division by zero.
abbrev IsFolded : Result Node → Type 0
IsFolded r = ((v : ℕ) × (r ≡ ok (number v))) ⊎ (r ≡ err undefined)

binary_byte_cases :
    (op : BinaryOpType) (a b : ℕ)
    → ¬ op ≡ BinaryOpType.invalid
    → IsFolded (binary_byte op a b >>= λ v. ok (number v))
unfolding binary_byte divide
binary_byte_cases BinaryOpType.invalid a b h = absurd (h refl)
binary_byte_cases BinaryOpType.div a zero h = inr refl
binary_byte_cases BinaryOpType.div a (suc b) h = inl (_, refl)
binary_byte_cases BinaryOpType.add a b h = inl (_, refl)
binary_byte_cases BinaryOpType.sub a b h = inl (_, refl)
binary_byte_cases BinaryOpType.mult a b h = inl (_, refl)

with_values :
    (op : BinaryOpType) (x y : Result Node)
    → ¬ op ≡ BinaryOpType.invalid
    → IsFolded x
    → IsFolded y
    → IsFolded (x >>= λ a. y >>= λ b. fold_binary op a b)
unfolding fold_binary
with_values op x y valid (inl (a, p)) (inl (b, q)) = rw (p, q) (binary_byte_cases op a b valid)
with_values op x y valid (inl (a, p)) (inr q) = rw (p, q) (inr refl)
with_values op x y valid (inr p) k = rw p (inr refl)

negated_value : (x : Result Node) → IsFolded x → IsFolded (x >>= fold_unary UnaryOpType.neg)
unfolding fold_unary unary_byte
negated_value x (inl (a, p)) = rw p (inl (_, refl))
negated_value x (inr p) = rw p (inr refl)

evaluate-IsFolded : (n : Node) → IsConstant n → IsFolded (evaluate n)
unfolding evaluate
evaluate-IsFolded (number v) h = inl (v, refl)
evaluate-IsFolded (binary_op BinaryOpType.invalid l r) h = absurd h
evaluate-IsFolded (binary_op BinaryOpType.add l r) (h, k) =
    with_values BinaryOpType.add (evaluate l) (evaluate r) (λ e. cc) (evaluate-IsFolded l h)
      (evaluate-IsFolded r k)
evaluate-IsFolded (binary_op BinaryOpType.sub l r) (h, k) =
    with_values BinaryOpType.sub (evaluate l) (evaluate r) (λ e. cc) (evaluate-IsFolded l h)
      (evaluate-IsFolded r k)
evaluate-IsFolded (binary_op BinaryOpType.mult l r) (h, k) =
    with_values BinaryOpType.mult (evaluate l) (evaluate r) (λ e. cc) (evaluate-IsFolded l h)
      (evaluate-IsFolded r k)
evaluate-IsFolded (binary_op BinaryOpType.div l r) (h, k) =
    with_values BinaryOpType.div (evaluate l) (evaluate r) (λ e. cc) (evaluate-IsFolded l h)
      (evaluate-IsFolded r k)
evaluate-IsFolded (unary_op UnaryOpType.invalid n) h = absurd h
evaluate-IsFolded (unary_op UnaryOpType.neg n) h =
    negated_value (evaluate n) (evaluate-IsFolded n h)
evaluate-IsFolded _ h = absurd h

-- Of an expression of bytes without labels, `evaluate` makes the number that it stands for, or
-- it meets a division by zero and the expression stands for no number.
pub evaluate_constant :
    (env : Text → ℕ) (n : Node)
    → IsConstant n
    → ((v : ℕ) × (evaluate n ≡ ok (number v)) × Means env n v)
      ⊎ (evaluate n ≡ err undefined) × ((v : ℕ) → ¬ Means env n v)
evaluate_constant env n h = elim (evaluate-IsFolded n h) [
  | inl (v, e) ↦
      let bytes = IsConstant-AllBytes n h in
      inl (v, e, (value-evaluate env n bytes e v).0 (numeral (evaluate-AllBytes n bytes e)))
  | inr e ↦ inr (e, λ v m. cc (Means-evaluate n h m))
]
