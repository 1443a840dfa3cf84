-- ===== src/Evaluate/Means.antt =====
-- What the expressions of `Assembler::evaluate` stand for, as relations between bytes that do not name the
-- code's arithmetic, and that this arithmetic is that of the relations.
use gbas.Prelude.{ℕ, zero, suc, ◌+◌, ◌*◌, ◌-◌, ◌/◌, ◌%◌, ◌<◌, ◌≡◌, sym, ◌∙◌, ap, subst, Text, arith}
use native.Mathlib.Nat.{add-mul, div-add-mod', mod-lt, div-le_self, div-eq_of_lt-le}
use gbas.Result.{Result, ok, ok-injective}
use gbas.Ast.{BinaryOpType, UnaryOpType, Node, label, number, binary_op, unary_op}
use gbas.Evaluate.{byte, divide, binary_byte}

-- The byte `c` that an operator makes of two bytes: the sum, the difference or the product up to a
-- multiple of 256, or the whole quotient.
pub data Combines : BinaryOpType → ℕ → ℕ → ℕ → Type 0 where
  sum :
      {a b c : ℕ} (carry : ℕ) → c < 256 → c + 256 * carry ≡ a + b → Combines BinaryOpType.add a b c
  difference :
      {a b c : ℕ} (borrow : ℕ)
      → c < 256
      → c + b ≡ a + 256 * borrow
      → Combines BinaryOpType.sub a b c
  product :
      {a b c : ℕ} (carry : ℕ) → c < 256 → c + 256 * carry ≡ a * b → Combines BinaryOpType.mult a b c
  quotient :
      {a b c : ℕ} (rest : ℕ)
      → c < 256
      → rest < b
      → c * b + rest ≡ a
      → Combines BinaryOpType.div a b c

-- The byte that an expression stands for once every label has an address. A division by zero, and
-- what is no expression, stand for none.
pub data Means (env : Text → ℕ) : Node → ℕ → Type 0 where
  numeral : {v : ℕ} → v < 256 → Means env (number v) v
  address : {s : Text} → env s < 256 → Means env (label s) (env s)
  operation :
      {op : BinaryOpType} {l r : Node} {a b c : ℕ}
      → Means env l a
      → Means env r b
      → Combines op a b c
      → Means env (binary_op op l r) c
  opposite :
      {n : Node} {a c : ℕ} (carry : ℕ)
      → Means env n a
      → c < 256
      → c + a ≡ 256 * carry
      → Means env (unary_op UnaryOpType.neg n) c

-- The numbers of an expression are bytes.
abbrev pub AllBytes : Node → Type 0
AllBytes (number v) = v < 256
AllBytes (binary_op op l r) = AllBytes l × AllBytes r
AllBytes (unary_op op n) = AllBytes n
AllBytes _ = Unit

abbrev pub IsExpression : Node → Type 0
IsExpression (number _) = Unit
IsExpression (label _) = Unit
IsExpression (binary_op _ _ _) = Unit
IsExpression (unary_op _ _) = Unit
IsExpression _ = ⊥

pub Combines-byte : {op : BinaryOpType} {a b c : ℕ} → Combines op a b c → c < 256
Combines-byte (sum _ h _) = h
Combines-byte (difference _ h _) = h
Combines-byte (product _ h _) = h
Combines-byte (quotient _ h _ _) = h

pub Means-byte : {env : Text → ℕ} {n : Node} {v : ℕ} → Means env n v → v < 256
Means-byte (numeral h) = h
Means-byte (address h) = h
Means-byte (operation _ _ c) = Combines-byte c
Means-byte (opposite _ _ h _) = h

remainder : (p : ℕ) → p % 256 + 256 * (p / 256) ≡ p
remainder p = omega arith

remainder_unique : (p c carry : ℕ) → c < 256 → c + 256 * carry ≡ p → p % 256 ≡ c
remainder_unique p c carry h e = omega arith

divide-Combines : (a b : ℕ) {c : ℕ} → a < 256 → divide a b ≡ ok c → Combines BinaryOpType.div a b c
unfolding divide
divide-Combines a zero h e = cc
divide-Combines a (suc b) {c} h e =
    let small : (a / suc b < 256) = omega (arith, div-le_self a (suc b)) in
    let whole : (c ≡ a / suc b) =
      sym (ok-injective e) ∙ remainder_unique (a / suc b) _ 0 small (omega arith) in
    quotient (a % suc b) (subst (λ x. x < 256) (sym whole) small) (mod-lt a (omega arith))
      (rw whole (div-add-mod' a (suc b)))

Combines-divide : (a b c rest : ℕ) → c < 256 → rest < b → c * b + rest ≡ a → divide a b ≡ ok c
unfolding divide
Combines-divide a zero c rest h k e = absurd (omega arith)
Combines-divide a (suc b) c rest h k e =
    let whole : (a / suc b ≡ c) =
      div-eq_of_lt-le (suc b) (omega (arith, e)) (omega (arith, e, add-mul c 1 (suc b))) in
    ap ok (ap byte whole ∙ remainder_unique c c 0 h (omega arith))

-- The code's arithmetic makes these bytes, and no others.
pub binary_byte-Combines :
    (op : BinaryOpType) (a b : ℕ) {c : ℕ}
    → a < 256
    → b < 256
    → binary_byte op a b ≡ ok c
    → Combines op a b c
unfolding binary_byte
binary_byte-Combines BinaryOpType.add a b h k e =
    let c = ok-injective e in sum ((a + b) / 256) (omega arith) (omega arith)
binary_byte-Combines BinaryOpType.sub a b h k e =
    let c = ok-injective e in difference (1 - (a + 256 - b) / 256) (omega arith) (omega arith)
binary_byte-Combines BinaryOpType.mult a b {c} h k e =
    let made : ((a * b) % 256 ≡ c) = ok-injective e in
    product ((a * b) / 256) (subst (λ x. x < 256) made (mod-lt (a * b) (omega arith)))
      (subst (λ x. x + 256 * ((a * b) / 256) ≡ a * b) made (remainder (a * b)))
binary_byte-Combines BinaryOpType.div a b h k e = divide-Combines a b h e
binary_byte-Combines BinaryOpType.invalid a b h k e = cc

pub Combines-binary_byte :
    {op : BinaryOpType} {a b c : ℕ} → b < 256 → Combines op a b c → binary_byte op a b ≡ ok c
unfolding binary_byte
Combines-binary_byte {a = a} {b} {c} k (sum carry h e) =
    ap ok (remainder_unique (a + b) c carry h e)
Combines-binary_byte {a = a} {b} {c} k (difference borrow h e) = ap {B = Result ℕ} ok (omega arith)
Combines-binary_byte {a = a} {b} {c} k (product carry h e) =
    ap ok (remainder_unique (a * b) c carry h e)
Combines-binary_byte {a = a} {b} {c} k (quotient rest h small e) =
    Combines-divide a b c rest h small e
