-- ===== src/Evaluate.antt =====
-- src/assembler.cpp, `Assembler::evaluate` and its helpers: the folding of constant expressions.
-- A `uint8_t` is a number below 256; the operators work on `int` and the result is cut to a byte.
pub mod Means
pub mod Value
pub mod Constant
pub mod Shape
pub mod Kinds
use gbas.Prelude.{ℕ, suc, zero, ◌+◌, ◌-◌, ◌*◌, ◌/◌, ◌%◌, Text, codes}
use gbas.Result.{Result, ok, err, ◌>>=◌, assembler_exception, undefined}
use gbas.Ast.{
  BinaryOpType, UnaryOpType, Node, Nodes, instruction0, instruction1, instruction2, register,
  dregister, label, directive, number, binary_op, unary_op, nil, cons, root,
}

abbrev pub byte : ℕ → ℕ
byte n = n % 256

-- A division of two bytes. A division by zero is undefined behaviour.
unfoldable pub divide : ℕ → ℕ → Result ℕ
divide a zero = err undefined
divide a (suc b) = ok (byte (a / suc b))

-- The arithmetic of `evaluateBinaryOp`, one case for each operator.
unfoldable pub binary_byte : BinaryOpType → ℕ → ℕ → Result ℕ
unfolding divide
binary_byte BinaryOpType.add a b = ok (byte (a + b))
binary_byte BinaryOpType.sub a b = ok (byte (a + 256 - b))
binary_byte BinaryOpType.mult a b = ok (byte (a * b))
binary_byte BinaryOpType.div a b = divide a b
binary_byte BinaryOpType.invalid a b = err (assembler_exception (codes "Invalid BinaryOpType"))

unfoldable pub unary_byte : UnaryOpType → ℕ → Result ℕ
unary_byte UnaryOpType.neg a = ok (byte (256 - a))
unary_byte UnaryOpType.invalid a = err (assembler_exception (codes "Invalid UnaryOpType"))

-- `evaluateBinaryOp` behind the evaluation of the operands: a number if both are numbers.
unfoldable pub fold_binary : BinaryOpType → Node → Node → Result Node
unfolding binary_byte
fold_binary op (number a) (number b) = binary_byte op a b >>= λ v. ok (number v)
fold_binary op l r = ok (binary_op op l r)

unfoldable pub fold_unary : UnaryOpType → Node → Result Node
unfolding unary_byte
fold_unary op (number a) = unary_byte op a >>= λ v. ok (number v)
fold_unary op n = ok (unary_op op n)

-- The operands of an instruction or an operator are taken from left to right, an order that C++
-- leaves open for an instruction with two operands; it shows only in which exception is thrown.
unfoldable mutual
  unfolding fold_binary fold_unary

  pub evaluate : Node → Result Node
  evaluate (root ns) = evaluate_children ns >>= λ ms. ok (root ms)
  evaluate (instruction0 t) = ok (instruction0 t)
  evaluate (instruction1 t n) = evaluate n >>= λ m. ok (instruction1 t m)
  evaluate (instruction2 t l r) = evaluate l >>= λ a. evaluate r >>= λ b. ok (instruction2 t a b)
  evaluate (register c) = ok (register c)
  evaluate (dregister c d) = ok (dregister c d)
  evaluate (label s) = ok (label s)
  evaluate (directive t args) = err (assembler_exception (codes "Unrecognized AST node type"))
  evaluate (number v) = ok (number v)
  evaluate (binary_op BinaryOpType.invalid l r) =
      err (assembler_exception (codes "Invalid BinaryOpType"))
  evaluate (binary_op op l r) = evaluate l >>= λ a. evaluate r >>= λ b. fold_binary op a b
  evaluate (unary_op UnaryOpType.invalid n) =
      err (assembler_exception (codes "Invalid UnaryOpType"))
  evaluate (unary_op op n) = evaluate n >>= fold_unary op

  pub evaluate_children : Nodes → Result Nodes
  evaluate_children nil = ok nil
  evaluate_children (cons n ns) = evaluate n >>= λ m. evaluate_children ns >>= λ ms. ok (cons m ms)
