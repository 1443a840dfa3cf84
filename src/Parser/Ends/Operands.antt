-- ===== src/Parser/Ends/Operands.antt =====
-- The parser of operands never runs out of fuel: every round of its loops takes a token or throws.
use gbas.Prelude.{
  Bool, true, false, leb, ℕ, zero, suc, ◌<◌, ◌≤◌, [], ◌∷◌, ◌==◌, ◌||◌, ltb, ◌^◌, if◌then◌else◌,
  if_both, length, Text, codes, arith, text_eq,
}
use gbas.CharUtils.{is_number}
use gbas.Result.{
  Error, Result, ok, ◌>>=◌, parser_exception, out_of_range, undefined, Post, returns, raises,
  Post-bind,
}
use gbas.Ast.{Node, BinaryOpType, binary_op}
use gbas.Tokenizer.{Token, TokenList}
use gbas.Parser.Classes.{is_label, is_register, is_dregister, is_addition, is_multiplication}
use gbas.Parser.Expression.{
  Parser, throw, next, peek, begins, is_empty, atoi, int_byte, parse_number, primary, unary,
  multiplication_loop, multiplication, addition_loop, addition, register_of, dregister_of,
  register_, dregister_, operand, ◌>>>=◌,
}

-- What the parser throws: its own exception, that of `at` past the end, or the fault of `atoi`.
abbrev pub IsParserError : Error → Type 0
IsParserError (parser_exception _) = Unit
IsParserError out_of_range = Unit
IsParserError undefined = Unit
IsParserError _ = ⊥

-- The run kept within its fuel, and what it left is shorter than `n`.
abbrev pub Below : {A : Type 0} → ℕ → Result (A × TokenList) → Type 0
Below n = Post (λ p. length p.1 < n) IsParserError

pub throws : {A : Type 0} (n : ℕ) (msg : Text) (ts : TokenList) → Below n (throw {A = A} msg ts)
throws n msg ts = raises tt

pub Below-bind :
    {A B : Type 0} (m n : ℕ) (r : Result (A × TokenList)) (g : A → Parser B)
    → Below n r
    → ((a : A) (rest : TokenList) → length rest < n → Below m (g a rest))
    → Below m (r >>>= g)
Below-bind m n r g h k = Post-bind h (λ p. k p.0 p.1)

pub Below-weaken :
    {A : Type 0} (m n : ℕ) {r : Result (A × TokenList)} → n ≤ m → Below n r → Below m r
Below-weaken m n le (returns h) = returns (omega arith)
Below-weaken m n le (raises h) = raises h

pub next-Below : (ts : TokenList) → Below (length ts) (next ts)
next-Below [] = raises tt
next-Below (_ ∷ ts) = returns (omega arith)

-- A result that has no rest.
abbrev pub InFuel : {A : Type 0} → Result A → Type 0
InFuel = Post (λ _. Unit {0}) IsParserError

pub with_rest :
    {A : Type 0} (n : ℕ) (r : Result A) (rest : TokenList)
    → length rest < n
    → InFuel r
    → Below n (r >>= λ a. ok (a, rest))
with_rest n r rest h k = Post-bind k (λ a _. returns h)

int_byte-InFuel : (sign : Bool) (n : ℕ) → InFuel (int_byte sign n)
int_byte-InFuel false n = if_both InFuel (ltb n (2 ^ 31)) (λ _. returns tt) (λ _. raises tt)
int_byte-InFuel true n = if_both InFuel (leb n (2 ^ 31)) (λ _. returns tt) (λ _. raises tt)

pub parse_number-InFuel : (tok : Token) → InFuel (parse_number tok)
unfolding parse_number
parse_number-InFuel tok = Post-bind (int_byte-InFuel (atoi tok).0 (atoi tok).1) (λ v _. returns tt)

pub primary-Below : (ts : TokenList) → Below (length ts) (primary ts)
unfolding primary
primary-Below ts =
    if_both (Below (length ts)) (is_label (peek ts))
      (λ _. Below-bind _ _ (next ts) _ (next-Below ts) (λ tok rest h. returns h))
      λ _.
        if_both (Below (length ts)) (is_number (peek ts))
          (λ _.
            Below-bind _ _ (next ts) _ (next-Below ts)
              (λ tok rest h. with_rest _ (parse_number tok) rest h (parse_number-InFuel tok)))
          (λ _. throws _ _ ts)

pub unary-Below : (f : ℕ) (ts : TokenList) → length ts < f → Below (length ts) (unary f ts)
unfolding unary
unary-Below zero ts h = absurd (omega arith)
unary-Below (suc f) ts h =
    if_both (Below (length ts)) (is_empty (peek ts)) (λ _. throws _ _ ts)
      λ _.
        if_both (Below (length ts)) (begins b'-' (peek ts))
          (λ _. Below-bind _ _ (next ts) _ (next-Below ts) λ tok rest k.
            Below-bind _ _ (unary f rest) _ (unary-Below f rest (omega arith))
              (λ n rest' l. returns (omega arith)))
          (λ _. primary-Below ts)

pub multiplication_loop-Below :
    (f : ℕ) (left : Node) (ts : TokenList)
    → length ts < f
    → Below (suc (length ts)) (multiplication_loop f left ts)
unfolding multiplication_loop
multiplication_loop-Below zero left ts h = absurd (omega arith)
multiplication_loop-Below (suc f) left ts h =
    if_both (Below (suc (length ts))) (is_multiplication (peek ts))
      (λ _. Below-bind _ _ (next ts) _ (next-Below ts) λ op rest k.
        Below-bind _ _ (unary f rest) _ (unary-Below f rest (omega arith)) λ right rest' l.
          Below-weaken _ (suc (length rest')) (omega arith) (
            multiplication_loop-Below f
              (binary_op (if begins b'*' op then BinaryOpType.mult else BinaryOpType.div) left
                right)
              rest' (omega arith)))
      (λ _. returns (omega arith))

pub multiplication-Below :
    (f : ℕ) (ts : TokenList) → length ts < f → Below (length ts) (multiplication f ts)
unfolding multiplication
multiplication-Below f ts h = Below-bind _ _ (unary f ts) _ (unary-Below f ts h) λ left rest k.
    Below-weaken _ (suc (length rest)) (omega arith)
      (multiplication_loop-Below f left rest (omega arith))

pub addition_loop-Below :
    (f : ℕ) (left : Node) (ts : TokenList)
    → length ts < f
    → Below (suc (length ts)) (addition_loop f left ts)
unfolding addition_loop
addition_loop-Below zero left ts h = absurd (omega arith)
addition_loop-Below (suc f) left ts h =
    if_both (Below (suc (length ts))) (is_addition (peek ts))
      (λ _. Below-bind _ _ (next ts) _ (next-Below ts) λ op rest k.
        Below-bind _ _ (multiplication f rest) _ (multiplication-Below f rest (omega arith))
          λ right rest' l. Below-weaken _ (suc (length rest')) (omega arith) (
            addition_loop-Below f
              (binary_op (if begins b'+' op then BinaryOpType.add else BinaryOpType.sub) left right)
              rest' (omega arith)))
      (λ _. returns (omega arith))

pub addition-Below : (f : ℕ) (ts : TokenList) → length ts < f → Below (length ts) (addition f ts)
unfolding addition
addition-Below f ts h =
    Below-bind _ _ (multiplication f ts) _ (multiplication-Below f ts h) λ left rest k.
      Below-weaken _ (suc (length rest)) (omega arith)
        (addition_loop-Below f left rest (omega arith))

pub register_of-InFuel : (tok : Token) → InFuel (register_of tok)
unfolding register_of
register_of-InFuel [] = raises tt
register_of-InFuel (c ∷ []) =
    if_both InFuel
      (c == b'a'
        || c == b'f'
        || c == b'b'
        || c == b'c'
        || c == b'd'
        || c == b'e'
        || c == b'h'
        || c == b'l')
      (λ _. returns tt) (λ _. raises tt)
register_of-InFuel (_ ∷ _ ∷ _) = raises tt

pub dregister_of-InFuel : (tok : Token) → InFuel (dregister_of tok)
unfolding dregister_of
dregister_of-InFuel tok =
    if_both InFuel (text_eq tok (codes "af")) (λ _. returns tt)
      λ _.
        if_both InFuel (text_eq tok (codes "bc")) (λ _. returns tt)
          λ _.
            if_both InFuel (text_eq tok (codes "de")) (λ _. returns tt)
              λ _.
                if_both InFuel (text_eq tok (codes "hl")) (λ _. returns tt)
                  λ _.
                    if_both InFuel (text_eq tok (codes "sp")) (λ _. returns tt)
                      λ _.
                        if_both InFuel (text_eq tok (codes "pc")) (λ _. returns tt) (λ _. raises tt)

pub operand-Below : (f : ℕ) (ts : TokenList) → length ts < f → Below (length ts) (operand f ts)
unfolding operand register_ dregister_
operand-Below f ts h =
    if_both (Below (length ts)) (is_register (peek ts))
      (λ _.
        Below-bind _ _ (next ts) _ (next-Below ts)
          (λ tok rest k. with_rest _ (register_of tok) rest k (register_of-InFuel tok)))
      λ _.
        if_both (Below (length ts)) (is_dregister (peek ts))
          (λ _.
            Below-bind _ _ (next ts) _ (next-Below ts)
              (λ tok rest k. with_rest _ (dregister_of tok) rest k (dregister_of-InFuel tok)))
          (λ _. addition-Below f ts h)
