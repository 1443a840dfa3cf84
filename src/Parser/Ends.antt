-- ===== src/Parser/Ends.antt =====
-- The parser never runs out of fuel: every round of its loops takes a token or throws.
pub mod Operands
use gbas.Prelude.{
  ℕ, zero, suc, ◌<◌, ◌≤◌, ◌≡◌, not, ◌&&◌, List, [], ◌∷◌, ◌++◌, Option, none, some, ◌==◌, ◌||◌, ltb,
  ◌^◌, if◌then◌else◌, if_both, subst, length, Text, codes, arith, text_eq,
}
use gbas.CharUtils.{is_number}
use gbas.Result.{
  Error, Result, ok, err, ◌>>=◌, parser_exception, out_of_range, undefined, Post, returns, raises,
  Post-bind,
}
use gbas.Ast.{Node, Nodes, BinaryOpType, binary_op}
use gbas.Tokenizer.{Token, TokenList}
use gbas.Parser.Classes.{
  InstructionProps, DirectiveProps, is_label, is_register, is_dregister, is_addition,
  is_multiplication, is_newline, is_comma, is_eof, is_directive, is_instruction, find_directive,
  find_instruction,
}
use gbas.Parser.Expression.{
  Parser, throw, next, peek, peek_next, begins, is_empty, atoi, parse_number, primary, unary,
  multiplication_loop, multiplication, addition_loop, addition, register_of, dregister_of,
  register_, dregister_, operand, ◌>>>=◌,
}
use gbas.Parser.Program.{
  directive_operands, directive_with, directive_, operands_loop, make_instruction, with_props,
  instruction_, instruction_line, line_, program, parse,
}
use gbas.Parser.Ends.Operands.{
  IsParserError, Below, throws, Below-bind, Below-weaken, next-Below, InFuel, with_rest,
  parse_number-InFuel, primary-Below, unary-Below, multiplication_loop-Below, multiplication-Below,
  addition_loop-Below, addition-Below, register_of-InFuel, dregister_of-InFuel, operand-Below,
}

directive_operands-Below :
    (n : ℕ) (ts : TokenList) → Below (suc (length ts)) (directive_operands n ts)
unfolding directive_operands
directive_operands-Below zero ts = returns (omega arith)
directive_operands-Below (suc n) ts =
    if_both (Below (suc (length ts))) (is_newline (peek ts)) (λ _. throws _ _ ts)
      λ _. Below-bind _ _ (next ts) _ (next-Below ts) λ tok rest k.
        Below-bind _ _ (directive_operands n rest) _ (directive_operands-Below n rest)
          (λ toks rest' l. returns (omega arith))

directive-Below : (ts : TokenList) → Below (length ts) (directive_ ts)
unfolding directive_ directive_with
directive-Below ts =
    Below-bind _ _ (next ts) _ (next-Below ts) λ tok rest k. go (find_directive tok) rest k
  where
    go :
        (p : Option DirectiveProps) (rest : TokenList)
        → length rest < length ts
        → Below (length ts) (directive_with p rest)
    go none rest k = throws _ _ rest
    go (some p) rest k =
        Below-bind _ _ (directive_operands p.args rest) _ (directive_operands-Below p.args rest)
          (λ toks rest' l. returns (omega arith))

operands_loop-Below :
    (f : ℕ) (acc : List Node) (ts : TokenList)
    → length ts < f
    → Below (suc (length ts)) (operands_loop f acc ts)
unfolding operands_loop
operands_loop-Below zero acc ts h = absurd (omega arith)
operands_loop-Below (suc f) acc ts h =
    if_both (Below (suc (length ts))) (not (is_newline (peek ts)) && ltb (length acc) 3)
      (λ _.
        if_both (Below (suc (length ts))) (is_comma (peek ts))
          (λ _. Below-bind _ _ (next ts) _ (next-Below ts) λ _ rest k.
            Below-weaken _ (suc (length rest)) (omega arith)
              (operands_loop-Below f acc rest (omega arith)))
          λ _. Below-bind _ _ (operand (suc f) ts) _ (operand-Below (suc f) ts h) λ n rest k.
            Below-weaken _ (suc (length rest)) (omega arith)
              (operands_loop-Below f (acc ++ n ∷ []) rest (omega arith)))
      (λ _. returns (omega arith))

with_props-InFuel :
    (p : Option InstructionProps) (operands : List Node) → InFuel (with_props p operands)
unfolding with_props
with_props-InFuel none operands = raises tt
with_props-InFuel (some p) operands =
    if_both InFuel (length operands == p.args1 || length operands == p.args2) (λ _. made p operands)
      (λ _. raises tt)
  where
    made : (p : InstructionProps) (operands : List Node) → InFuel (make_instruction p operands)
    made p [] = returns tt
    made p (_ ∷ []) = returns tt
    made p (_ ∷ _ ∷ []) = returns tt
    made p (_ ∷ _ ∷ _ ∷ _) = raises tt

instruction-Below : (f : ℕ) (ts : TokenList) → length ts < f → Below (length ts) (instruction_ f ts)
unfolding instruction_
instruction-Below f ts h = Below-bind _ _ (next ts) _ (next-Below ts) λ inst rest k.
    Below-bind _ _ (operands_loop f [] rest) _ (operands_loop-Below f [] rest (omega arith))
      λ operands rest' l.
        with_rest _ (with_props (find_instruction inst) operands) rest' (omega arith)
          (with_props-InFuel (find_instruction inst) operands)

instruction_line-Below :
    (f : ℕ) (ts : TokenList) → length ts < f → Below (length ts) (instruction_line f ts)
unfolding instruction_line
instruction_line-Below f ts h =
    if_both (Below (length ts)) (is_instruction (peek ts)) (λ _. instruction-Below f ts h)
      (λ _. throws _ _ ts)

peek_next-InFuel : (ts : TokenList) → InFuel (peek_next ts)
peek_next-InFuel [] = raises tt
peek_next-InFuel (_ ∷ []) = raises tt
peek_next-InFuel (_ ∷ _ ∷ _) = returns tt

line-Below : (f : ℕ) (ts : TokenList) → length ts < f → Below (length ts) (line_ f ts)
unfolding line_
line-Below f ts h =
    if_both (Below (length ts)) (is_directive (peek ts)) (λ _. directive-Below ts)
      λ _.
        if_both (Below (length ts)) (is_label (peek ts))
          (λ _. Post-bind (peek_next-InFuel ts) λ tok _.
            if_both (Below (length ts)) (text_eq tok (codes ":"))
              (λ _. Below-bind _ _ (next ts) _ (next-Below ts) (λ _ _ k. returns k))
              (λ _. instruction_line-Below f ts h))
          (λ _. instruction_line-Below f ts h)

program-Below : (f : ℕ) (ts : TokenList) → length ts < f → Below (suc (length ts)) (program f ts)
unfolding program
program-Below zero ts h = absurd (omega arith)
program-Below (suc f) ts h =
    if_both (Below (suc (length ts))) (is_eof (peek ts)) (λ _. returns (omega arith))
      λ _.
        if_both (Below (suc (length ts))) (is_newline (peek ts))
          (λ _. Below-bind _ _ (next ts) _ (next-Below ts) λ _ rest k.
            Below-weaken _ (suc (length rest)) (omega arith) (program-Below f rest (omega arith)))
          λ _. Below-bind _ _ (line_ (suc f) ts) _ (line-Below (suc f) ts h) λ n rest k.
            Below-bind _ _ (program f rest) _ (program-Below f rest (omega arith))
              (λ ns rest' l. returns (omega arith))

-- If `parse` throws, it is a `ParserException`, a read past the last token or an overflow in
-- `atoi`: the fuel that it gives is enough for every list of tokens.
pub parse-IsParserError : (tokens : TokenList) {e : Error} → parse tokens ≡ err e → IsParserError e
unfolding parse
parse-IsParserError tokens {e} h = go (program-Below (suc (length tokens)) tokens (omega arith)) h
  where
    go :
        {r : Result (Nodes × TokenList)}
        → Below (suc (length tokens)) r
        → (r >>= λ (ns, _). ok (Node.root ns)) ≡ err e
        → IsParserError e
    go (returns k) h = cc
    go (raises k) h = subst IsParserError (cc) k
