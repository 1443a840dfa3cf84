-- ===== src/Tests/Passes.antt =====
-- The theorems on the tokenizer, the parser and the folding, at small inputs.
use gbas.Prelude.{pos, ◌⊎◌, ◌↔◌, ℕ, some, ◌≡◌, refl, [], ◌∷◌, ◌++◌, All, Text, codes, arith}
use gbas.Result.{undefined, ok, err, ◌>>=◌, Error, tokenizer_exception}
use gbas.Ast.{
  InstructionType, instruction1, BinaryOpType, UnaryOpType, Node, Nodes, instruction0, label,
  number, binary_op, unary_op, root, nil, cons,
}
use gbas.CharUtils.{is_number}
use gbas.Tokenizer.{
  is_word, is_symbol, TokenList, eol, eof, initial, get_lines, tokenize_line, tokenize,
}
use gbas.Tokenizer.Ends.{finish, lex_lines, tokenize-lex}
use gbas.Tokenizer.Output.{
  IsToken, unlex, PointsInto, tokenize-IsToken, tokenize_line-unlex, tokenize-PointsInto,
}
use gbas.Evaluate.{evaluate}
use gbas.Evaluate.Means.{Means, numeral, address, operation, Combines}
use gbas.Evaluate.Value.{value-evaluate}
use gbas.Evaluate.Constant.{evaluate_constant}
use gbas.Evaluate.Shape.{evaluate_idem}
use gbas.Evaluate.Kinds.{HasFoldedOperands, IsAlike, evaluate-HasFoldedOperands}
use gbas.Parser.Classes.{is_label, is_addition, is_multiplication, is_newline, is_comma, is_eof}
use gbas.Parser.Expression.{
  addition, addition_loop, multiplication, multiplication_loop, unary, primary,
}
use gbas.Parser.Program.{parse, expect_newline}
use gbas.Parser.Ends.Operands.{IsParserError}
use gbas.Parser.Ends.{parse-IsParserError}
use gbas.Parser.Grammar.{decimal, Sum, terms, Product, factors, no_factor, no_term, plus, Unary}
use gbas.Parser.Longest.{EndsSum, addition_lem}
use gbas.Parser.Newlines.{IsNewlineAt, expect_newline_lem}
use gbas.Parser.Shape.{AllLines, parse-AllLines}

abbrev nop : Text
nop = codes "nop"

tokenize-lex_example :
    tokenize (codes "nop\nei")
    ≡ (lex_lines 0 (get_lines (codes "nop\nei")) >>= λ ts. ok (ts ++ eof ∷ []))
tokenize-lex_example = tokenize-lex (codes "nop\nei")

nop_tokens : tokenize nop ≡ ok (nop ∷ eol ∷ eof ∷ [])
unfolding tokenize tokenize_line
nop_tokens = refl

tokenize-IsToken_example :
    All IsToken (nop ∷ eol ∷ eof ∷ [])
    × ((before : TokenList) × (nop ∷ eol ∷ eof ∷ [] ≡ before ++ eof ∷ []))
tokenize-IsToken_example = tokenize-IsToken nop nop_tokens

two_tokens-IsToken : All IsToken (codes "ld" ∷ codes "," ∷ [])
unfolding is_word is_symbol
two_tokens-IsToken = (IsToken.word (cc, refl), (IsToken.symbol refl refl, tt))

tokenize_line-unlex_example :
    (tokenize_line (unlex (codes "ld" ∷ codes "," ∷ [])) initial >>= finish)
    ≡ ok (codes "ld" ∷ codes "," ∷ eol ∷ [], 1)
tokenize_line-unlex_example =
    tokenize_line-unlex (codes "ld" ∷ codes "," ∷ []) initial two_tokens-IsToken

colon_error : tokenize (codes "x:") ≡ err (tokenizer_exception (codes "Invalid token x:") 0 1)
unfolding tokenize tokenize_line
colon_error = refl

tokenize-PointsInto_example :
    PointsInto 0 (get_lines (codes "x:")) (tokenizer_exception (codes "Invalid token x:") 0 1)
tokenize-PointsInto_example = tokenize-PointsInto (codes "x:") colon_error

-- `1 + 2 * x`.
abbrev one_two_x : Node
one_two_x =
    binary_op BinaryOpType.add (number 1)
      (binary_op BinaryOpType.mult (number 2) (label (codes "x")))

abbrev negated : Node
negated = unary_op UnaryOpType.neg (number 1)

abbrev sixteen : Text → ℕ
sixteen _ = 16

negated_run :
    evaluate (binary_op BinaryOpType.add negated (label (codes "x")))
    ≡ ok (binary_op BinaryOpType.add (number 255) (label (codes "x")))
unfolding evaluate
negated_run = refl

abbrev kept : Node
kept = binary_op BinaryOpType.add (number 255) (label (codes "x"))

value-evaluate_example :
    Means sixteen kept 15
    ↔ Means sixteen (binary_op BinaryOpType.add negated (label (codes "x"))) 15
value-evaluate_example =
    value-evaluate sixteen (binary_op BinaryOpType.add negated (label (codes "x")))
      (omega arith, tt) negated_run 15

-- 255 and 16 make 15, with a carry of one.
kept-Means : Means sixteen kept 15
kept-Means =
    operation (numeral (omega arith)) (address (omega arith)) (Combines.sum 1 (omega arith) refl)

abbrev sub_mult : Node
sub_mult =
    binary_op BinaryOpType.sub (number 1) (binary_op BinaryOpType.mult (number 100) (number 3))

evaluate_constant_example :
    ((v : ℕ) × (evaluate sub_mult ≡ ok (number v)) × Means sixteen sub_mult v)
    ⊎ (evaluate sub_mult ≡ err undefined) × ((v : ℕ) → ¬ Means sixteen sub_mult v)
evaluate_constant_example =
    evaluate_constant sixteen sub_mult (omega arith, (omega arith, omega arith))

evaluate_idem_example :
    evaluate (binary_op BinaryOpType.add (number 255) (label (codes "x")))
    ≡ ok (binary_op BinaryOpType.add (number 255) (label (codes "x")))
evaluate_idem_example =
    evaluate_idem (binary_op BinaryOpType.add negated (label (codes "x"))) negated_run

abbrev sub_negated : Node
sub_negated = instruction1 InstructionType.sub negated

sub_negated_run : evaluate sub_negated ≡ ok (instruction1 InstructionType.sub (number 255))
unfolding evaluate
sub_negated_run = refl

evaluate-HasFoldedOperands_example :
    HasFoldedOperands sub_negated (instruction1 InstructionType.sub (number 255))
    × (((v : ℕ) × (instruction1 InstructionType.sub (number 255) ≡ number v))
        ⊎ IsAlike sub_negated (instruction1 InstructionType.sub (number 255)))
evaluate-HasFoldedOperands_example = evaluate-HasFoldedOperands sub_negated sub_negated_run

abbrev sum_tokens : TokenList
sum_tokens = codes "1" ∷ codes "+" ∷ codes "2" ∷ []

abbrev sum_node : Node
sum_node = binary_op BinaryOpType.add (number 1) (number 2)

sum_run : addition 9 (sum_tokens ++ eol ∷ []) ≡ ok (sum_node, eol ∷ [])
unfolding addition addition_loop multiplication multiplication_loop unary primary is_addition
    is_multiplication
sum_run = refl

one-Product : Product (codes "1" ∷ []) (number 1)
unfolding is_label is_number decimal
one-Product = factors (Unary.numeral refl refl (omega arith)) no_factor refl

two-Product : Product (codes "2" ∷ []) (number 2)
unfolding is_label is_number decimal
two-Product = factors (Unary.numeral refl refl (omega arith)) no_factor refl

sum_tokens-Sum : Sum sum_tokens sum_node
sum_tokens-Sum = terms one-Product (plus two-Product no_term refl) refl

addition_lem_example : (addition 9 (sum_tokens ++ eol ∷ []) ≡ ok (sum_node, eol ∷ [])) ↔ (
    (taken : TokenList) × (sum_tokens ++ eol ∷ [] ≡ taken ++ eol ∷ [])
    × Sum taken sum_node
    × EndsSum (eol ∷ []))
addition_lem_example = addition_lem 9 (sum_tokens ++ eol ∷ []) sum_node (eol ∷ []) (omega arith)

abbrev two_lines : TokenList
two_lines = nop ∷ eol ∷ nop ∷ eol ∷ []

expect_newline_lem_example :
    (expect_newline two_lines (pos 2) (pos 4) ≡ ok (some 3))
    ↔ IsNewlineAt two_lines (pos 2) (pos 4) 3
expect_newline_lem_example = expect_newline_lem two_lines (pos 2) (pos 4) 3

abbrev nop_tree : Node
nop_tree = root (cons (instruction0 InstructionType.nop) nil)

parse-nop : parse (nop ∷ eol ∷ eof ∷ []) ≡ ok nop_tree
unfolding parse is_newline is_eof is_comma
parse-nop = refl

parse-AllLines_example : (ns : Nodes) × (nop_tree ≡ root ns) × AllLines ns
parse-AllLines_example = parse-AllLines (nop ∷ eol ∷ eof ∷ []) parse-nop

bad_line : (e : Error) × (parse (codes "3" ∷ eol ∷ eof ∷ []) ≡ err e)
unfolding parse is_newline is_eof is_comma
bad_line = (_, refl)

parse-IsParserError_example : IsParserError (bad_line.0)
parse-IsParserError_example = parse-IsParserError (codes "3" ∷ eol ∷ eof ∷ []) (bad_line.1)
