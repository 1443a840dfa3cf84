-- ===== src/Tests/Runs.antt =====
-- The tokenizer and the parser on small inputs.
use gbas.Prelude.{◌-◌, ◌≡◌, refl, [], ◌∷◌, Text, codes}
use gbas.Result.{Result, ok, err, ◌>>=◌, tokenizer_exception}
use gbas.Ast.{
  InstructionType, DirectiveType, BinaryOpType, UnaryOpType, Node, instruction0, instruction1,
  instruction2, register, dregister, label, directive, number, binary_op, unary_op, root, nil, cons,
}
use gbas.Tokenizer.{eol, eof, tokenize}
use gbas.Tokenizer.Reports.{log_error, arrow}
use gbas.Parser.Classes.{
  is_register, is_dregister, is_addition, is_multiplication, is_newline, is_comma, is_eof,
}
use gbas.Parser.Expression.{
  parse_number, atoi, read_sign, read_digits, primary, unary, multiplication_loop, multiplication,
  addition_loop, addition, register_, dregister_, operand,
}
use gbas.Parser.Program.{parse}

tokenize_source :
    tokenize (codes " ld a, 3+(b) ; c\n\n\"x y\"")
    ≡ ok (
        codes "ld"
        ∷ codes "a"
        ∷ codes ","
        ∷ codes "3"
        ∷ codes "+"
        ∷ codes "("
        ∷ codes "b"
        ∷ codes ")"
        ∷ eol
        ∷ eol
        ∷ codes "\"x y\""
        ∷ eol
        ∷ eof
        ∷ [])
unfolding tokenize
tokenize_source = refl

-- A colon is no token.
tokenize_colon :
    tokenize (codes "nop\nfoo: nop")
    ≡ err (tokenizer_exception (codes "Invalid token foo: nop") 1 3)
unfolding tokenize
tokenize_colon = refl

parse_source : Text → Result Node
unfolding tokenize parse operand register_ dregister_ addition addition_loop multiplication
    multiplication_loop unary primary is_register is_dregister is_addition is_multiplication
    is_newline is_comma is_eof
parse_source input = tokenize input >>= parse

parse_program :
    parse_source (codes ".section text\n ld a, 3+-x*2 ; c\n\n inc hl\n nop")
    ≡ ok (
        root (
          cons (directive DirectiveType.section (codes "text" ∷ [])) (
            cons
              (instruction2 InstructionType.ld (register b'a') (
                binary_op BinaryOpType.add (number 3) (
                  binary_op BinaryOpType.mult
                    (unary_op UnaryOpType.neg (label (codes "x")))
                    (number 2))))
              (cons
                (instruction1 InstructionType.inc (dregister b'h' b'l'))
                (cons (instruction0 InstructionType.nop) nil)))))
unfolding parse_source
parse_program = refl

-- The end of a line is taken for a name behind an operator, if the next line is empty.
parse_newline_name :
    parse (codes "sub" ∷ codes "1" ∷ codes "+" ∷ eol ∷ eol ∷ eof ∷ [])
    ≡ ok (
        root (
          cons
            (instruction1 InstructionType.sub
              (binary_op BinaryOpType.add (number 1) (label (codes "EOL"))))
            nil))
unfolding parse is_newline is_comma is_eof is_register is_dregister is_addition is_multiplication
    operand addition addition_loop multiplication multiplication_loop unary primary
parse_newline_name = refl

-- The report on a first line "ld:".
report_of_colon :
    log_error (λ _. codes "0") (codes "Invalid token") (codes "ld:") 0 2
    ≡ codes "Line 0: Invalid token\nld:\n--^\n"
unfolding log_error arrow
report_of_colon = refl

-- The texts of the test of numbers: a sign is read, and a text that is no number is 0.
parse_number_minus : parse_number (codes "-123") ≡ ok (number (256 - 123))
unfolding parse_number atoi read_sign read_digits
parse_number_minus = refl

parse_number_word : parse_number (codes "notnumber") ≡ ok (number 0)
unfolding parse_number atoi read_sign read_digits
parse_number_word = refl
