-- ===== src/Parser/Program.antt =====
-- Lines, directives and instructions, and the loop over the program.
use gbas.Prelude.{
  ℤ, pos, negsuc, ◌-◌, drop, ℕ, zero, suc, not, ◌&&◌, ◌||◌, List, [], ◌∷◌, ◌++◌, Option, none, some,
  ◌==◌, ltb, if◌then◌else◌, length, codes, text_eq,
}
use gbas.Result.{Result, ok, err, ◌>>=◌, parser_exception, out_of_range, out_of_fuel}
use gbas.Ast.{Node, Nodes, instruction0, instruction1, instruction2, directive, root, nil, cons}
use gbas.Tokenizer.{TokenList}
use gbas.Parser.Classes.{
  InstructionProps, DirectiveProps, find_instruction, find_directive, is_instruction, is_newline,
  is_comma, is_eof, is_label, is_directive,
}
use gbas.Parser.Expression.{Parser, pure, throw, ◌>>>=◌, next, peek, peek_next, label_, operand}

-- The arguments of a directive, `n` of them left to read.
unfoldable pub directive_operands : ℕ → Parser TokenList
directive_operands zero ts = ok ([], ts)
directive_operands (suc n) ts =
    if is_newline (peek ts)
    then throw (codes "Expected more arguments in directive") ts
    else (next ts >>>= λ tok rest. directive_operands n rest >>>= λ toks. pure (tok ∷ toks))

unfoldable pub directive_with : Option DirectiveProps → Parser Node
unfolding directive_operands
directive_with none ts = throw (codes "Invalid directive in program") ts
directive_with (some p) ts = directive_operands p.args ts >>>= λ toks. pure (directive p.type toks)

unfoldable pub directive_ : Parser Node
unfolding directive_with find_directive
directive_ ts = next ts >>>= λ tok. directive_with (find_directive tok)

-- The loop of `instruction` over its operands, at most three.
unfoldable pub operands_loop : ℕ → List Node → Parser (List Node)
operands_loop zero acc ts = err out_of_fuel
operands_loop (suc f) acc ts =
    let after_comma = next ts >>>= λ _. operands_loop f acc in
    let after_operand = operand (suc f) ts >>>= λ n. operands_loop f (acc ++ n ∷ []) in
    if not (is_newline (peek ts)) && ltb (length acc) 3
    then (if is_comma (peek ts) then after_comma else after_operand)
    else ok (acc, ts)

-- The node of an instruction, by the number of its operands.
unfoldable pub make_instruction : InstructionProps → List Node → Result Node
make_instruction p [] = ok (instruction0 p.type)
make_instruction p (a ∷ []) = ok (instruction1 p.type a)
make_instruction p (a ∷ b ∷ []) = ok (instruction2 p.type a b)
make_instruction p _ = err (parser_exception (codes "Invalid number of args for instruction"))

unfoldable pub with_props : Option InstructionProps → List Node → Result Node
unfolding make_instruction
with_props none operands = err (parser_exception (codes "Unrecognized instruction"))
with_props (some p) operands =
    if length operands == p.args1 || length operands == p.args2
    then make_instruction p operands
    else err (parser_exception (codes "Invalid number of args for instruction"))

unfoldable pub instruction_ : ℕ → Parser Node
unfolding with_props operands_loop find_instruction
instruction_ f ts = next ts >>>= λ inst rest. operands_loop f [] rest >>>= λ operands rest'.
    with_props (find_instruction inst) operands >>= λ n. ok (n, rest')

-- The test `isInstruction` and what follows it in `line`.
unfoldable pub instruction_line : ℕ → Parser Node
unfolding instruction_ is_instruction
instruction_line f ts =
    if is_instruction (peek ts)
    then instruction_ f ts
    else throw (codes "Invalid token in program") ts

unfoldable pub line_ : ℕ → Parser Node
unfolding directive_ instruction_line is_directive is_label label_
line_ f ts =
    if is_directive (peek ts)
    then directive_ ts
    else if is_label (peek ts)
    then (peek_next ts >>= λ tok.
        if text_eq tok (codes ":") then label_ ts else instruction_line f ts)
    else instruction_line f ts

-- The loop of `program`: the children of the root.
unfoldable pub program : ℕ → Parser Nodes
unfolding line_
program zero ts = err out_of_fuel
program (suc f) ts =
    let after_newline = next ts >>>= λ _. program f in
    let after_line = line_ (suc f) ts >>>= λ n rest. program f rest >>>= λ ns. pure (cons n ns) in
    if is_eof (peek ts)
    then ok (nil, ts)
    else if is_newline (peek ts)
    then after_newline
    else after_line

unfoldable pub parse : TokenList → Result Node
unfolding program
parse tokens = program (suc (length tokens)) tokens >>= λ (ns, _). ok (root ns)

-- `Parser::readLine`, which nothing in the program calls: the tokens before the first "EOL".
unfoldable pub read_line : TokenList → Result TokenList
unfolding is_newline
read_line [] = err out_of_range
read_line (tok ∷ ts) =
    let rest = read_line ts >>= λ list. ok (tok ∷ list) in if is_newline tok then ok [] else rest

-- `Parser::expectNewline`, which nothing calls either: the index of the first newline from `start`
-- on and before `max`, where `none` is the -1.
unfoldable pub expect_from : ℕ → ℕ → TokenList → Result (Option ℕ)
unfolding is_newline
expect_from zero i ts = ok none
expect_from (suc n) i [] = err out_of_range
expect_from (suc n) i (tok ∷ ts) =
    let rest = expect_from n (suc i) ts in if is_newline tok then ok (some i) else rest

-- `at` with a negative place throws, as with any that is past the end.
unfoldable pub expect_newline : TokenList → ℤ → ℤ → Result (Option ℕ)
unfolding expect_from
expect_newline list (pos start) (pos max) = expect_from (max - start) start (drop start list)
expect_newline list (pos start) (negsuc max) = ok none
expect_newline list (negsuc start) (pos max) = err out_of_range
expect_newline list (negsuc start) (negsuc max) =
    if ltb max start then err out_of_range else ok none
