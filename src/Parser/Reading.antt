-- ===== src/Parser/Reading.antt =====
-- src/parser.cpp: every line and every program of the grammar is parsed to its tree.
use gbas.Prelude.{
  ℕ, zero, suc, ◌<◌, ◌≡◌, refl, ◌∙◌, subst, Bool, Bool-cases, inl, inr, true, false, not, ◌||◌,
  List, [], ◌∷◌, ◌++◌, append_assoc, some, length, length-append, all, ◌==◌, if◌then◌else◌, codes,
  text_eq, eq_of_text_eq, and-cases, arith,
}
use gbas.Result.{ok}
use gbas.CharUtils.{is_digit, is_alpha_numeric}
use gbas.Ast.{Node, Nodes, cons, root, DirectiveType, directive}
use gbas.Tokenizer.{Token, TokenList, eol, eof}
use gbas.Tokenizer.Lines.{end_lines}
use gbas.Parser.Classes.{
  InstructionProps, instructions, find_in, find_instruction, is_instruction, is_newline, is_eof,
  is_label, is_directive, is_addition, is_multiplication, find_directive,
}
use gbas.Parser.Expression.{peek}
use gbas.Parser.Manual.{
  Operand, Line, alone, with_one, with_two, section, Program, end, blank, line,
}
use gbas.Parser.Program.{
  operands_loop, make_instruction, with_props, instruction_, instruction_line, line_, directive_,
  directive_with, directive_operands, program, parse,
}
use gbas.Parser.Accepts.{Operand-Opens, loop_stops, loop_passes, loop_takes}

-- What holds of every lexeme of a table holds of a token that is found in it.
find_in-lexeme :
    (test : Token → Bool) (tok : Token) (ps : List InstructionProps) {p : InstructionProps}
    → all (λ q. test q.lexeme) ps ≡ true
    → find_in tok ps ≡ some p
    → test tok ≡ true
unfolding find_in
find_in-lexeme test tok [] k h = cc
find_in-lexeme test tok (q ∷ ps) k h = elim (Bool-cases (text_eq q.lexeme tok)) [
  | inl same ↦ subst (λ t. test t ≡ true) (eq_of_text_eq q.lexeme tok same) (and-cases k).0
  | inr other ↦ find_in-lexeme test tok ps (and-cases k).1 (rw other at h)
]

-- No instruction begins as a directive, ends the file or ends a line.
abbrev IsPlain : Token → Type 0
IsPlain tok = (is_directive tok ≡ false) × (is_eof tok ≡ false) × (is_newline tok ≡ false)

plain_test : (a b c : Bool) → not (a || b || c) ≡ true → (a ≡ false) × (b ≡ false) × (c ≡ false)
plain_test a b c h = ground arith

found-IsPlain : (tok : Token) {p : InstructionProps} → find_instruction tok ≡ some p → IsPlain tok
unfolding find_instruction instructions is_directive is_eof is_newline
found-IsPlain tok h =
    plain_test (is_directive tok) (is_eof tok) (is_newline tok) (
      find_in-lexeme (λ t. not (is_directive t || is_eof t || is_newline t)) tok instructions refl
        h)

never :
    (a b c : Bool) → (if a then false else if b then false else if c then false else false) ≡ false
never a b c = ground arith

found_no_label :
    (tok : Token) {p : InstructionProps} → find_instruction tok ≡ some p → is_label tok ≡ false
unfolding is_label is_instruction
found_no_label [] h = refl
found_no_label (c ∷ cs) h =
    rw h
      (never (is_digit c) (c == b'.') (not (all (λ d. is_alpha_numeric d || d == b'_') (c ∷ cs))))

pub instruction_complete :
    (f : ℕ) (tok : Token) (p : InstructionProps) (ts rest : TokenList) (ns : List Node) {n : Node}
    → find_instruction tok ≡ some p
    → operands_loop f [] ts ≡ ok (ns, rest)
    → (length ns == p.args1 || length ns == p.args2) ≡ true
    → make_instruction p ns ≡ ok n
    → line_ f (tok ∷ ts) ≡ ok (n, rest)
unfolding line_ instruction_line instruction_ is_instruction with_props
instruction_complete f tok p ts rest ns found read count made =
    let (other, _, _) = found-IsPlain tok found in
    rw (other, found_no_label tok found, found, read, count, made) refl

pub section_complete :
    (f : ℕ) (name : Token) (rest : TokenList)
    → is_newline name ≡ false
    → line_ f (codes ".section" ∷ name ∷ rest)
      ≡ ok (directive DirectiveType.section (name ∷ []), rest)
unfolding line_ directive_ directive_with directive_operands is_directive find_directive is_newline
section_complete f name rest k = rw k refl

-- The operands up to the newline.
last-Operand :
    (f : ℕ) (acc : List Node) (rest : TokenList) {ts : TokenList} {n : Node}
    → Operand ts n
    → length acc < 3
    → length (ts ++ eol ∷ rest) < f
    → operands_loop f acc (ts ++ eol ∷ rest) ≡ ok (acc ++ n ∷ [], eol ∷ rest)
unfolding is_addition is_multiplication
last-Operand zero acc rest o few room = absurd (omega arith)
last-Operand (suc zero) acc rest {ts} o few room =
    absurd (omega (arith, length-append ts (eol ∷ rest)))
last-Operand (suc (suc f)) acc rest {ts} {n} o few room =
    loop_takes (suc f) acc (eol ∷ rest) o refl refl few room ∙ loop_stops f (acc ++ n ∷ []) rest

two_operands :
    (f : ℕ) (rest : TokenList) {us ts : TokenList} {m n : Node}
    → Operand us m
    → Operand ts n
    → length (us ++ codes "," ∷ (ts ++ eol ∷ rest)) < f
    → operands_loop f [] (us ++ codes "," ∷ (ts ++ eol ∷ rest)) ≡ ok (m ∷ n ∷ [], eol ∷ rest)
unfolding is_addition is_multiplication
two_operands zero rest o o' room = absurd (omega arith)
two_operands (suc zero) rest {us} {ts} o o' room =
    absurd (omega (arith, length-append us (codes "," ∷ (ts ++ eol ∷ rest))))
two_operands (suc (suc f)) rest {us} {ts} {m} o o' room =
    let (_, full) = Operand-Opens [] o in
    loop_takes (suc f) [] (codes "," ∷ (ts ++ eol ∷ rest)) o refl refl (omega arith) room
    ∙ loop_passes f (m ∷ []) (ts ++ eol ∷ rest) (omega arith)
    ∙ last-Operand f (m ∷ []) rest o' (omega arith)
        (omega (arith, length-append us (codes "," ∷ (ts ++ eol ∷ rest))))

-- Let some tokens be a line, and the fuel exceed the number of the tokens up to the end. Then the
-- line's tokens are taken and its tree is returned; the newline is left.
Line-complete :
    (f : ℕ) (rest : TokenList) {ts : TokenList} {n : Node}
    → Line ts n
    → length (ts ++ eol ∷ rest) < suc f
    → line_ f (ts ++ eol ∷ rest) ≡ ok (n, eol ∷ rest)
unfolding make_instruction
Line-complete zero rest (alone {tok} {p} found count) room = absurd (omega arith)
Line-complete (suc f) rest (alone {tok} {p} found count) room =
    instruction_complete (suc f) tok p (eol ∷ rest) (eol ∷ rest) [] found (loop_stops f [] rest)
      count refl
Line-complete f rest (with_one {tok} {p} {ts} {n} found count o) room =
    instruction_complete f tok p (ts ++ eol ∷ rest) (eol ∷ rest) (n ∷ []) found
      (last-Operand f [] rest o (omega arith) (omega arith)) count refl
Line-complete f rest (with_two {tok} {p} {us} {ts} {all} {m} {n} found count o o' e) room =
    let fits : suc (length (us ++ codes "," ∷ (ts ++ eol ∷ rest))) < suc f =
      rw (e, append_assoc) at room in
    rw (e, append_assoc)
      (instruction_complete f tok p (us ++ codes "," ∷ (ts ++ eol ∷ rest)) (eol ∷ rest) (m ∷ n ∷ [])
        found (two_operands f rest o o' (omega arith)) count refl)
Line-complete f rest (section {name} k) room = section_complete f name (eol ∷ rest) k

pub found_no_end :
    (tok : Token) {p : InstructionProps}
    → find_instruction tok ≡ some p
    → (is_eof tok ≡ false) × (is_newline tok ≡ false)
found_no_end tok found =
    let (_, no_end, no_newline) = found-IsPlain tok found in (no_end, no_newline)

Line-IsPlain :
    (rest : TokenList) {ts : TokenList} {n : Node}
    → Line ts n
    → (is_eof (peek (ts ++ rest)) ≡ false) × (is_newline (peek (ts ++ rest)) ≡ false)
unfolding is_eof is_newline
Line-IsPlain rest (alone {tok} found _) = found_no_end tok found
Line-IsPlain rest (with_one {tok} found _ _) = found_no_end tok found
Line-IsPlain rest (with_two {tok} found _ _ _ _) = found_no_end tok found
Line-IsPlain rest (section _) = (refl, refl)

Line-nonempty : {ts : TokenList} {n : Node} → Line ts n → 0 < length ts
Line-nonempty (alone _ _) = omega arith
Line-nonempty (with_one _ _ _) = omega arith
Line-nonempty (with_two _ _ _ _ _) = omega arith
Line-nonempty (section _) = omega arith

Line-first :
    (f : ℕ) (ts rest after : TokenList) {n : Node} {ns : Nodes}
    → Line ts n
    → line_ (suc (suc f)) (ts ++ eol ∷ rest) ≡ ok (n, eol ∷ rest)
    → program f rest ≡ ok (ns, after)
    → program (suc (suc f)) (ts ++ eol ∷ rest) ≡ ok (cons n ns, after)
unfolding program is_eof is_newline
Line-first f ts rest after l read more =
    let (no_end, no_newline) = Line-IsPlain (eol ∷ rest) l in
    rw (no_end, no_newline, read, more) refl

program_complete :
    (f : ℕ) {tss : List TokenList} {ns : Nodes}
    → Program tss ns
    → length (end_lines tss ++ eof ∷ []) < f
    → program f (end_lines tss ++ eof ∷ []) ≡ ok (ns, eof ∷ [])
unfolding program is_eof is_newline
program_complete zero p room = absurd (omega arith)
program_complete (suc f) end room = refl
program_complete (suc f) (blank p) room = program_complete f p (omega arith)
program_complete (suc zero) (line {ts} {tss} l p) room =
    let rest = end_lines tss ++ eof ∷ [] in
    let fits : length (ts ++ eol ∷ rest) < 1 = rw (append_assoc) at room in
    absurd (omega (arith, length-append ts (eol ∷ rest)))
program_complete (suc (suc f)) (line {ts} {tss} l p) room =
    let rest = end_lines tss ++ eof ∷ [] in
    let fits : length (ts ++ eol ∷ rest) < suc (suc f) = rw (append_assoc) at room in
    rw (append_assoc) (
      Line-first f ts rest (eof ∷ []) l (Line-complete (suc (suc f)) rest l (omega arith))
        (program_complete f p (omega (arith, Line-nonempty l, length-append ts (eol ∷ rest)))))

-- Every program is parsed to its tree whose lines, ended as the tokenizer ends them, are empty,
-- an instruction with one of the numbers of operands that its row of the table has, with a comma
-- between two, or `.section` with a name.
pub parse-Program :
    {tss : List TokenList} {ns : Nodes}
    → Program tss ns
    → parse (end_lines tss ++ eof ∷ []) ≡ ok (root ns)
unfolding parse
parse-Program {tss} p =
    rw (program_complete (suc (length (end_lines tss ++ eof ∷ []))) p (omega arith)) refl
