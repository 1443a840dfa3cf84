-- ===== src/Parser/Classes.antt =====
-- The tables of the parser, and its tests on tokens.
use gbas.Prelude.{
  ℕ, Bool, true, false, ◌&&◌, ◌||◌, not, List, [], ◌∷◌, Option, none, some, ◌==◌, ltb,
  if◌then◌else◌, all, any, length, Text, codes, text_eq, map,
}
use gbas.CharUtils.{is_alpha_numeric, is_digit, is_numeric_op}
use gbas.Ast.{InstructionType, DirectiveType}
use gbas.Tokenizer.{Token, eol, eof}

pub record InstructionProps : Type 0 where
  pub lexeme : Token
  pub type : InstructionType
  pub args1 : ℕ
  pub args2 : ℕ

abbrev props : Text → InstructionType → ℕ → ℕ → InstructionProps
props s t m n = record { lexeme = s; type = t; args1 = m; args2 = n }

unfoldable pub instructions : List InstructionProps
instructions =
    props (codes "add") InstructionType.add 2 2
    ∷ props (codes "adc") InstructionType.adc 2 2
    ∷ props (codes "inc") InstructionType.inc 1 1
    ∷ props (codes "sub") InstructionType.sub 1 2
    ∷ props (codes "sbc") InstructionType.sbc 2 2
    ∷ props (codes "and") InstructionType.and 1 1
    ∷ props (codes "xor") InstructionType.xor 1 1
    ∷ props (codes "or") InstructionType.or 1 1
    ∷ props (codes "cp") InstructionType.cp 1 1
    ∷ props (codes "dec") InstructionType.dec 1 1
    ∷ props (codes "rlc") InstructionType.rlc 1 1
    ∷ props (codes "rlca") InstructionType.rlca 0 0
    ∷ props (codes "rl") InstructionType.rl 1 1
    ∷ props (codes "rla") InstructionType.rla 0 0
    ∷ props (codes "rrc") InstructionType.rrc 1 1
    ∷ props (codes "rrca") InstructionType.rrca 0 0
    ∷ props (codes "rr") InstructionType.rr 1 1
    ∷ props (codes "rra") InstructionType.rra 0 0
    ∷ props (codes "daa") InstructionType.daa 0 0
    ∷ props (codes "scf") InstructionType.scf 0 0
    ∷ props (codes "cpl") InstructionType.cpl 0 0
    ∷ props (codes "ccf") InstructionType.ccf 0 0
    ∷ props (codes "ld") InstructionType.ld 2 2
    ∷ props (codes "ldi") InstructionType.ldi 2 2
    ∷ props (codes "ldd") InstructionType.ldd 2 2
    ∷ props (codes "push") InstructionType.push 1 1
    ∷ props (codes "pop") InstructionType.pop 1 1
    ∷ props (codes "jr") InstructionType.jr 1 2
    ∷ props (codes "ret") InstructionType.ret 0 0
    ∷ props (codes "jp") InstructionType.jp 0 0
    ∷ props (codes "call") InstructionType.call 0 0
    ∷ props (codes "rst") InstructionType.rst 1 1
    ∷ props (codes "nop") InstructionType.nop 0 0
    ∷ props (codes "stop") InstructionType.stop 0 0
    ∷ props (codes "halt") InstructionType.halt 0 0
    ∷ props (codes "di") InstructionType.di 0 0
    ∷ props (codes "ei") InstructionType.ei 0 0
    ∷ props (codes "sla") InstructionType.sla 1 1
    ∷ props (codes "sra") InstructionType.sra 1 1
    ∷ props (codes "swap") InstructionType.swap 1 1
    ∷ props (codes "srl") InstructionType.srl 1 1
    ∷ props (codes "bit") InstructionType.bit 2 2
    ∷ props (codes "res") InstructionType.res 2 2
    ∷ props (codes "set") InstructionType.set 2 2
    ∷ []

unfoldable pub find_in : Token → List InstructionProps → Option InstructionProps
unfolding text_eq
find_in tok [] = none
find_in tok (p ∷ ps) = if text_eq p.lexeme tok then some p else find_in tok ps

unfoldable pub find_instruction : Token → Option InstructionProps
unfolding find_in instructions
find_instruction tok = find_in tok instructions

abbrev pub is_some {ℓ} : {A : Type ℓ} → Option A → Bool
is_some none = false
is_some (some _) = true

unfoldable pub is_instruction : Token → Bool
unfolding find_instruction
is_instruction tok = is_some (find_instruction tok)

pub record DirectiveProps : Type 0 where
  pub lexeme : Token
  pub type : DirectiveType
  pub args : ℕ

-- The table of directives has one row.
abbrev pub section_props : DirectiveProps
section_props = record { lexeme = codes ".section"; type = DirectiveType.section; args = 1 }

-- `none` stands for the exception.
unfoldable pub find_directive : Token → Option DirectiveProps
unfolding text_eq
find_directive tok = if text_eq section_props.lexeme tok then some section_props else none

unfoldable pub is_newline : Token → Bool
unfolding text_eq
is_newline tok = text_eq tok eol

unfoldable pub is_comma : Token → Bool
unfolding text_eq
is_comma tok = text_eq tok (codes ",")

unfoldable pub is_eof : Token → Bool
unfolding text_eq
is_eof tok = text_eq tok eof

unfoldable pub is_addition : Token → Bool
unfolding text_eq
is_addition tok = ltb 0 (length tok) && (text_eq tok (codes "+") || text_eq tok (codes "-"))

unfoldable pub is_multiplication : Token → Bool
unfolding text_eq
is_multiplication tok = ltb 0 (length tok) && (text_eq tok (codes "*") || text_eq tok (codes "/"))

-- `Parser::isNumericOp`.
unfoldable pub is_numeric_op_token : Token → Bool
unfolding is_numeric_op
is_numeric_op_token (c ∷ []) = is_numeric_op c
is_numeric_op_token _ = false

unfoldable pub is_label : Token → Bool
unfolding is_digit is_alpha_numeric is_instruction
is_label [] = false
is_label (c ∷ cs) =
    if is_digit c
    then false
    else if c == b'.'
    then false
    else if not (all (λ d. is_alpha_numeric d || d == b'_') (c ∷ cs))
    then false
    else not (is_instruction (c ∷ cs))

unfoldable pub is_directive : Token → Bool
unfolding is_digit is_alpha_numeric
is_directive (c ∷ d ∷ cs) =
    if not (c == b'.') then false else if is_digit d then false else all is_alpha_numeric (d ∷ cs)
is_directive _ = false

abbrev registers : List Token
registers = map codes ("a" ∷ "f" ∷ "b" ∷ "c" ∷ "d" ∷ "e" ∷ "h" ∷ "l" ∷ [])

abbrev double_registers : List Token
double_registers = map codes ("af" ∷ "bc" ∷ "de" ∷ "hl" ∷ "sp" ∷ "pc" ∷ [])

unfoldable pub is_register : Token → Bool
unfolding text_eq
is_register tok = any (λ r. text_eq r tok) registers

unfoldable pub is_dregister : Token → Bool
unfolding text_eq
is_dregister tok = any (λ r. text_eq r tok) double_registers
