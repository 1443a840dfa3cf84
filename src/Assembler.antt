-- ===== src/Assembler.antt =====
-- src/assembler.cpp: `Assembler::assemble` and `Assembler::assembleInstruction`, which fill an object
-- file from a tree. An exception leaves the file to nobody, so an error carries no file.
pub mod Encode
pub mod Formats
pub mod Appends
pub mod Codes
pub mod Refused
pub mod Throws
pub mod Safe
pub mod Image
pub mod Refines
pub mod Templates
pub mod Adds
pub mod Header
use gbas.Prelude.{
  ℕ, ◌/◌, ◌%◌, Bool, true, false, List, [], ◌∷◌, Option, none, some, any, if◌then◌else◌, Text,
  codes,
}
use gbas.Result.{Result, ok, err, ◌>>=◌, out_of_range}
use gbas.Ast.{
  InstructionType, DirectiveType, NodeType, Node, Nodes, instruction0, instruction1, instruction2,
  register, dregister, label, directive, number, nil, cons,
}
use gbas.Elf.{Elf, set_section, add_symbol, add_progbits}
use gbas.Elf.Symbols.{default_type, default_binding, global, default_visibility}
use gbas.Assembler.Encode.{
  assembler_error, instruction_none, instruction_ra, instruction_r, instruction_d, instruction_a,
  instruction_i8, instruction_i16,
}
use gbas.Assembler.Formats.{OperandType, Format, formats, takes_none, takes_second}

-- `elf.add_progbits` of one encoded byte.
abbrev pub emit_byte : Result ℕ → Elf → Result Elf
emit_byte encoded e = encoded >>= λ b. add_progbits (b ∷ []) e

-- `Assembler::instructionR`, `Assembler::instructionRA` and `Assembler::instructionD`.
unfoldable pub register_instruction : InstructionType → ℕ → Result ℕ
unfolding instruction_r
register_instruction InstructionType.inc reg = instruction_r InstructionType.inc reg
register_instruction InstructionType.dec reg = instruction_r InstructionType.dec reg
register_instruction _ reg = assembler_error (codes "Unrecognized Instruction0 type")

unfoldable pub accumulator_instruction : InstructionType → ℕ → Result ℕ
unfolding instruction_ra
accumulator_instruction InstructionType.sub reg = instruction_ra InstructionType.sub reg
accumulator_instruction InstructionType.sbc reg = instruction_ra InstructionType.sbc reg
accumulator_instruction InstructionType.and reg = instruction_ra InstructionType.and reg
accumulator_instruction InstructionType.xor reg = instruction_ra InstructionType.xor reg
accumulator_instruction InstructionType.or reg = instruction_ra InstructionType.or reg
accumulator_instruction InstructionType.cp reg = instruction_ra InstructionType.cp reg
accumulator_instruction _ reg = assembler_error (codes "Invalid InstructionRA type")

unfoldable pub dregister_instruction : InstructionType → ℕ → ℕ → Result ℕ
unfolding instruction_d
dregister_instruction InstructionType.inc r s = instruction_d InstructionType.inc r s
dregister_instruction InstructionType.dec r s = instruction_d InstructionType.dec r s
dregister_instruction InstructionType.pop r s = instruction_d InstructionType.pop r s
dregister_instruction InstructionType.push r s = instruction_d InstructionType.push r s
dregister_instruction _ r s = assembler_error (codes "Invalid Instruction1")

-- What the inner switch adds for a register in a format that takes one.
unfoldable pub register_code : InstructionType → ℕ → Result ℕ
unfolding register_instruction accumulator_instruction
register_code InstructionType.inc reg = register_instruction InstructionType.inc reg
register_code InstructionType.dec reg = register_instruction InstructionType.dec reg
register_code InstructionType.sub reg = accumulator_instruction InstructionType.sub reg
register_code InstructionType.sbc reg = accumulator_instruction InstructionType.sbc reg
register_code InstructionType.and reg = accumulator_instruction InstructionType.and reg
register_code InstructionType.xor reg = accumulator_instruction InstructionType.xor reg
register_code InstructionType.or reg = accumulator_instruction InstructionType.or reg
register_code InstructionType.cp reg = accumulator_instruction InstructionType.cp reg
register_code _ reg = assembler_error (codes "Invalid Instruction1")

-- The same for a pair of registers, and for a pair that holds an address.
unfoldable pub dregister_code : InstructionType → ℕ → ℕ → Result ℕ
unfolding dregister_instruction
dregister_code InstructionType.inc r s = dregister_instruction InstructionType.inc r s
dregister_code InstructionType.dec r s = dregister_instruction InstructionType.dec r s
dregister_code InstructionType.pop r s = dregister_instruction InstructionType.pop r s
dregister_code InstructionType.push r s = dregister_instruction InstructionType.push r s
dregister_code _ r s = assembler_error (codes "Invalid Instruction1")

unfoldable pub address_code : InstructionType → ℕ → ℕ → Result ℕ
address_code InstructionType.inc r s = instruction_a InstructionType.inc r s
address_code InstructionType.dec r s = instruction_a InstructionType.dec r s
address_code InstructionType.jp r s = instruction_a InstructionType.jp r s
address_code _ r s = assembler_error (codes "Invalid Instruction1")

-- The bytes that the cases of a number make, which the code drops.
unfoldable pub immediate8 : InstructionType → ℕ → Result (List ℕ)
immediate8 InstructionType.jr v = instruction_i8 InstructionType.jr >>= λ b. ok (b ∷ v ∷ [])
immediate8 InstructionType.sub v = instruction_i8 InstructionType.sub >>= λ b. ok (b ∷ v ∷ [])
immediate8 InstructionType.and v = instruction_i8 InstructionType.and >>= λ b. ok (b ∷ v ∷ [])
immediate8 InstructionType.or v = instruction_i8 InstructionType.or >>= λ b. ok (b ∷ v ∷ [])
immediate8 InstructionType.xor v = instruction_i8 InstructionType.xor >>= λ b. ok (b ∷ v ∷ [])
immediate8 InstructionType.cp v = instruction_i8 InstructionType.cp >>= λ b. ok (b ∷ v ∷ [])
immediate8 _ v = assembler_error (codes "Invalid Instruction1")

unfoldable pub immediate16 : InstructionType → ℕ → Result (List ℕ)
immediate16 InstructionType.jp v =
    instruction_i16 InstructionType.jp >>= λ b. ok (b ∷ v / 256 ∷ v % 256 ∷ [])
immediate16 InstructionType.call v =
    instruction_i16 InstructionType.call >>= λ b. ok (b ∷ v / 256 ∷ v % 256 ∷ [])
immediate16 _ v = assembler_error (codes "Invalid Instruction1")

-- A turn of the search either leaves the function, with `inl`, or goes on.
pub data Turn : Type 0 where
  leave : Result Elf → Turn
  go_on : Turn

abbrev drop_bytes : Result (List ℕ) → Turn
drop_bytes (ok _) = go_on
drop_bytes (err x) = leave (err x)

-- The body of the loop over the formats, by the operand and the first type of the format.
unfoldable pub try_format : InstructionType → Node → OperandType → Elf → Turn
try_format t (register r) OperandType.register e = leave (emit_byte (register_code t r) e)
try_format t (dregister r s) OperandType.dregister e = leave (emit_byte (dregister_code t r s) e)
try_format t (dregister r s) OperandType.raddr e = leave (emit_byte (address_code t r s) e)
try_format t (number v) OperandType.imm8 e = drop_bytes (immediate8 t v)
try_format t (number v) OperandType.imm16 e = drop_bytes (immediate16 t v)
try_format t operand first e = go_on

unfoldable pub search_formats : InstructionType → Node → List Format → Elf → Result Elf
unfolding try_format
search_formats t operand [] e = assembler_error (codes "Invalid instruction1 usage")
search_formats t operand (f ∷ fs) e =
    let rest = search_formats t operand fs e in
    if takes_second f
    then rest
    else elim (try_format t operand f.0 e) [ leave r ↦ r | go_on ↦ rest ]

-- `assembleInstruction` for each number of operands.
unfoldable pub assemble0 : InstructionType → Option (List Format) → Elf → Result Elf
assemble0 t none e = ok e
assemble0 t (some fs) e =
    if any takes_none fs
    then emit_byte (instruction_none t) e
    else assembler_error (codes "Invalid instruction0 usage")

unfoldable pub assemble1 : InstructionType → Node → Option (List Format) → Elf → Result Elf
unfolding search_formats
assemble1 t operand none e = assembler_error (codes "Invalid instruction format")
assemble1 t operand (some fs) e = search_formats t operand fs e

-- A round of the loop of `assemble`. A label is a global symbol without a type, of value and size 0.
unfoldable pub assemble_node : Node → Elf → Result Elf
unfolding assemble0 assemble1 formats set_section add_symbol
assemble_node (directive DirectiveType.section []) e = err out_of_range
assemble_node (directive DirectiveType.section (name ∷ _)) e = set_section name e
assemble_node (directive DirectiveType.invalid _) e =
    assembler_error (codes "Invalid directive type")
assemble_node (instruction0 t) e = assemble0 t (formats t) e
assemble_node (instruction1 t operand) e = assemble1 t operand (formats t) e
assemble_node (instruction2 _ _ _) e = ok e
assemble_node (label name) e =
    add_symbol name 0 0 default_type.type (global default_binding).binding
      default_visibility.visibility false e
assemble_node _ e = assembler_error (codes "Invalid node")

unfoldable pub assemble : Nodes → Elf → Result Elf
unfolding assemble_node
assemble nil e = ok e
assemble (cons n ns) e = assemble_node n e >>= assemble ns
