-- ===== src/Assembler/Formats.antt =====
-- src/assembler.cpp: the table `formats` of the operands that an instruction takes.
use gbas.Prelude.{Bool, true, false, List, [], ◌∷◌, Option, none, some}
use gbas.Ast.{InstructionType}

pub data OperandType : Type 0 where
  register dregister imm8 imm16 raddr iaddr flag invalid : OperandType

abbrev pub Format : Type 0
Format = OperandType × OperandType

abbrev pub no_operands : Format
no_operands = (OperandType.invalid, OperandType.invalid)

abbrev one : OperandType → Format
one t = (t, OperandType.invalid)

abbrev alu_formats : List Format
alu_formats = one OperandType.register ∷ (OperandType.register, OperandType.imm8) ∷ []

abbrev jump_formats : List Format
jump_formats = (OperandType.flag, OperandType.imm8) ∷ one OperandType.imm16 ∷ []

-- `formats.find`.
unfoldable pub formats : InstructionType → Option (List Format)
formats InstructionType.inc = some (one OperandType.register ∷ one OperandType.dregister ∷ [])
formats InstructionType.dec = some (one OperandType.register ∷ one OperandType.dregister ∷ [])
formats InstructionType.ld =
    some
      ((OperandType.register, OperandType.imm8) ∷ (OperandType.dregister, OperandType.imm16) ∷ [])
formats InstructionType.nop = some (no_operands ∷ [])
formats InstructionType.stop = some (no_operands ∷ [])
formats InstructionType.rlca = some (no_operands ∷ [])
formats InstructionType.rla = some (no_operands ∷ [])
formats InstructionType.daa = some (no_operands ∷ [])
formats InstructionType.scf = some (no_operands ∷ [])
formats InstructionType.rrca = some (no_operands ∷ [])
formats InstructionType.rra = some (no_operands ∷ [])
formats InstructionType.cpl = some (no_operands ∷ [])
formats InstructionType.ccf = some (no_operands ∷ [])
formats InstructionType.jr = some ((OperandType.flag, OperandType.imm8) ∷ one OperandType.imm8 ∷ [])
formats InstructionType.halt = some (no_operands ∷ [])
formats InstructionType.sub = some alu_formats
formats InstructionType.and = some alu_formats
formats InstructionType.xor = some alu_formats
formats InstructionType.or = some alu_formats
formats InstructionType.cp = some alu_formats
formats InstructionType.pop = some (one OperandType.dregister ∷ [])
formats InstructionType.push = some (one OperandType.dregister ∷ [])
formats InstructionType.di = some (no_operands ∷ [])
formats InstructionType.ei = some (no_operands ∷ [])
formats InstructionType.ret = some (no_operands ∷ (OperandType.flag, OperandType.imm8) ∷ [])
formats InstructionType.reti = some (no_operands ∷ [])
formats InstructionType.jp = some jump_formats
formats InstructionType.call = some jump_formats
formats _ = none

abbrev pub takes_none : Format → Bool
takes_none (OperandType.invalid, OperandType.invalid) = true
takes_none _ = false

abbrev pub takes_second : Format → Bool
takes_second (_, OperandType.invalid) = false
takes_second _ = true
