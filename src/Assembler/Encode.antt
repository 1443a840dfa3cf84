-- ===== src/Assembler/Encode.antt =====
-- src/assembler.cpp, include/assembler.hpp: the encoders of instructions. A `char` and a `uint8_t`
-- are bytes.
use gbas.Prelude.{ℕ, ◌*◌, bit_or, ◌&&◌, ◌==◌, if◌then◌else◌, Text, codes}
use gbas.Result.{Result, ok, err, ◌>>=◌, assembler_exception}
use gbas.Ast.{InstructionType}
use gbas.Elf.Sections.{u8}

abbrev pub assembler_error {ℓ} : {A : Type ℓ} → Text → Result A
assembler_error msg = err (assembler_exception msg)

unfoldable pub encode_register : ℕ → Result ℕ
encode_register reg =
    if reg == b'b'
    then ok 0
    else if reg == b'c'
    then ok 1
    else if reg == b'd'
    then ok 2
    else if reg == b'e'
    then ok 3
    else if reg == b'h'
    then ok 4
    else if reg == b'l'
    then ok 5
    else if reg == b'm'
    then ok 6
    else if reg == b'a'
    then ok 7
    else assembler_error (codes "Invalid register")

unfoldable pub encode_dregister : ℕ → ℕ → Result ℕ
encode_dregister reg0 reg1 =
    if reg0 == b'b' && reg1 == b'c'
    then ok 0
    else if reg0 == b'd' && reg1 == b'e'
    then ok 1
    else if reg0 == b'h' && reg1 == b'l'
    then ok 2
    else if reg0 == b'a' && reg1 == b'f'
    then ok 3
    else assembler_error (codes "Invalid register")

-- `InstructionNone::encode`.
unfoldable pub instruction_none : InstructionType → Result ℕ
instruction_none InstructionType.nop = ok 0x00
instruction_none InstructionType.stop = ok 0x10
instruction_none InstructionType.rlca = ok 0x07
instruction_none InstructionType.rla = ok 0x17
instruction_none InstructionType.daa = ok 0x27
instruction_none InstructionType.scf = ok 0x37
instruction_none InstructionType.rrca = ok 0x0f
instruction_none InstructionType.rra = ok 0x1f
instruction_none InstructionType.cpl = ok 0x2f
instruction_none InstructionType.ccf = ok 0x3f
instruction_none InstructionType.halt = ok 0x76
instruction_none InstructionType.di = ok 0xf3
instruction_none InstructionType.ret = ok 0xc9
instruction_none InstructionType.reti = ok 0xd9
instruction_none InstructionType.ei = ok 0xfb
instruction_none _ = assembler_error (codes "Unrecognized instruction")

-- `(opcode << 3) | encodeRegister(reg)`.
abbrev pub alu : ℕ → ℕ → Result ℕ
alu opcode reg = encode_register reg >>= λ k. ok (u8 (bit_or (opcode * 8) k))

-- `InstructionRA::encode`.
unfoldable pub instruction_ra : InstructionType → ℕ → Result ℕ
unfolding encode_register
instruction_ra InstructionType.sub reg = alu 0x12 reg
instruction_ra InstructionType.sbc reg = alu 0x13 reg
instruction_ra InstructionType.and reg = alu 0x14 reg
instruction_ra InstructionType.xor reg = alu 0x15 reg
instruction_ra InstructionType.or reg = alu 0x16 reg
instruction_ra InstructionType.cp reg = alu 0x17 reg
instruction_ra _ reg = assembler_error (codes "Invalid InstructionRA type")

-- `InstructionR::encode`, whose prefix is 0.
unfoldable pub instruction_r : InstructionType → ℕ → Result ℕ
unfolding encode_register
instruction_r InstructionType.inc reg = encode_register reg >>= λ k. ok (u8 (bit_or k 0x4))
instruction_r InstructionType.dec reg = encode_register reg >>= λ k. ok (u8 (bit_or k 0x5))
instruction_r _ reg = assembler_error (codes "Invalid InstructionR")

-- `(prefix << 6) | (encodeDRegister(reg0, reg1) << 4) | opcode`.
abbrev pub with_dregister : ℕ → ℕ → ℕ → ℕ → Result ℕ
with_dregister prefix opcode reg0 reg1 =
    encode_dregister reg0 reg1 >>= λ k. ok (u8 (bit_or (bit_or (prefix * 64) (k * 16)) opcode))

-- `InstructionD::encode`.
unfoldable pub instruction_d : InstructionType → ℕ → ℕ → Result ℕ
unfolding encode_dregister
instruction_d InstructionType.inc reg0 reg1 = with_dregister 0x0 0x3 reg0 reg1
instruction_d InstructionType.dec reg0 reg1 = with_dregister 0x0 0xb reg0 reg1
instruction_d InstructionType.pop reg0 reg1 = with_dregister 0x3 0x1 reg0 reg1
instruction_d InstructionType.push reg0 reg1 = with_dregister 0x3 0x5 reg0 reg1
instruction_d _ reg0 reg1 = assembler_error (codes "Invalid InstructionD")

abbrev pub hl_opcode : InstructionType → Result ℕ
hl_opcode InstructionType.inc = ok 0x34
hl_opcode InstructionType.dec = ok 0x35
hl_opcode InstructionType.jp = ok 0xe9
hl_opcode _ = assembler_error (codes "Invalid InstructionA")

-- `InstructionA::encode`.
unfoldable pub instruction_a : InstructionType → ℕ → ℕ → Result ℕ
instruction_a t reg0 reg1 =
    if reg0 == b'h' && reg1 == b'l'
    then hl_opcode t
    else assembler_error (codes "Invalid register for InstructionA")

-- `InstructionI8::encode` and `InstructionI16::encode`.
unfoldable pub instruction_i8 : InstructionType → Result ℕ
instruction_i8 InstructionType.jr = ok 0x18
instruction_i8 InstructionType.sub = ok 0xd6
instruction_i8 InstructionType.and = ok 0xe6
instruction_i8 InstructionType.or = ok 0xf6
instruction_i8 InstructionType.xor = ok 0xee
instruction_i8 InstructionType.cp = ok 0xff
instruction_i8 _ = assembler_error (codes "Invalid InstructionI8")

unfoldable pub instruction_i16 : InstructionType → Result ℕ
instruction_i16 InstructionType.jp = ok 0xc3
instruction_i16 InstructionType.call = ok 0xcd
instruction_i16 _ = assembler_error (codes "Invalid InstructionI16")
