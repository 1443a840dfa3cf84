-- ===== src/Assembler/Throws.antt =====
-- src/assembler.cpp: the encoders throw nothing but an `AssemblerException`.
use gbas.Prelude.{Bool, true, false, ℕ, if_both, ◌==◌, ◌&&◌, if◌then◌else◌}
use gbas.Result.{Result, ok, Post, returns, raises, Post-bind}
use gbas.Ast.{InstructionType}
use gbas.Assembler.Encode.{
  encode_register, encode_dregister, instruction_none, instruction_ra, instruction_r, instruction_d,
  instruction_a, hl_opcode, alu, with_dregister,
}
use gbas.Assembler.Refused.{IsAssemblerError}
use gbas.Assembler.{
  register_code, register_instruction, accumulator_instruction, dregister_code,
  dregister_instruction, address_code,
}

abbrev pub Encodes : Result ℕ → Type 0
Encodes r = Post (λ _. Unit {0}) IsAssemblerError r

or_next :
    (test : Bool) (k : ℕ) (rest : Result ℕ) → Encodes rest → Encodes (if test then ok k else rest)
or_next true k rest h = returns tt
or_next false k rest h = h

encode_register-Encodes : (reg : ℕ) → Encodes (encode_register reg)
unfolding encode_register
encode_register-Encodes reg = or_next _ 0 _ (
    or_next _ 1 _ (
      or_next _ 2 _ (
        or_next _ 3 _ (or_next _ 4 _ (or_next _ 5 _ (or_next _ 6 _ (or_next _ 7 _ (raises tt))))))))

encode_dregister-Encodes : (r s : ℕ) → Encodes (encode_dregister r s)
unfolding encode_dregister
encode_dregister-Encodes r s =
    or_next _ 0 _ (or_next _ 1 _ (or_next _ 2 _ (or_next _ 3 _ (raises tt))))

alu-Encodes : (opcode reg : ℕ) → Encodes (alu opcode reg)
alu-Encodes opcode reg = Post-bind (encode_register-Encodes reg) (λ k _. returns tt)

instruction_r-Encodes : (t : InstructionType) (reg : ℕ) → Encodes (instruction_r t reg)
unfolding instruction_r
instruction_r-Encodes InstructionType.inc reg =
    Post-bind (encode_register-Encodes reg) (λ k _. returns tt)
instruction_r-Encodes InstructionType.dec reg =
    Post-bind (encode_register-Encodes reg) (λ k _. returns tt)
instruction_r-Encodes _ reg = raises tt

pub register_code-Encodes : (t : InstructionType) (reg : ℕ) → Encodes (register_code t reg)
unfolding register_code register_instruction accumulator_instruction instruction_ra
register_code-Encodes InstructionType.inc reg = instruction_r-Encodes InstructionType.inc reg
register_code-Encodes InstructionType.dec reg = instruction_r-Encodes InstructionType.dec reg
register_code-Encodes InstructionType.sub reg = alu-Encodes 0x12 reg
register_code-Encodes InstructionType.sbc reg = alu-Encodes 0x13 reg
register_code-Encodes InstructionType.and reg = alu-Encodes 0x14 reg
register_code-Encodes InstructionType.xor reg = alu-Encodes 0x15 reg
register_code-Encodes InstructionType.or reg = alu-Encodes 0x16 reg
register_code-Encodes InstructionType.cp reg = alu-Encodes 0x17 reg
register_code-Encodes _ reg = raises tt

with_dregister-Encodes : (p o r s : ℕ) → Encodes (with_dregister p o r s)
with_dregister-Encodes p o r s = Post-bind (encode_dregister-Encodes r s) (λ k _. returns tt)

pub dregister_code-Encodes : (t : InstructionType) (r s : ℕ) → Encodes (dregister_code t r s)
unfolding dregister_code dregister_instruction instruction_d
dregister_code-Encodes InstructionType.inc r s = with_dregister-Encodes 0x0 0x3 r s
dregister_code-Encodes InstructionType.dec r s = with_dregister-Encodes 0x0 0xb r s
dregister_code-Encodes InstructionType.pop r s = with_dregister-Encodes 0x3 0x1 r s
dregister_code-Encodes InstructionType.push r s = with_dregister-Encodes 0x3 0x5 r s
dregister_code-Encodes _ r s = raises tt

instruction_a-Encodes : (t : InstructionType) (r s : ℕ) → Encodes (instruction_a t r s)
unfolding instruction_a
instruction_a-Encodes t r s =
    if_both Encodes (r == b'h' && s == b'l') (λ _. code t) (λ _. raises tt)
  where
    code : (t : InstructionType) → Encodes (hl_opcode t)
    code InstructionType.inc = returns tt
    code InstructionType.dec = returns tt
    code InstructionType.jp = returns tt
    code _ = raises tt

pub address_code-Encodes : (t : InstructionType) (r s : ℕ) → Encodes (address_code t r s)
unfolding address_code
address_code-Encodes InstructionType.inc r s = instruction_a-Encodes InstructionType.inc r s
address_code-Encodes InstructionType.dec r s = instruction_a-Encodes InstructionType.dec r s
address_code-Encodes InstructionType.jp r s = instruction_a-Encodes InstructionType.jp r s
address_code-Encodes _ r s = raises tt

pub instruction_none-Encodes : (t : InstructionType) → Encodes (instruction_none t)
unfolding instruction_none
instruction_none-Encodes InstructionType.nop = returns tt
instruction_none-Encodes InstructionType.stop = returns tt
instruction_none-Encodes InstructionType.rlca = returns tt
instruction_none-Encodes InstructionType.rla = returns tt
instruction_none-Encodes InstructionType.daa = returns tt
instruction_none-Encodes InstructionType.scf = returns tt
instruction_none-Encodes InstructionType.rrca = returns tt
instruction_none-Encodes InstructionType.rra = returns tt
instruction_none-Encodes InstructionType.cpl = returns tt
instruction_none-Encodes InstructionType.ccf = returns tt
instruction_none-Encodes InstructionType.halt = returns tt
instruction_none-Encodes InstructionType.di = returns tt
instruction_none-Encodes InstructionType.ret = returns tt
instruction_none-Encodes InstructionType.reti = returns tt
instruction_none-Encodes InstructionType.ei = returns tt
instruction_none-Encodes _ = raises tt
