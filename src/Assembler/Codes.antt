-- ===== src/Assembler/Codes.antt =====
-- src/assembler.cpp: the bytes of the instructions on registers, by formulas in their numbers.
use gbas.Prelude.{
  ℕ, ◌+◌, ◌*◌, ◌/◌, ◌%◌, ◌≡◌, ◌↔◌, refl, sym, Bool-cases, inl, inr, if◌then◌else◌, [], ◌∷◌, ◌==◌,
  ==_iff,
}
use gbas.Result.{Result, ok, ok-injective}
use gbas.Ast.{InstructionType, Node, instruction1, register, dregister}
use gbas.Elf.{Elf, add_progbits}
use gbas.Assembler.Encode.{
  encode_register, encode_dregister, instruction_ra, instruction_r, instruction_d,
}
use gbas.Assembler.Formats.{formats}
use gbas.Assembler.{
  register_code, register_instruction, accumulator_instruction, dregister_code,
  dregister_instruction, try_format, search_formats, assemble1, assemble_node,
}

-- The numbers of the registers, where `m` stands for the byte at HL, and of the pairs.
pub data IsRegister : ℕ → ℕ → Type 0 where
  reg_b : IsRegister b'b' 0
  reg_c : IsRegister b'c' 1
  reg_d : IsRegister b'd' 2
  reg_e : IsRegister b'e' 3
  reg_h : IsRegister b'h' 4
  reg_l : IsRegister b'l' 5
  reg_m : IsRegister b'm' 6
  reg_a : IsRegister b'a' 7

pub data IsPair : ℕ → ℕ → ℕ → Type 0 where
  bc : IsPair b'b' b'c' 0
  de : IsPair b'd' b'e' 1
  hl : IsPair b'h' b'l' 2
  af : IsPair b'a' b'f' 3

-- The numbers of the operations on the accumulator that have a format with a register.
pub data IsAlu : InstructionType → ℕ → Type 0 where
  sub : IsAlu InstructionType.sub 2
  and : IsAlu InstructionType.and 4
  xor : IsAlu InstructionType.xor 5
  or : IsAlu InstructionType.or 6
  cp : IsAlu InstructionType.cp 7

pub each_register {ℓ} :
    (P : ℕ → ℕ → Type ℓ) {reg k : ℕ}
    → P b'b' 0
    → P b'c' 1
    → P b'd' 2
    → P b'e' 3
    → P b'h' 4
    → P b'l' 5
    → P b'm' 6
    → P b'a' 7
    → IsRegister reg k
    → P reg k
each_register P p0 p1 p2 p3 p4 p5 p6 p7 reg_b = p0
each_register P p0 p1 p2 p3 p4 p5 p6 p7 reg_c = p1
each_register P p0 p1 p2 p3 p4 p5 p6 p7 reg_d = p2
each_register P p0 p1 p2 p3 p4 p5 p6 p7 reg_e = p3
each_register P p0 p1 p2 p3 p4 p5 p6 p7 reg_h = p4
each_register P p0 p1 p2 p3 p4 p5 p6 p7 reg_l = p5
each_register P p0 p1 p2 p3 p4 p5 p6 p7 reg_m = p6
each_register P p0 p1 p2 p3 p4 p5 p6 p7 reg_a = p7

chain :
    (reg c n k : ℕ) (rest : Result ℕ)
    → IsRegister c n
    → (rest ≡ ok k → IsRegister reg k)
    → (if reg == c then ok n else rest) ≡ ok k
    → IsRegister reg k
chain reg c n k rest r f q = elim (Bool-cases (reg == c)) [
  | inl p ↦
      let here = (==_iff reg c).0 p in
      let there = ok-injective (rw p at q) in rw (here, sym there) r
  | inr p ↦ f (rw p at q)
]

decoded : (reg k : ℕ) → encode_register reg ≡ ok k → IsRegister reg k
unfolding encode_register
decoded reg k = chain reg b'b' 0 k _ reg_b (
    chain reg b'c' 1 k _ reg_c (
      chain reg b'd' 2 k _ reg_d (
        chain reg b'e' 3 k _ reg_e (
          chain reg b'h' 4 k _ reg_h (
            chain reg b'l' 5 k _ reg_l
              (chain reg b'm' 6 k _ reg_m (chain reg b'a' 7 k _ reg_a (λ q. absurd (cc q)))))))))

-- The codes of the registers are those of the table, and every other character is refused.
encode_register_lem : (reg k : ℕ) → (encode_register reg ≡ ok k) ↔ IsRegister reg k
unfolding encode_register
encode_register_lem reg k = (
  decoded reg k,
  each_register (λ r n. encode_register r ≡ ok n) refl refl refl refl refl refl refl refl,
)

abbrev Adds : InstructionType → Node → ℕ → Elf → Type 0
Adds t operand code f = assemble_node (instruction1 t operand) f ≡ add_progbits (code ∷ []) f

-- The operations `sub`, `and`, `xor`, `or` and `cp` with a register of the table add one byte,
-- `10ooorrr` in binary for the operation's number `ooo` and the register's number `rrr`.
pub alu_code :
    (t : InstructionType) (op reg k : ℕ) (f : Elf)
    → IsAlu t op
    → IsRegister reg k
    → Adds t (register reg) (128 + 8 * op + k) f
unfolding assemble_node assemble1 formats search_formats try_format register_code
    register_instruction accumulator_instruction instruction_ra encode_register
alu_code t op reg k f sub =
    each_register (λ r n. Adds t (register r) (128 + 8 * op + n) f) refl refl refl refl refl refl
      refl refl
alu_code t op reg k f and =
    each_register (λ r n. Adds t (register r) (128 + 8 * op + n) f) refl refl refl refl refl refl
      refl refl
alu_code t op reg k f xor =
    each_register (λ r n. Adds t (register r) (128 + 8 * op + n) f) refl refl refl refl refl refl
      refl refl
alu_code t op reg k f or =
    each_register (λ r n. Adds t (register r) (128 + 8 * op + n) f) refl refl refl refl refl refl
      refl refl
alu_code t op reg k f cp =
    each_register (λ r n. Adds t (register r) (128 + 8 * op + n) f) refl refl refl refl refl refl
      refl refl

-- `inc` and `dec` of a register of the table with the number `k` add one byte, `4 + k % 4` and
-- `5 + 2 * (k / 2 % 2)`: the number is not shifted, as the processor's `00rrr100` and `00rrr101`
-- want, but merged with the operation's bits.
pub inc_dec_code :
    (reg k : ℕ) (f : Elf)
    → IsRegister reg k
    → Adds InstructionType.inc (register reg) (4 + k % 4) f
      × Adds InstructionType.dec (register reg) (5 + 2 * (k / 2 % 2)) f
unfolding assemble_node assemble1 formats search_formats try_format register_code
    register_instruction accumulator_instruction instruction_r encode_register
inc_dec_code reg k f =
    each_register
      (λ r n.
        Adds InstructionType.inc (register r) (4 + n % 4) f
        × Adds InstructionType.dec (register r) (5 + 2 * (n / 2 % 2)) f)
      (refl, refl) (refl, refl) (refl, refl) (refl, refl) (refl, refl) (refl, refl) (refl, refl)
      (refl, refl)

-- The operations on a pair of registers. The processor has the codes of `inc` and `dec` with the
-- number 3 for the stack pointer, where the assembler has the pair of the accumulator and the flags.
pub data IsPairOp : InstructionType → ℕ → Type 0 where
  inc : IsPairOp InstructionType.inc 0x03
  dec : IsPairOp InstructionType.dec 0x0b
  pop : IsPairOp InstructionType.pop 0xc1
  push : IsPairOp InstructionType.push 0xc5

-- `inc`, `dec`, `pop` and `push` of a pair of registers of the table add one byte, with the
-- pair's number in the bits 4 and 5 of the operation's byte.
pub pair_code :
    (t : InstructionType) (base r s k : ℕ) (f : Elf)
    → IsPairOp t base
    → IsPair r s k
    → Adds t (dregister r s) (base + 16 * k) f
unfolding assemble_node assemble1 formats search_formats try_format dregister_code
    dregister_instruction instruction_d encode_dregister
pair_code t base r s k f inc bc = refl
pair_code t base r s k f inc de = refl
pair_code t base r s k f inc hl = refl
pair_code t base r s k f inc af = refl
pair_code t base r s k f dec bc = refl
pair_code t base r s k f dec de = refl
pair_code t base r s k f dec hl = refl
pair_code t base r s k f dec af = refl
pair_code t base r s k f pop bc = refl
pair_code t base r s k f pop de = refl
pair_code t base r s k f pop hl = refl
pair_code t base r s k f pop af = refl
pair_code t base r s k f push bc = refl
pair_code t base r s k f push de = refl
pair_code t base r s k f push hl = refl
pair_code t base r s k f push af = refl
