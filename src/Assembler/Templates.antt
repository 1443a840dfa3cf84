-- ===== src/Assembler/Templates.antt =====
-- src/assembler.cpp: the templates of encoders, which the program does not instantiate. Their
-- parameters are arguments, and `none` stands for a `static_assert` that fails.
use gbas.Prelude.{
  ℕ, ◌+◌, ◌*◌, ◌≡◌, refl, Bool, ◌&&◌, bit_or, bit_and, ◌==◌, if◌then◌else◌, Option, none, some,
}
use gbas.Result.{Result, ok, ◌>>=◌}
use gbas.Elf.Sections.{u8}
use gbas.Assembler.Encode.{encode_register, encode_dregister}
use gbas.Assembler.Codes.{IsRegister, each_register}

-- `(prefix & 0xfc) == 0x00`.
abbrev two_bits : ℕ → Bool
two_bits prefix = bit_and prefix 0xfc == 0

unfoldable instruction_ri8 : ℕ → ℕ → Option (Result ℕ)
unfolding encode_register
instruction_ri8 prefix reg =
    if two_bits prefix
    then some (encode_register reg >>= λ k. ok (bit_or (bit_or (prefix * 64) (k * 8)) 0x6))
    else none

unfoldable pub instruction_di16 : ℕ → ℕ → ℕ → ℕ → ℕ → Option (Result ℕ)
unfolding encode_dregister
instruction_di16 prefix reg0 reg1 opcode imm =
    if two_bits prefix && bit_and opcode 0xf0 == 0
    then some (
        encode_dregister reg0 reg1 >>= λ k.
        ok (bit_or (u8 (bit_or (bit_or (prefix * 64) (k * 16)) opcode) * 65536) imm))
    else none

unfoldable instruction_rr : ℕ → ℕ → ℕ → Option (Result ℕ)
unfolding encode_register
instruction_rr prefix rd rs =
    if two_bits prefix
    then some (
        encode_register rd >>= λ k.
        encode_register rs >>= λ l. ok (u8 (bit_or (bit_or (prefix * 64) (k * 8)) l)))
    else none

-- The flag and the immediate are not used.
unfoldable pub instruction_fi8 : ℕ → ℕ → ℕ → ℕ → Option ℕ
instruction_fi8 prefix flag opcode imm8 =
    if two_bits prefix && bit_and opcode 0xc0 == 0
    then some (u8 (bit_or (prefix * 64) opcode))
    else none

abbrev Loads : ℕ → ℕ → ℕ → ℕ → Type 0
Loads rd k rs l = instruction_rr 1 rd rs ≡ some (ok (64 + 8 * k + l))

-- `ld` of a register from a register, and from a byte, have the codes `01dddsss` and `00ddd110`
-- of the processor, made by the templates with the prefixes 1 and 0 from registers of the table.
load_code :
    (rd k rs l : ℕ)
    → IsRegister rd k
    → IsRegister rs l
    → (instruction_rr 1 rd rs ≡ some (ok (64 + 8 * k + l)))
      × (instruction_ri8 0 rd ≡ some (ok (8 * k + 6)))
unfolding instruction_rr instruction_ri8 encode_register
load_code rd k rs l h j = (
  each_register (λ rd k. Loads rd k rs l)
      (each_register (λ s n. Loads b'b' 0 s n) refl refl refl refl refl refl refl refl j)
      (each_register (λ s n. Loads b'c' 1 s n) refl refl refl refl refl refl refl refl j)
      (each_register (λ s n. Loads b'd' 2 s n) refl refl refl refl refl refl refl refl j)
      (each_register (λ s n. Loads b'e' 3 s n) refl refl refl refl refl refl refl refl j)
      (each_register (λ s n. Loads b'h' 4 s n) refl refl refl refl refl refl refl refl j)
      (each_register (λ s n. Loads b'l' 5 s n) refl refl refl refl refl refl refl refl j)
      (each_register (λ s n. Loads b'm' 6 s n) refl refl refl refl refl refl refl refl j)
      (each_register (λ s n. Loads b'a' 7 s n) refl refl refl refl refl refl refl refl j) h,
  each_register (λ rd k. instruction_ri8 0 rd ≡ some (ok (8 * k + 6))) refl refl refl refl refl refl
      refl refl h,
)
