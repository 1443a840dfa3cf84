-- ===== src/Compile/Machine.antt =====
-- The machine code of a program, line by line, after the tables of the processor: the instructions
-- without operands, those of the accumulator with a register, and those on pairs of registers.
use gbas.Prelude.{ℕ, ◌+◌, ◌*◌, ◌≢◌, ◌==◌, if◌then◌else◌, List, [], ◌∷◌, Text, codes}
use gbas.Tokenizer.{TokenList}
use gbas.Assembler.Codes.{IsRegister, IsPair}

-- The lines of one word, and their codes; that of `stop` is the first byte of the two that it has.
pub data IsPlainOp : Text → ℕ → Type 0 where
  nop : IsPlainOp (codes "nop") 0x00
  rlca : IsPlainOp (codes "rlca") 0x07
  rrca : IsPlainOp (codes "rrca") 0x0f
  stop : IsPlainOp (codes "stop") 0x10
  rla : IsPlainOp (codes "rla") 0x17
  rra : IsPlainOp (codes "rra") 0x1f
  daa : IsPlainOp (codes "daa") 0x27
  cpl : IsPlainOp (codes "cpl") 0x2f
  scf : IsPlainOp (codes "scf") 0x37
  ccf : IsPlainOp (codes "ccf") 0x3f
  halt : IsPlainOp (codes "halt") 0x76
  ret : IsPlainOp (codes "ret") 0xc9
  di : IsPlainOp (codes "di") 0xf3
  ei : IsPlainOp (codes "ei") 0xfb

-- The operations on the accumulator and a register, and their numbers.
pub data IsAluOp : Text → ℕ → Type 0 where
  sub : IsAluOp (codes "sub") 2
  and : IsAluOp (codes "and") 4
  xor : IsAluOp (codes "xor") 5
  or : IsAluOp (codes "or") 6
  cp : IsAluOp (codes "cp") 7

-- The operations on a pair of registers, and their codes for the first pair: the processor adds one
-- to BC, DE and HL or takes one off, and its stack takes AF too.
pub data IsWideOp : Text → ℕ → Type 0 where
  inc : IsWideOp (codes "inc") 0x03
  dec : IsWideOp (codes "dec") 0x0b

pub data IsStackOp : Text → ℕ → Type 0 where
  pop : IsStackOp (codes "pop") 0xc1
  push : IsStackOp (codes "push") 0xc5

-- The pairs that `inc` and `dec` take: in their codes the number 3 is the stack pointer, which a
-- program cannot name.
pub data IsWidePair : ℕ → ℕ → ℕ → Type 0 where
  bc : IsWidePair b'b' b'c' 0
  de : IsWidePair b'd' b'e' 1
  hl : IsWidePair b'h' b'l' 2

-- The code of a line. A program cannot name the byte at HL as a register.
pub data Encoded : TokenList → ℕ → Type 0 where
  plain : {name : Text} {b : ℕ} → IsPlainOp name b → Encoded (name ∷ []) b
  on_register :
      {name : Text} {op reg k : ℕ}
      → IsAluOp name op
      → IsRegister reg k
      → reg ≢ b'm'
      → Encoded (name ∷ (reg ∷ []) ∷ []) (128 + 8 * op + k)
  on_pair :
      {name : Text} {base r s k : ℕ}
      → IsWideOp name base
      → IsWidePair r s k
      → Encoded (name ∷ (r ∷ s ∷ []) ∷ []) (base + 16 * k)
  on_stack :
      {name : Text} {base r s k : ℕ}
      → IsStackOp name base
      → IsPair r s k
      → Encoded (name ∷ (r ∷ s ∷ []) ∷ []) (base + 16 * k)

-- The names of the sections of bytes of a new file, and their indices.
pub data IsByteSection : Text → ℕ → Type 0 where
  data_ : IsByteSection (codes "data") 2
  rodata : IsByteSection (codes "rodata") 3
  bss : IsByteSection (codes "bss") 4
  text : IsByteSection (codes "text") 5
  init : IsByteSection (codes "init") 6

-- A byte of machine code and the index of its section.
pub record Placed : Type 0 where
  pub place : ℕ
  pub byte : ℕ

-- `Emits cur tss out`: with the section at `cur` selected, the lines `tss` put the bytes `out`. The
-- section of index 0, which is selected at first, is none of bytes: instructions stand behind a
-- directive.
pub data Emits : ℕ → List TokenList → List Placed → Type 0 where
  done : {cur : ℕ} → Emits cur [] []
  skip :
      {cur : ℕ} {tss : List TokenList} {out : List Placed}
      → Emits cur tss out
      → Emits cur ([] ∷ tss) out
  switch :
      {cur i : ℕ} {name : Text} {tss : List TokenList} {out : List Placed}
      → IsByteSection name i
      → Emits i tss out
      → Emits cur ((codes ".section" ∷ name ∷ []) ∷ tss) out
  emit :
      {i b : ℕ} {name : Text} {ts : TokenList} {tss : List TokenList} {out : List Placed}
      → IsByteSection name i
      → Encoded ts b
      → Emits i tss out
      → Emits i (ts ∷ tss) (record { place = i; byte = b } ∷ out)

-- The bytes of one section.
abbrev pub bytes_at : ℕ → List Placed → List ℕ
bytes_at i [] = []
bytes_at i (p ∷ ps) = let rest = bytes_at i ps in if p.place == i then p.byte ∷ rest else rest
