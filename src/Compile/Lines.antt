-- ===== src/Compile/Lines.antt =====
-- The lines of machine code are lines of the grammar, and their instructions make their codes.
use gbas.Prelude.{ℕ, ◌+◌, ◌*◌, ◌≡◌, ◌≢◌, refl, true, ◌||◌, ◌==◌, List, [], ◌∷◌, some, Text}
use gbas.Ast.{InstructionType, Node, instruction0, instruction1, register, dregister}
use gbas.Tokenizer.{TokenList}
use gbas.Parser.Classes.{InstructionProps, find_instruction, is_register, is_dregister}
use gbas.Parser.Manual.{single, pair, Line, alone, with_one}
use gbas.Elf.{Elf, add_progbits}
use gbas.Assembler.{
  assemble_node, assemble0, register_code, register_instruction, accumulator_instruction,
  dregister_code, dregister_instruction,
}
use gbas.Assembler.Encode.{
  instruction_none, instruction_ra, instruction_d, encode_register, encode_dregister,
}
use gbas.Assembler.Formats.{formats}
use gbas.Assembler.Image.{code, select}
use gbas.Assembler.Codes.{
  IsRegister, IsPair, bc, de, hl, af, IsAlu, IsPairOp, each_register, alu_code, pair_code,
}
use gbas.Compile.Machine.{
  IsPlainOp, IsAluOp, IsWideOp, IsStackOp, IsWidePair, Encoded, plain, on_register, on_pair,
  on_stack,
}

-- A node that makes one byte, whatever the file.
abbrev pub Makes : Node → ℕ → Type 0
Makes n b =
    (code n ≡ b ∷ [])
    × ((names : List Text) (cur : ℕ) → select names cur n ≡ cur)
    × ((f : Elf) → assemble_node n f ≡ add_progbits (b ∷ []) f)

abbrev pub Reading : TokenList → ℕ → Type 0
Reading ts b = (n : Node) × Line ts n × Makes n b

word :
    {name : Text} {b : ℕ} {p : InstructionProps}
    → find_instruction name ≡ some p
    → (0 == p.args1 || 0 == p.args2) ≡ true
    → code (instruction0 p.type) ≡ b ∷ []
    → ((f : Elf) → assemble_node (instruction0 p.type) f ≡ add_progbits (b ∷ []) f)
    → Reading (name ∷ []) b
word {p = p} found count made runs =
    (instruction0 p.type, alone found count, (made, (λ names cur. refl), runs))

plain-Reading : {name : Text} {b : ℕ} → IsPlainOp name b → Reading (name ∷ []) b
unfolding find_instruction formats instruction_none assemble_node assemble0
plain-Reading IsPlainOp.nop = word refl refl refl (λ f. refl)
plain-Reading IsPlainOp.rlca = word refl refl refl (λ f. refl)
plain-Reading IsPlainOp.rrca = word refl refl refl (λ f. refl)
plain-Reading IsPlainOp.stop = word refl refl refl (λ f. refl)
plain-Reading IsPlainOp.rla = word refl refl refl (λ f. refl)
plain-Reading IsPlainOp.rra = word refl refl refl (λ f. refl)
plain-Reading IsPlainOp.daa = word refl refl refl (λ f. refl)
plain-Reading IsPlainOp.cpl = word refl refl refl (λ f. refl)
plain-Reading IsPlainOp.scf = word refl refl refl (λ f. refl)
plain-Reading IsPlainOp.ccf = word refl refl refl (λ f. refl)
plain-Reading IsPlainOp.halt = word refl refl refl (λ f. refl)
plain-Reading IsPlainOp.ret = word refl refl refl (λ f. refl)
plain-Reading IsPlainOp.di = word refl refl refl (λ f. refl)
plain-Reading IsPlainOp.ei = word refl refl refl (λ f. refl)

abbrev Row : Text → (InstructionType → Type 0) → Type 0
Row name Q =
    (p : InstructionProps) × (find_instruction name ≡ some p)
    × ((1 == p.args1 || 1 == p.args2) ≡ true)
    × Q p.type

IsAlu-row : {name : Text} {op : ℕ} → IsAluOp name op → Row name (λ t. IsAlu t op)
unfolding find_instruction
IsAlu-row IsAluOp.sub = (_, refl, refl, IsAlu.sub)
IsAlu-row IsAluOp.and = (_, refl, refl, IsAlu.and)
IsAlu-row IsAluOp.xor = (_, refl, refl, IsAlu.xor)
IsAlu-row IsAluOp.or = (_, refl, refl, IsAlu.or)
IsAlu-row IsAluOp.cp = (_, refl, refl, IsAlu.cp)

IsWideOp-row : {name : Text} {base : ℕ} → IsWideOp name base → Row name (λ t. IsPairOp t base)
unfolding find_instruction
IsWideOp-row IsWideOp.inc = (_, refl, refl, IsPairOp.inc)
IsWideOp-row IsWideOp.dec = (_, refl, refl, IsPairOp.dec)

IsStackOp-row : {name : Text} {base : ℕ} → IsStackOp name base → Row name (λ t. IsPairOp t base)
unfolding find_instruction
IsStackOp-row IsStackOp.pop = (_, refl, refl, IsPairOp.pop)
IsStackOp-row IsStackOp.push = (_, refl, refl, IsPairOp.push)

IsWidePair-IsPair : {r s k : ℕ} → IsWidePair r s k → IsPair r s k
IsWidePair-IsPair IsWidePair.bc = IsPair.bc
IsWidePair-IsPair IsWidePair.de = IsPair.de
IsWidePair-IsPair IsWidePair.hl = IsPair.hl

abbrev Emitted : InstructionType → ℕ → ℕ → ℕ → Type 0
Emitted t op r n = code (instruction1 t (register r)) ≡ (128 + 8 * op + n) ∷ []

register-code :
    (t : InstructionType) (op : ℕ) {reg k : ℕ} → IsAlu t op → IsRegister reg k → Emitted t op reg k
unfolding register_code register_instruction accumulator_instruction instruction_ra encode_register
register-code t op IsAlu.sub = each_register (Emitted t op) refl refl refl refl refl refl refl refl
register-code t op IsAlu.and = each_register (Emitted t op) refl refl refl refl refl refl refl refl
register-code t op IsAlu.xor = each_register (Emitted t op) refl refl refl refl refl refl refl refl
register-code t op IsAlu.or = each_register (Emitted t op) refl refl refl refl refl refl refl refl
register-code t op IsAlu.cp = each_register (Emitted t op) refl refl refl refl refl refl refl refl

written_register : {reg k : ℕ} → IsRegister reg k → reg ≢ b'm' → is_register (reg ∷ []) ≡ true
unfolding is_register
written_register r =
    each_register (λ r n. r ≢ b'm' → is_register (r ∷ []) ≡ true) (λ _. refl) (λ _. refl)
      (λ _. refl) (λ _. refl) (λ _. refl) (λ _. refl) (λ other. absurd (other refl)) (λ _. refl) r

dregister-code :
    (t : InstructionType) (base : ℕ) {r s k : ℕ}
    → IsPairOp t base
    → IsPair r s k
    → code (instruction1 t (dregister r s)) ≡ (base + 16 * k) ∷ []
unfolding dregister_code dregister_instruction instruction_d encode_dregister
dregister-code t base IsPairOp.inc bc = refl
dregister-code t base IsPairOp.inc de = refl
dregister-code t base IsPairOp.inc hl = refl
dregister-code t base IsPairOp.inc af = refl
dregister-code t base IsPairOp.dec bc = refl
dregister-code t base IsPairOp.dec de = refl
dregister-code t base IsPairOp.dec hl = refl
dregister-code t base IsPairOp.dec af = refl
dregister-code t base IsPairOp.pop bc = refl
dregister-code t base IsPairOp.pop de = refl
dregister-code t base IsPairOp.pop hl = refl
dregister-code t base IsPairOp.pop af = refl
dregister-code t base IsPairOp.push bc = refl
dregister-code t base IsPairOp.push de = refl
dregister-code t base IsPairOp.push hl = refl
dregister-code t base IsPairOp.push af = refl

written_pair : {r s k : ℕ} → IsPair r s k → is_dregister (r ∷ s ∷ []) ≡ true
unfolding is_dregister
written_pair bc = refl
written_pair de = refl
written_pair hl = refl
written_pair af = refl

pair_line :
    {name : Text} {base r s k : ℕ}
    → Row name (λ t. IsPairOp t base)
    → IsPair r s k
    → Reading (name ∷ (r ∷ s ∷ []) ∷ []) (base + 16 * k)
pair_line {base = base} {r} {s} {k} (p, found, count, row) q = (
  instruction1 p.type (dregister r s),
  with_one found count (pair (written_pair q)),
  (
    dregister-code p.type base row q,
    (λ names cur. refl),
    (λ f. pair_code p.type base r s k f row q),
  ),
)

-- A line of machine code is read as a node that makes its code.
pub Encoded-Reading : {ts : TokenList} {b : ℕ} → Encoded ts b → Reading ts b
Encoded-Reading (plain o) = plain-Reading o
Encoded-Reading (on_register {name} {op} {reg} {k} o r other) =
    let (p, found, count, row) = IsAlu-row o in
    (
      instruction1 p.type (register reg),
      with_one found count (single (written_register r other)),
      (register-code p.type op row r, (λ names cur. refl), (λ f. alu_code p.type op reg k f row r)),
    )
Encoded-Reading (on_pair o q) = pair_line (IsWideOp-row o) (IsWidePair-IsPair q)
Encoded-Reading (on_stack o q) = pair_line (IsStackOp-row o) q
