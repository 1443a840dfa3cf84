-- ===== src/Assembler/Image.antt =====
-- src/assembler.cpp: the bytes that a program puts into each section, told without the object file.
use gbas.Prelude.{
  not, ℕ, ◌≡◌, refl, ◌∙◌, false, List, [], ◌∷◌, ◌++◌, Option, none, some, any, Bool, Bool-cases,
  inl, inr, true, Text, ◌||◌,
}
use gbas.Result.{Result, ok, err}
use gbas.Ast.{
  InstructionType, Node, Nodes, instruction0, instruction1, register, dregister, directive, number,
  nil, cons,
}
use gbas.Elf.{Elf}
use gbas.Elf.Places.{Holds, here, index, add_progbits-Holds}
use gbas.Assembler.Encode.{instruction_none}
use gbas.Assembler.Formats.{OperandType, Format, formats, takes_second}
use gbas.Assembler.Appends.{drop_bytes-leave}
use gbas.Assembler.{
  Turn, leave, go_on, emit_byte, register_code, dregister_code, immediate8, immediate16, try_format,
  search_formats, assemble1,
}

-- The byte of an encoder that returns one.
abbrev pub emitted : Result ℕ → List ℕ
emitted (ok b) = b ∷ []
emitted (err _) = []

-- The byte of an instruction: one without operands that has a row in the table of formats, or one
-- with a register or a pair of registers. The instructions with two operands have none.
abbrev pub code : Node → List ℕ
code (instruction0 t) = elim (formats t) [ none ↦ [] | some _ ↦ emitted (instruction_none t) ]
code (instruction1 t (register r)) = emitted (register_code t r)
code (instruction1 t (dregister r s)) = emitted (dregister_code t r s)
code _ = []

-- The section that is current behind a node: a directive selects the first of its name.
abbrev pub select : List Text → ℕ → Node → ℕ
select names cur (directive _ (name ∷ _)) = index names name
select names cur _ = cur

-- The bytes of the section at index `i`: those of the nodes that stand where it is current.
abbrev pub image : List Text → ℕ → Nodes → ℕ → List ℕ
image names cur nil i = []
image names cur (cons n ns) i = here cur i (code n) ++ image names (select names cur n) ns i

pub emit-Holds :
    (r : Result ℕ) (e : Elf) {e' : Elf} (i : ℕ) (old : List ℕ)
    → emit_byte r e ≡ ok e'
    → Holds e i old
    → Holds e' i (old ++ here e.curr_section i (emitted r))
emit-Holds (ok b) e i old h k = add_progbits-Holds (b ∷ []) e i old h k
emit-Holds (err _) e i old h k = cc

-- No format begins with a pair of registers that holds an address.
abbrev pub is_address : Format → Bool
is_address (OperandType.raddr, _) = true
is_address _ = false

abbrev pub no_address : Option (List Format) → Bool
no_address none = true
no_address (some fs) = not (any is_address fs)

pub formats-no_address : (t : InstructionType) → no_address (formats t) ≡ true
unfolding formats
formats-no_address InstructionType.inc = refl
formats-no_address _ = refl

leave-injective : {x y : Result Elf} → leave x ≡ leave y → x ≡ y
leave-injective h = cc

-- What a search adds is the byte of the instruction.
abbrev pub Coded : InstructionType → Node → Elf → Elf → Type 0
Coded t operand e e' =
    (r : Result ℕ) × (emit_byte r e ≡ ok e') × (emitted r ≡ code (instruction1 t operand))

try_format-Coded :
    (t : InstructionType) (operand : Node) (f : Format) (e : Elf) (x : Result Elf) {e' : Elf}
    → is_address f ≡ false
    → try_format t operand f.0 e ≡ leave x
    → x ≡ ok e'
    → Coded t operand e e'
unfolding try_format
try_format-Coded t (register r) (OperandType.register, _) e x n h k =
    (register_code t r, leave-injective h ∙ k, refl)
try_format-Coded t (dregister r s) (OperandType.dregister, _) e x n h k =
    (dregister_code t r s, leave-injective h ∙ k, refl)
try_format-Coded t (dregister r s) (OperandType.raddr, _) e x n h k = cc
try_format-Coded t (number v) (OperandType.imm8, _) e x n h k =
    absurd (drop_bytes-leave (immediate8 t v) x h k)
try_format-Coded t (number v) (OperandType.imm16, _) e x n h k =
    absurd (drop_bytes-leave (immediate16 t v) x h k)
try_format-Coded t operand f e x n h k = cc

turned :
    (t : InstructionType) (operand : Node) (f : Format) (e : Elf) (turn : Turn) (rest : Result Elf)
    {e' : Elf}
    → is_address f ≡ false
    → try_format t operand f.0 e ≡ turn
    → (rest ≡ ok e' → Coded t operand e e')
    → (elim turn [ leave r ↦ r | go_on ↦ rest ]) ≡ ok e'
    → Coded t operand e e'
turned t operand f e (leave x) rest n p k h = try_format-Coded t operand f e x n p h
turned t operand f e go_on rest n p k h = k h

search_formats-Coded :
    (t : InstructionType) (operand : Node) (fs : List Format) (e : Elf) {e' : Elf}
    → no_address (some fs) ≡ true
    → search_formats t operand fs e ≡ ok e'
    → Coded t operand e e'
unfolding search_formats
search_formats-Coded t operand [] e n h = cc
search_formats-Coded t operand (f ∷ fs) e n h =
    let (here, there) = none_first (is_address f) (any is_address fs) n in
    elim (Bool-cases (takes_second f)) [
      | inl k ↦ search_formats-Coded t operand fs e there (rw k at h)
      | inr k ↦
          turned t operand f e (try_format t operand f.0 e) (search_formats t operand fs e) here
            refl (search_formats-Coded t operand fs e there) (rw k at h)
    ]
  where
    none_first : (a b : Bool) → not (a || b) ≡ true → (a ≡ false) × (not b ≡ true)
    none_first true b h = cc
    none_first false b h = (refl, h)

pub assemble1-Coded :
    (t : InstructionType) (operand : Node) (o : Option (List Format)) (e : Elf) {e' : Elf}
    → no_address o ≡ true
    → assemble1 t operand o e ≡ ok e'
    → Coded t operand e e'
unfolding assemble1
assemble1-Coded t operand none e n h = cc
assemble1-Coded t operand (some fs) e n h = search_formats-Coded t operand fs e n h
