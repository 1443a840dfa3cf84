-- ===== src/Assembler/Refused.antt =====
-- src/assembler.cpp: the instructions with one operand that the assembler refuses.
use gbas.Prelude.{ℕ, ◌≡◌, Bool, true, false, List, [], ◌∷◌, Option, none, some, if_both}
use gbas.Result.{Result, ok, err, Error, assembler_exception, Post, returns, raises}
use gbas.Ast.{InstructionType, Node, instruction1, register, dregister, number}
use gbas.Elf.{Elf}
use gbas.Assembler.Encode.{instruction_i8, instruction_i16}
use gbas.Assembler.Formats.{OperandType, Format, formats, takes_second}
use gbas.Assembler.{
  Turn, leave, go_on, immediate8, immediate16, drop_bytes, try_format, search_formats, assemble1,
  assemble_node,
}

abbrev pub IsAssemblerError : Error → Type 0
IsAssemblerError (assembler_exception _) = Unit
IsAssemblerError _ = ⊥

-- Registers and pairs of registers.
abbrev pub is_register_node : Node → Bool
is_register_node (register _) = true
is_register_node (dregister _ _) = true
is_register_node _ = false

abbrev pub Refused {ℓ} : {A : Type ℓ} → Result A → Type ℓ
Refused r = Post (λ _. ⊥) IsAssemblerError r

abbrev pub Fails : Result (List ℕ) → Type 0
Fails r = Post (λ _. Unit) IsAssemblerError r

pub immediate8-Fails : (t : InstructionType) (v : ℕ) → Fails (immediate8 t v)
unfolding immediate8 instruction_i8
immediate8-Fails InstructionType.jr v = returns tt
immediate8-Fails InstructionType.sub v = returns tt
immediate8-Fails InstructionType.and v = returns tt
immediate8-Fails InstructionType.or v = returns tt
immediate8-Fails InstructionType.xor v = returns tt
immediate8-Fails InstructionType.cp v = returns tt
immediate8-Fails _ v = raises tt

pub immediate16-Fails : (t : InstructionType) (v : ℕ) → Fails (immediate16 t v)
unfolding immediate16 instruction_i16
immediate16-Fails InstructionType.jp v = returns tt
immediate16-Fails InstructionType.call v = returns tt
immediate16-Fails _ v = raises tt

abbrev Rest : Turn → Type 0
Rest (leave r) = Refused r
Rest go_on = Unit

drop_bytes-Rest : (r : Result (List ℕ)) → Fails r → Rest (drop_bytes r)
drop_bytes-Rest (ok _) h = tt
drop_bytes-Rest (err _) (raises h) = raises h

try_format-Rest :
    (t : InstructionType) (operand : Node) (first : OperandType) (e : Elf)
    → is_register_node operand ≡ false
    → Rest (try_format t operand first e)
unfolding try_format
try_format-Rest t (register _) first e h = cc
try_format-Rest t (dregister _ _) first e h = cc
try_format-Rest t (number v) OperandType.imm8 e h =
    drop_bytes-Rest (immediate8 t v) (immediate8-Fails t v)
try_format-Rest t (number v) OperandType.imm16 e h =
    drop_bytes-Rest (immediate16 t v) (immediate16-Fails t v)
try_format-Rest t _ first e h = tt

turn-Refused :
    (turn : Turn) (rest : Result Elf)
    → Rest turn
    → Refused rest
    → Refused (elim turn [ leave r ↦ r | go_on ↦ rest ])
turn-Refused (leave r) rest h k = h
turn-Refused go_on rest h k = k

search_formats-Refused :
    (t : InstructionType) (operand : Node) (fs : List Format) (e : Elf)
    → is_register_node operand ≡ false
    → Refused (search_formats t operand fs e)
unfolding search_formats
search_formats-Refused t operand [] e h = raises tt
search_formats-Refused t operand (f ∷ fs) e h =
    let rest = search_formats-Refused t operand fs e h in
    if_both Refused (takes_second f) (λ _. rest)
      (λ _.
        turn-Refused (try_format t operand f.0 e) (search_formats t operand fs e)
          (try_format-Rest t operand f.0 e h) rest)

assemble1-Refused :
    (t : InstructionType) (operand : Node) (o : Option (List Format)) (e : Elf)
    → is_register_node operand ≡ false
    → Refused (assemble1 t operand o e)
unfolding assemble1
assemble1-Refused t operand none e h = raises tt
assemble1-Refused t operand (some fs) e h = search_formats-Refused t operand fs e h

-- An instruction with one operand that is neither a register nor a pair of registers is refused
-- with an `AssemblerException`, whatever the instruction and the file are.
pub operand-Refused :
    (t : InstructionType) (operand : Node) (e : Elf)
    → is_register_node operand ≡ false
    → Refused (assemble_node (instruction1 t operand) e)
unfolding assemble_node
operand-Refused t operand e h = assemble1-Refused t operand (formats t) e h
