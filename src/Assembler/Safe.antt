-- ===== src/Assembler/Safe.antt =====
-- src/assembler.cpp: what `assemble` throws, and the invariant of the file that it fills.
use gbas.Prelude.{ℕ, List, [], ◌∷◌, Option, none, some, any, if_both}
use gbas.Result.{
  Error, Result, ok, err, assembler_exception, elf_exception, Post, returns, raises, Post-bind,
}
use gbas.Ast.{
  InstructionType, DirectiveType, Node, Nodes, instruction0, instruction1, instruction2, register,
  dregister, label, directive, number, nil, cons,
}
use gbas.Elf.{Elf}
use gbas.Elf.Valid.{IsValid, IsElfError, Safe, set_section-Safe, add_progbits-Safe, add_symbol-Safe}
use gbas.Assembler.Encode.{instruction_none}
use gbas.Assembler.Formats.{OperandType, Format, formats, takes_none, takes_second}
use gbas.Assembler.Throws.{
  Encodes, register_code-Encodes, dregister_code-Encodes, address_code-Encodes,
  instruction_none-Encodes,
}
use gbas.Assembler.Refused.{IsAssemblerError, immediate8-Fails, immediate16-Fails}
use gbas.Assembler.{
  leave, go_on, emit_byte, register_code, dregister_code, address_code, immediate8, immediate16,
  drop_bytes, try_format, search_formats, assemble0, assemble1, assemble_node, assemble,
}

-- The exceptions that the assembler documents, and those of the object file.
abbrev pub IsRefusal : Error → Type 0
IsRefusal (assembler_exception _) = Unit
IsRefusal (elf_exception _) = Unit
IsRefusal _ = ⊥

abbrev pub Fills : Result Elf → Type 0
Fills r = Post IsValid IsRefusal r

of_assembler : (e : Error) → IsAssemblerError e → IsRefusal e
of_assembler (assembler_exception _) h = tt
of_assembler _ h = absurd h

of_elf_error : (e : Error) → IsElfError e → IsRefusal e
of_elf_error (elf_exception _) h = tt
of_elf_error _ h = absurd h

of_elf : {r : Result Elf} → Safe r → Fills r
of_elf (raises h) = raises (of_elf_error _ h)
of_elf (returns h) = returns h

emit_byte-Fills : (r : Result ℕ) (e : Elf) → Encodes r → IsValid e → Fills (emit_byte r e)
emit_byte-Fills (ok b) e h v = of_elf (add_progbits-Safe (b ∷ []) e v)
emit_byte-Fills (err x) e (raises h) v = raises (of_assembler _ h)

drop_bytes-Fills :
    (r : Result (List ℕ)) (rest : Result Elf)
    → Post (λ _. Unit {0}) IsAssemblerError r
    → Fills rest
    → Fills (elim (drop_bytes r) [ leave x ↦ x | go_on ↦ rest ])
drop_bytes-Fills (ok _) rest h k = k
drop_bytes-Fills (err _) rest (raises h) k = raises (of_assembler _ h)

try_format-Fills :
    (t : InstructionType) (operand : Node) (first : OperandType) (e : Elf) (rest : Result Elf)
    → IsValid e
    → Fills rest
    → Fills (elim (try_format t operand first e) [ leave x ↦ x | go_on ↦ rest ])
unfolding try_format
try_format-Fills t (register r) OperandType.register e rest v k =
    emit_byte-Fills (register_code t r) e (register_code-Encodes t r) v
try_format-Fills t (dregister r s) OperandType.dregister e rest v k =
    emit_byte-Fills (dregister_code t r s) e (dregister_code-Encodes t r s) v
try_format-Fills t (dregister r s) OperandType.raddr e rest v k =
    emit_byte-Fills (address_code t r s) e (address_code-Encodes t r s) v
try_format-Fills t (number v) OperandType.imm8 e rest _ k =
    drop_bytes-Fills (immediate8 t v) rest (immediate8-Fails t v) k
try_format-Fills t (number v) OperandType.imm16 e rest _ k =
    drop_bytes-Fills (immediate16 t v) rest (immediate16-Fails t v) k
try_format-Fills t operand first e rest v k = k

search_formats-Fills :
    (t : InstructionType) (operand : Node) (fs : List Format) (e : Elf)
    → IsValid e
    → Fills (search_formats t operand fs e)
unfolding search_formats
search_formats-Fills t operand [] e v = raises tt
search_formats-Fills t operand (f ∷ fs) e v =
    let rest = search_formats-Fills t operand fs e v in
    if_both Fills (takes_second f) (λ _. rest)
      (λ _. try_format-Fills t operand f.0 e (search_formats t operand fs e) v rest)

assemble0-Fills :
    (t : InstructionType) (o : Option (List Format)) (e : Elf) → IsValid e → Fills (assemble0 t o e)
unfolding assemble0
assemble0-Fills t none e v = returns v
assemble0-Fills t (some fs) e v =
    if_both Fills (any takes_none fs)
      (λ _. emit_byte-Fills (instruction_none t) e (instruction_none-Encodes t) v) (λ _. raises tt)

assemble1-Fills :
    (t : InstructionType) (operand : Node) (o : Option (List Format)) (e : Elf)
    → IsValid e
    → Fills (assemble1 t operand o e)
unfolding assemble1
assemble1-Fills t operand none e v = raises tt
assemble1-Fills t operand (some fs) e v = search_formats-Fills t operand fs e v

-- A `.section` directive has an operand.
abbrev pub HasName : Node → Type 0
HasName (directive DirectiveType.section []) = ⊥
HasName _ = Unit

abbrev pub AllNames : Nodes → Type 0
AllNames nil = Unit
AllNames (cons n ns) = HasName n × AllNames ns

pub assemble_node-Fills : (n : Node) (e : Elf) → HasName n → IsValid e → Fills (assemble_node n e)
unfolding assemble_node
assemble_node-Fills (directive DirectiveType.section []) e h v = absurd h
assemble_node-Fills (directive DirectiveType.section (name ∷ _)) e h v =
    of_elf (set_section-Safe name e v)
assemble_node-Fills (directive DirectiveType.invalid _) e h v = raises tt
assemble_node-Fills (instruction0 t) e h v = assemble0-Fills t (formats t) e v
assemble_node-Fills (instruction1 t operand) e h v = assemble1-Fills t operand (formats t) e v
assemble_node-Fills (instruction2 _ _ _) e h v = returns v
assemble_node-Fills (label name) e h v = of_elf (add_symbol-Safe name 0 0 0 1 0 e v)
assemble_node-Fills _ e h v = raises tt

-- If every `.section` directive of a program has an operand and a file satisfies the invariant,
-- `assemble` throws an `AssemblerException` or the exception of the file, or it returns a file
-- that satisfies the invariant.
pub assemble-Fills :
    (ns : Nodes) (e : Elf) → AllNames ns → IsValid e → Post IsValid IsRefusal (assemble ns e)
unfolding assemble
assemble-Fills nil e h v = returns v
assemble-Fills (cons n ns) e (h, k) v =
    Post-bind (assemble_node-Fills n e h v) (λ e' v'. assemble-Fills ns e' k v')
