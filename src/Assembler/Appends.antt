-- ===== src/Assembler/Appends.antt =====
-- src/assembler.cpp: what `assemble` leaves of the file that it is given, and the symbols it adds.
use gbas.Prelude.{
  ℕ, ◌≡◌, refl, sym, ◌∙◌, subst, false, List, [], ◌∷◌, Option, none, some, any, Bool-cases, inl,
  inr, Text,
}
use gbas.Result.{Result, ok, err, bind-eq-ok, ok-injective}
use gbas.Ast.{
  InstructionType, DirectiveType, Node, Nodes, instruction0, instruction1, instruction2, register,
  dregister, label, directive, number, binary_op, unary_op, root, nil, cons,
}
use gbas.Elf.{Elf, add_progbits}
use gbas.Elf.Names.{Distinct}
use gbas.Elf.Extends.{
  Kept, Kept-refl, Kept-trans, add_progbits-Kept, set_section-Kept, add_symbol-Kept,
}
use gbas.Assembler.Encode.{instruction_none}
use gbas.Assembler.Formats.{OperandType, Format, formats, takes_none, takes_second}
use gbas.Assembler.{
  Turn, leave, go_on, emit_byte, register_code, dregister_code, address_code, immediate8,
  immediate16, drop_bytes, try_format, search_formats, assemble0, assemble1, assemble_node,
  assemble,
}

-- The relation of a step that adds no symbol.
abbrev Same : Elf → Elf → Type 0
Same e e' = Kept e e' × (e'.symbol_names ≡ e.symbol_names)

emit-Same : (r : Result ℕ) (e : Elf) {e' : Elf} → emit_byte r e ≡ ok e' → Same e e'
emit-Same r e h =
    let (b, _, p) = bind-eq-ok r (λ b. add_progbits (b ∷ []) e) h in add_progbits-Kept (b ∷ []) e p

pub drop_bytes-leave :
    (r : Result (List ℕ)) (x : Result Elf) {e' : Elf} → drop_bytes r ≡ leave x → x ≡ ok e' → ⊥
drop_bytes-leave (ok _) x h k = cc
drop_bytes-leave (err _) x h k = cc

-- A turn of the search that leaves with a file has added one byte to it.
try_format-emit :
    (t : InstructionType) (operand : Node) (first : OperandType) (e : Elf) (x : Result Elf)
    {e' : Elf}
    → try_format t operand first e ≡ leave x
    → x ≡ ok e'
    → (r : Result ℕ) × (emit_byte r e ≡ ok e')
unfolding try_format
try_format-emit t (register r) OperandType.register e x h k = (register_code t r, cc)
try_format-emit t (dregister r s) OperandType.dregister e x h k = (dregister_code t r s, cc)
try_format-emit t (dregister r s) OperandType.raddr e x h k = (address_code t r s, cc)
try_format-emit t (number v) OperandType.imm8 e x h k =
    absurd (drop_bytes-leave (immediate8 t v) x h k)
try_format-emit t (number v) OperandType.imm16 e x h k =
    absurd (drop_bytes-leave (immediate16 t v) x h k)
try_format-emit t operand first e x h k = cc

turned :
    (t : InstructionType) (operand : Node) (first : OperandType) (e : Elf) (turn : Turn)
    (rest : Result Elf) {e' : Elf}
    → try_format t operand first e ≡ turn
    → (rest ≡ ok e' → (r : Result ℕ) × (emit_byte r e ≡ ok e'))
    → (elim turn [ leave r ↦ r | go_on ↦ rest ]) ≡ ok e'
    → (r : Result ℕ) × (emit_byte r e ≡ ok e')
turned t operand first e (leave x) rest p k h = try_format-emit t operand first e x p h
turned t operand first e go_on rest p k h = k h

-- An instruction with one operand that is assembled adds one encoded byte.
search_formats-emit :
    (t : InstructionType) (operand : Node) (fs : List Format) (e : Elf) {e' : Elf}
    → search_formats t operand fs e ≡ ok e'
    → (r : Result ℕ) × (emit_byte r e ≡ ok e')
unfolding search_formats
search_formats-emit t operand [] e h = cc
search_formats-emit t operand (f ∷ fs) e h = elim (Bool-cases (takes_second f)) [
  | inl k ↦ search_formats-emit t operand fs e (rw k at h)
  | inr k ↦
      turned t operand f.0 e (try_format t operand f.0 e) (search_formats t operand fs e) refl
        (search_formats-emit t operand fs e) (rw k at h)
]

assemble0-Same :
    (t : InstructionType) (o : Option (List Format)) (e : Elf) {e' : Elf}
    → assemble0 t o e ≡ ok e'
    → Same e e'
unfolding assemble0
assemble0-Same t none e h = rw (sym (ok-injective h)) (Kept-refl e, refl)
assemble0-Same t (some fs) e h = elim (Bool-cases (any takes_none fs)) [
  | inl k ↦ emit-Same (instruction_none t) e (rw k at h)
  | inr k ↦ cc (rw k at h)
]

assemble1-Same :
    (t : InstructionType) (operand : Node) (o : Option (List Format)) (e : Elf) {e' : Elf}
    → assemble1 t operand o e ≡ ok e'
    → Same e e'
unfolding assemble1
assemble1-Same t operand none e h = cc
assemble1-Same t operand (some fs) e h =
    let (r, p) = search_formats-emit t operand fs e h in emit-Same r e p

-- The names of the labels of a program, the last first, before other names.
abbrev pub node_labels : Node → List Text → List Text
node_labels (label name) names = name ∷ names
node_labels _ names = names

abbrev pub labels_onto : Nodes → List Text → List Text
labels_onto nil names = names
labels_onto (cons n ns) names = labels_onto ns (node_labels n names)

abbrev pub Step : Node → Elf → Elf → Type 0
Step n e e' =
    Kept e e'
    × (e'.symbol_names ≡ node_labels n e.symbol_names)
    × (Distinct e.symbol_names → Distinct e'.symbol_names)

Same-Step :
    (names : List Text) (e e' : Elf)
    → names ≡ e.symbol_names
    → Same e e'
    → Kept e e' × (e'.symbol_names ≡ names) × (Distinct e.symbol_names → Distinct e'.symbol_names)
Same-Step names e e' p s = (s.0, s.1 ∙ sym p, λ d. subst Distinct (sym s.1) d)

pub assemble_node-Step : (n : Node) (e : Elf) {e' : Elf} → assemble_node n e ≡ ok e' → Step n e e'
unfolding assemble_node
assemble_node-Step (directive DirectiveType.section []) e h = cc
assemble_node-Step (directive DirectiveType.section (name ∷ _)) e {e'} h =
    Same-Step _ e e' refl (set_section-Kept name e h)
assemble_node-Step (directive DirectiveType.invalid _) e h = cc
assemble_node-Step (instruction0 t) e {e'} h =
    Same-Step _ e e' refl (assemble0-Same t (formats t) e h)
assemble_node-Step (instruction1 t operand) e {e'} h =
    Same-Step _ e e' refl (assemble1-Same t operand (formats t) e h)
assemble_node-Step (instruction2 _ _ _) e h = rw (sym (ok-injective h)) (Kept-refl e, refl, λ d. d)
assemble_node-Step (label name) e h =
    let (k, p, q) = add_symbol-Kept name 0 0 0 1 0 false e h in
    (k, p, λ d. subst Distinct (sym p) (q, d))
assemble_node-Step (root _) e h = cc
assemble_node-Step (register _) e h = cc
assemble_node-Step (dregister _ _) e h = cc
assemble_node-Step (number _) e h = cc
assemble_node-Step (binary_op _ _ _) e h = cc
assemble_node-Step (unary_op _ _) e h = cc

-- If `assemble` returns, the file has the same sections in the same order, each of the same name
-- and kind and with its old data in front, and the same sections serve as its tables of section
-- names, strings and symbols.
pub assemble-Kept : (ns : Nodes) (e : Elf) {e' : Elf} → assemble ns e ≡ ok e' → Kept e e'
unfolding assemble
assemble-Kept nil e h = rw (sym (ok-injective h)) (Kept-refl e)
assemble-Kept (cons n ns) e {e'} h =
    let (d, p, q) = bind-eq-ok (assemble_node n e) (assemble ns) h in
    Kept-trans e d e' ((assemble_node-Step n e p).0) (assemble-Kept ns d q)

-- If `assemble` returns for a file whose names of symbols are distinct, then the names of the
-- symbols are those of the labels of the program before the old ones, and they are distinct.
pub assemble-Distinct :
    (ns : Nodes) (e : Elf) {e' : Elf}
    → Distinct e.symbol_names
    → assemble ns e ≡ ok e'
    → (e'.symbol_names ≡ labels_onto ns e.symbol_names) × Distinct (labels_onto ns e.symbol_names)
unfolding assemble
assemble-Distinct nil e d h = rw (sym (ok-injective h)) (refl, d)
assemble-Distinct (cons n ns) e d h =
    let (m, p, q) = bind-eq-ok (assemble_node n e) (assemble ns) h in
    let (_, names, keeps) = assemble_node-Step n e p in
    let r = assemble-Distinct ns m (keeps d) q in rw (sym names) r
