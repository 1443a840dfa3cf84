-- ===== src/Assembler/Refines.antt =====
-- src/assembler.cpp: `assemble` puts the bytes of a program into the sections of the file.
use gbas.Prelude.{
  ℕ, ap₂, ◌≡◌, refl, sym, ◌∙◌, ap, subst, List, [], ◌∷◌, ◌++◌, append_assoc, append-nil, Option,
  none, some, any, if_both, ◌==◌,
}
use gbas.Result.{Result, ok, bind-eq-ok, ok-injective, passed, Post, Post-ok}
use gbas.Ast.{
  InstructionType, DirectiveType, Node, Nodes, instruction0, instruction1, instruction2, register,
  dregister, label, directive, number, nil, cons, root, binary_op, unary_op,
}
use gbas.Elf.{Elf, add_progbits}
use gbas.Elf.Names.{section_names, section_names-Extends}
use gbas.Elf.Sections.{Body}
use gbas.Elf.Update.{HasBody}
use gbas.Elf.Valid.{IsValid}
use gbas.Elf.Places.{
  Holds, here, add_symbol_inv, IsAdded-Holds, add_progbits-current, set_section-index,
}
use gbas.Assembler.Encode.{instruction_none}
use gbas.Assembler.Formats.{Format, formats, takes_none}
use gbas.Assembler.Appends.{assemble_node-Step}
use gbas.Assembler.Safe.{IsRefusal, AllNames, assemble_node-Fills}
use gbas.Assembler.Image.{
  emitted, code, select, image, emit-Holds, formats-no_address, assemble1-Coded,
}
use gbas.Assembler.{emit_byte, assemble0, assemble_node, assemble}

-- A step of `assemble` puts the bytes of its node into the current section, and selects.
abbrev Puts : Node → Elf → Elf → Type 0
Puts n e e' =
    ((i : ℕ) (old : List ℕ) → Holds e i old → Holds e' i (old ++ here e.curr_section i (code n)))
    × (e'.curr_section ≡ select (section_names e.sections) e.curr_section n)

pub here-nil : (cur i : ℕ) → here cur i [] ≡ []
here-nil cur i = if_both (λ x. x ≡ []) (cur == i) (λ _. refl) (λ _. refl)

nothing : (cur i : ℕ) (old : List ℕ) (bytes : List ℕ) → bytes ≡ [] → old ++ here cur i bytes ≡ old
nothing cur i old bytes p = rw (p, here-nil cur i) (append-nil old)

stays :
    (e e' : Elf) (bytes : List ℕ) (i : ℕ) (old : List ℕ)
    → bytes ≡ []
    → Holds e' i old
    → Holds e' i (old ++ here e.curr_section i bytes)
stays e e' bytes i old p h = rw (nothing e.curr_section i old bytes p) h

emit-Puts :
    (n : Node) (r : Result ℕ) (e : Elf) {e' : Elf}
    → emit_byte r e ≡ ok e'
    → emitted r ≡ code n
    → select (section_names e.sections) e.curr_section n ≡ e.curr_section
    → Puts n e e'
emit-Puts n r e {e'} h c k =
    let (b, _, p) = bind-eq-ok r (λ b. add_progbits (b ∷ []) e) h in
    (
      λ i old held.
          subst (λ bytes. Holds e' i (old ++ here e.curr_section i bytes)) c
            (emit-Holds r e i old h held),
      (add_progbits-current (b ∷ []) e p).0 ∙ sym k,
    )

no_code : (t : InstructionType) → formats t ≡ none → code (instruction0 t) ≡ []
no_code t p = rw (code, p) refl

has_code :
    (t : InstructionType) {fs : List Format}
    → formats t ≡ some fs
    → code (instruction0 t) ≡ emitted (instruction_none t)
has_code t p = rw (code, p) refl

assemble0-Puts :
    (t : InstructionType) (o : Option (List Format)) (e : Elf) {e' : Elf}
    → formats t ≡ o
    → assemble0 t o e ≡ ok e'
    → Puts (instruction0 t) e e'
unfolding assemble0
assemble0-Puts t none e {e'} p h =
    subst (λ x. Puts (instruction0 t) e x) (ok-injective h)
      ((λ i old held. stays e e (code (instruction0 t)) i old (no_code t p) held), refl)
assemble0-Puts t (some fs) e p h =
    let (_, q) = passed (any takes_none fs) _ _ h in
    emit-Puts (instruction0 t) (instruction_none t) e q (sym (has_code t p)) refl

assemble_node-Puts :
    (n : Node) (e : Elf) {e' : Elf} → IsValid e → assemble_node n e ≡ ok e' → Puts n e e'
unfolding assemble_node
assemble_node-Puts (directive DirectiveType.section []) e v h = cc
assemble_node-Puts (directive DirectiveType.section (name ∷ _)) e {e'} v h =
    let (same, current) = set_section-index name e v h in
    (
      (λ i old held.
          subst (λ ss. HasBody ss i (Body.progbits (old ++ here e.curr_section i []))) (sym same)
            (stays e e [] i old refl held)),
      current,
    )
assemble_node-Puts (directive DirectiveType.invalid _) e v h = cc
assemble_node-Puts (instruction0 t) e v h = assemble0-Puts t (formats t) e refl h
assemble_node-Puts (instruction1 t operand) e v h =
    let (r, p, q) = assemble1-Coded t operand (formats t) e (formats-no_address t) h in
    emit-Puts (instruction1 t operand) r e p q refl
assemble_node-Puts (instruction2 t a b) e v h =
    subst (λ x. Puts (instruction2 t a b) e x) (ok-injective h)
      ((λ i old held. stays e e [] i old refl held), refl)
assemble_node-Puts (label name) e {e'} v h =
    let (_, _, _, added) = add_symbol_inv name 0 0 0 1 0 e v h in
    (
      (λ i old held. stays e e' [] i old refl (IsAdded-Holds e e' i old v added held)),
      added.current,
    )
assemble_node-Puts (root _) e v h = cc
assemble_node-Puts (register _) e v h = cc
assemble_node-Puts (dregister _ _) e v h = cc
assemble_node-Puts (number _) e v h = cc
assemble_node-Puts (binary_op _ _ _) e v h = cc
assemble_node-Puts (unary_op _ _) e v h = cc

-- Let a file satisfy the invariant and every `.section` directive of a program have an operand.
-- If `assemble` returns, a section that held the bytes `old` holds `old` and the image of the
-- program for that section, which is computed from the nodes, the names of the sections and the
-- section that is current at first.
pub assemble-Holds :
    (ns : Nodes) (e : Elf) {e' : Elf} (i : ℕ) (old : List ℕ)
    → AllNames ns
    → IsValid e
    → assemble ns e ≡ ok e'
    → Holds e i old
    → Holds e' i (old ++ image (section_names e.sections) e.curr_section ns i)
unfolding assemble
assemble-Holds nil e i old a v h held =
    subst (λ x. Holds x i (old ++ [])) (ok-injective h) (rw (append-nil old) held)
assemble-Holds (cons n ns) e {e'} i old (a, as') v h held =
    let (d, p, q) = bind-eq-ok (assemble_node n e) (assemble ns) h in
    let (puts, current) = assemble_node-Puts n e v p in
    let (extends, _, _, _) = (assemble_node-Step n e p).0 in
    let w : IsValid d =
      Post-ok (subst (λ x. Post IsValid IsRefusal x) p (assemble_node-Fills n e a v)) in
    let ih =
      assemble-Holds ns d i (old ++ here e.curr_section i (code n)) as' w q (puts i old held) in
    subst (λ bytes. Holds e' i bytes)
      (append_assoc old (here e.curr_section i (code n)) _
        ∙ ap (λ bytes. old ++ (here e.curr_section i (code n) ++ bytes))
            (ap₂ (λ names cur. image names cur ns i) (sym (section_names-Extends extends)) current))
      ih
