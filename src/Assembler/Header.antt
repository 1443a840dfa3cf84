-- ===== src/Assembler/Header.antt =====
-- src/assembler.cpp: `assemble` does not change the file header.
use gbas.Prelude.{ℕ, ◌≡◌, sym, ◌∙◌, ap, subst, List, [], ◌∷◌, Option, none, some, any}
use gbas.Result.{Result, ok, bind-eq-ok, ok-injective, passed, Post, Post-ok}
use gbas.Ast.{
  InstructionType, DirectiveType, Node, Nodes, instruction0, instruction1, instruction2, register,
  dregister, label, directive, number, nil, cons, root, binary_op, unary_op,
}
use gbas.Elf.{Elf, add_progbits}
use gbas.Elf.Valid.{IsValid}
use gbas.Elf.Places.{add_symbol_inv, add_progbits-current, set_section-header}
use gbas.Assembler.Encode.{instruction_none}
use gbas.Assembler.Formats.{Format, formats, takes_none}
use gbas.Assembler.Safe.{IsRefusal, AllNames, assemble_node-Fills}
use gbas.Assembler.Image.{formats-no_address, assemble1-Coded}
use gbas.Assembler.{emit_byte, assemble0, assemble_node, assemble}

emit-header : (r : Result ℕ) (e : Elf) {e' : Elf} → emit_byte r e ≡ ok e' → e'.header ≡ e.header
emit-header r e h =
    let (b, _, p) = bind-eq-ok r (λ b. add_progbits (b ∷ []) e) h in
    (add_progbits-current (b ∷ []) e p).1

assemble0-header :
    (t : InstructionType) (o : Option (List Format)) (e : Elf) {e' : Elf}
    → assemble0 t o e ≡ ok e'
    → e'.header ≡ e.header
unfolding assemble0
assemble0-header t none e h = ap (λ x. x.header) (sym (ok-injective h))
assemble0-header t (some fs) e h =
    let (_, q) = passed (any takes_none fs) _ _ h in emit-header (instruction_none t) e q

assemble_node-header :
    (n : Node) (e : Elf) {e' : Elf} → IsValid e → assemble_node n e ≡ ok e' → e'.header ≡ e.header
unfolding assemble_node
assemble_node-header (directive DirectiveType.section []) e v h = cc
assemble_node-header (directive DirectiveType.section (name ∷ _)) e v h =
    set_section-header name e h
assemble_node-header (directive DirectiveType.invalid _) e v h = cc
assemble_node-header (instruction0 t) e v h = assemble0-header t (formats t) e h
assemble_node-header (instruction1 t operand) e v h =
    let (r, p, _) = assemble1-Coded t operand (formats t) e (formats-no_address t) h in
    emit-header r e p
assemble_node-header (instruction2 t a b) e v h = ap (λ x. x.header) (sym (ok-injective h))
assemble_node-header (label name) e v h =
    let (_, _, _, added) = add_symbol_inv name 0 0 0 1 0 e v h in added.header
assemble_node-header (root _) e v h = cc
assemble_node-header (register _) e v h = cc
assemble_node-header (dregister _ _) e v h = cc
assemble_node-header (number _) e v h = cc
assemble_node-header (binary_op _ _ _) e v h = cc
assemble_node-header (unary_op _ _) e v h = cc

pub assemble-header :
    (ns : Nodes) (e : Elf) {e' : Elf}
    → AllNames ns
    → IsValid e
    → assemble ns e ≡ ok e'
    → e'.header ≡ e.header
unfolding assemble
assemble-header nil e a v h = ap (λ x. x.header) (sym (ok-injective h))
assemble-header (cons n ns) e (a, as') v h =
    let (d, p, q) = bind-eq-ok (assemble_node n e) (assemble ns) h in
    let w : IsValid d =
      Post-ok (subst (λ x. Post IsValid IsRefusal x) p (assemble_node-Fills n e a v)) in
    assemble-header ns d as' w q ∙ assemble_node-header n e v p
