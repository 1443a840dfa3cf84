-- ===== src/Assembler/Adds.antt =====
-- src/assembler.cpp: a program without labels changes nothing in the file but the bytes of its sections.
use gbas.Prelude.{
  ℕ, zero, suc, ◌≡◌, refl, sym, ◌∙◌, ap, subst, Bool-cases, inl, inr, List, [], ◌∷◌, ◌++◌,
  append_assoc, Option, none, some, any, ltb, length, Text,
}
use gbas.Result.{Result, ok, bind-eq-ok, ok-injective}
use gbas.Ast.{
  InstructionType, DirectiveType, Node, Nodes, instruction0, instruction1, instruction2, directive,
  register, dregister, label, number, binary_op, unary_op, root, nil, cons,
}
use gbas.Elf.Sections.{Section, Sym, Body, at, modify_at, find_section, progbits, symtab}
use gbas.Elf.{Elf, add_progbits, push_bytes, set_section}
use gbas.Elf.Update.{HasBody}
use gbas.Assembler.Encode.{instruction_none}
use gbas.Assembler.Formats.{Format, formats, takes_none}
use gbas.Assembler.Image.{assemble1-Coded, formats-no_address}
use gbas.Assembler.{emit_byte, assemble0, assemble_node, assemble}

-- A section of bytes may have more of them behind it; every other section stays as it is, and so
-- does all of a section but its bytes.
pub data AddsTo : List Section → List Section → Type 0 where
  no_section : AddsTo [] []
  unchanged : {s : Section} {ss ts : List Section} → AddsTo ss ts → AddsTo (s ∷ ss) (s ∷ ts)
  longer :
      {s t : Section} {ss ts : List Section} (old new : List ℕ)
      → s.body ≡ progbits old
      → t ≡ record s { body = progbits (old ++ new) }
      → AddsTo ss ts
      → AddsTo (s ∷ ss) (t ∷ ts)

AddsTo-refl : (ss : List Section) → AddsTo ss ss
AddsTo-refl [] = no_section
AddsTo-refl (s ∷ ss) = unchanged (AddsTo-refl ss)

progbits-injective : {a b : List ℕ} → ◌≡◌ {A = Body} (progbits a) (progbits b) → a ≡ b
progbits-injective h = cc

AddsTo-trans : {ss ts us : List Section} → AddsTo ss ts → AddsTo ts us → AddsTo ss us
AddsTo-trans no_section no_section = no_section
AddsTo-trans (unchanged h) (unchanged k) = unchanged (AddsTo-trans h k)
AddsTo-trans (unchanged h) (longer old new p e k) = longer old new p e (AddsTo-trans h k)
AddsTo-trans (longer old new p e h) (unchanged k) = longer old new p e (AddsTo-trans h k)
AddsTo-trans (longer {s} {t} old new p e h) (longer {t = u} old' new' p' e' k) =
    let first : (old' ≡ old ++ new) = progbits-injective (sym p' ∙ ap (λ x. x.body) e) in
    longer old (new ++ new') p
      (e'
        ∙ ap {A = Section} {B = Section} (λ x. record x { body = progbits (old' ++ new') }) e
        ∙ ap {A = List ℕ} {B = Section} (λ x. record s { body = progbits x })
            (ap (λ x. x ++ new') first ∙ append_assoc old new new'))
      (AddsTo-trans h k)

push_bytes-added :
    (new : List ℕ) (s : Section) (b : Body) {t : Section}
    → s.body ≡ b
    → push_bytes new s ≡ ok t
    → (old : List ℕ) × (s.body ≡ progbits old) × (t ≡ record s { body = progbits (old ++ new) })
unfolding push_bytes
push_bytes-added new s (Body.progbits old) p h = (old, p, sym (ok-injective (rw p at h)))
push_bytes-added new s (Body.strtab _) p h = cc (rw p at h)
push_bytes-added new s (Body.symtab _) p h = cc (rw p at h)
push_bytes-added new s (Body.rel _ _) p h = cc (rw p at h)

modify_at-AddsTo :
    (new : List ℕ) (ss : List Section) (i : ℕ) {ts : List Section}
    → modify_at (push_bytes new) ss i ≡ ok ts
    → AddsTo ss ts
unfolding modify_at
modify_at-AddsTo new [] i h = cc
modify_at-AddsTo new (s ∷ ss) zero h =
    let (t, p, e) = bind-eq-ok (push_bytes new s) (λ t. ok (t ∷ ss)) h in
    let (old, q, r) = push_bytes-added new s s.body refl p in
    subst (AddsTo (s ∷ ss)) (ok-injective e) (longer old new q r (AddsTo-refl ss))
modify_at-AddsTo new (s ∷ ss) (suc i) h =
    let (ts, p, e) = bind-eq-ok (modify_at (push_bytes new) ss i) (λ ts. ok (s ∷ ts)) h in
    subst (AddsTo (s ∷ ss)) (ok-injective e) (unchanged (modify_at-AddsTo new ss i p))

-- All of a file but the bytes of its sections, and the sections that are selected.
abbrev pub AddsBytes : Elf → Elf → Type 0
AddsBytes e e' =
    AddsTo e.sections e'.sections
    × (e' ≡ record e {
      sections = e'.sections;
      curr_section = e'.curr_section;
      curr_rel_idx = e'.curr_rel_idx;
    })

AddsBytes-refl : (e : Elf) → AddsBytes e e
AddsBytes-refl e = (AddsTo-refl e.sections, refl)

AddsBytes-trans : (d e f : Elf) → AddsBytes d e → AddsBytes e f → AddsBytes d f
AddsBytes-trans d e f (a, p) (b, q) = (
  AddsTo-trans a b,
  q
      ∙ ap {A = Elf} {B = Elf}
          (λ x. record x {
            sections = f.sections;
            curr_section = f.curr_section;
            curr_rel_idx = f.curr_rel_idx;
          })
          p,
)

emit_byte-AddsBytes : (r : Result ℕ) (e : Elf) {e' : Elf} → emit_byte r e ≡ ok e' → AddsBytes e e'
unfolding add_progbits
emit_byte-AddsBytes r e h =
    let (b, _, p) = bind-eq-ok r (λ b. add_progbits (b ∷ []) e) h in
    let (ss, q, put) =
      bind-eq-ok (modify_at (push_bytes (b ∷ [])) e.sections e.curr_section)
        (λ ss. ok (record e { sections = ss })) p in
    subst (AddsBytes e) (ok-injective put)
      (modify_at-AddsTo (b ∷ []) e.sections e.curr_section q, refl)

set_section-AddsBytes :
    (name : Text) (e : Elf) {e' : Elf} → set_section name e ≡ ok e' → AddsBytes e e'
unfolding set_section
set_section-AddsBytes name e h =
    elim (Bool-cases (ltb (find_section e.sections name) (length e.sections))) [
      | inl k ↦ subst (AddsBytes e) (ok-injective (rw k at h)) (AddsTo-refl e.sections, refl)
      | inr k ↦ cc (rw k at h)
    ]

assemble0-AddsBytes :
    (t : InstructionType) (o : Option (List Format)) (e : Elf) {e' : Elf}
    → assemble0 t o e ≡ ok e'
    → AddsBytes e e'
unfolding assemble0
assemble0-AddsBytes t none e h = subst (AddsBytes e) (ok-injective h) (AddsBytes-refl e)
assemble0-AddsBytes t (some fs) e h = elim (Bool-cases (any takes_none fs)) [
  | inl k ↦ emit_byte-AddsBytes (instruction_none t) e (rw k at h)
  | inr k ↦ cc (rw k at h)
]

-- No node is a label.
abbrev pub NoLabel : Node → Type 0
NoLabel (label _) = ⊥
NoLabel _ = Unit

abbrev pub NoLabels : Nodes → Type 0
NoLabels nil = Unit
NoLabels (cons n ns) = NoLabel n × NoLabels ns

assemble_node-AddsBytes :
    (n : Node) (e : Elf) {e' : Elf} → NoLabel n → assemble_node n e ≡ ok e' → AddsBytes e e'
unfolding assemble_node
assemble_node-AddsBytes (directive DirectiveType.section []) e l h = cc
assemble_node-AddsBytes (directive DirectiveType.section (name ∷ _)) e l h =
    set_section-AddsBytes name e h
assemble_node-AddsBytes (directive DirectiveType.invalid _) e l h = cc
assemble_node-AddsBytes (instruction0 t) e l h = assemble0-AddsBytes t (formats t) e h
assemble_node-AddsBytes (instruction1 t operand) e l h =
    let (r, p, _) = assemble1-Coded t operand (formats t) e (formats-no_address t) h in
    emit_byte-AddsBytes r e p
assemble_node-AddsBytes (instruction2 _ _ _) e l h =
    subst (AddsBytes e) (ok-injective h) (AddsBytes-refl e)
assemble_node-AddsBytes (label _) e l h = absurd l
assemble_node-AddsBytes (root _) e l h = cc
assemble_node-AddsBytes (register _) e l h = cc
assemble_node-AddsBytes (dregister _ _) e l h = cc
assemble_node-AddsBytes (number _) e l h = cc
assemble_node-AddsBytes (binary_op _ _ _) e l h = cc
assemble_node-AddsBytes (unary_op _ _) e l h = cc

pub assemble-AddsBytes :
    (ns : Nodes) (e : Elf) {e' : Elf} → NoLabels ns → assemble ns e ≡ ok e' → AddsBytes e e'
unfolding assemble
assemble-AddsBytes nil e l h = subst (AddsBytes e) (ok-injective h) (AddsBytes-refl e)
assemble-AddsBytes (cons n ns) e {e'} (l, k) h =
    let (d, p, q) = bind-eq-ok (assemble_node n e) (assemble ns) h in
    AddsBytes-trans e d e' (assemble_node-AddsBytes n e l p) (assemble-AddsBytes ns d k q)

-- A table of symbols stays as it is.
pub AddsTo-symtab :
    {ss ts : List Section} (i : ℕ) (symbols : List Sym)
    → AddsTo ss ts
    → HasBody ss i (symtab symbols)
    → HasBody ts i (symtab symbols)
unfolding at
AddsTo-symtab i symbols no_section h = h
AddsTo-symtab zero symbols (unchanged k) h = h
AddsTo-symtab (suc i) symbols (unchanged k) h = AddsTo-symtab i symbols k h
AddsTo-symtab zero symbols (longer {s} old new p e k) (t, q, b) =
    let here : (s.body ≡ symtab symbols) = ap (λ x. x.body) (ok-injective q) ∙ b in
    absurd (cc (p, here))
AddsTo-symtab (suc i) symbols (longer old new p e k) h = AddsTo-symtab i symbols k h
