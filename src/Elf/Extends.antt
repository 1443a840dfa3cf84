-- ===== src/Elf/Extends.antt =====
-- src/elf.cpp: what an operation leaves of the sections of a file. Data is only added at the ends.
use gbas.Prelude.{
  ℕ, zero, suc, ◌≡◌, refl, sym, ◌∙◌, subst, Bool, true, false, List, [], ◌∷◌, ◌++◌, append_assoc,
  append-nil, any, ltb, Bool-cases, Text, text_eq, length, inl, inr,
}
use gbas.Result.{Result, ok, ◌>>=◌, bind-eq-ok, ok-injective}
use gbas.Elf.Sections.{Sym, Rel, Section, Body, modify_at, at, push_string, find_section, u32}
use gbas.Elf.{
  Elf, add_symbol, insert_symbol, add_string, grow_strings, push_symbol, push_relocation,
  push_bytes, add_progbits, set_section, relocate, new_symbol, symbol_count, string_count,
}

-- A body is followed by more of its kind.
pub data Longer : Body → Body → Type 0 where
  progbits : (a b : List ℕ) → Longer (Body.progbits a) (Body.progbits (a ++ b))
  strtab : (a b : List Text) → Longer (Body.strtab a) (Body.strtab (a ++ b))
  symtab : (a b : List Sym) → Longer (Body.symtab a) (Body.symtab (a ++ b))
  rel : (other : Text) (a b : List Rel) → Longer (Body.rel other a) (Body.rel other (a ++ b))

abbrev pub Grows : Section → Section → Type 0
Grows s t = (s.name ≡ t.name) × Longer s.body t.body

-- The same sections, in the same order, each with its old data in front.
pub data Extends : List Section → List Section → Type 0 where
  none : Extends [] []
  more :
      {s t : Section} {ss ts : List Section} → Grows s t → Extends ss ts → Extends (s ∷ ss) (t ∷ ts)

Longer-refl : (b : Body) → Longer b b
Longer-refl (Body.progbits a) =
    subst (λ x. Longer (Body.progbits a) (Body.progbits x)) (append-nil a) (progbits a [])
Longer-refl (Body.strtab a) =
    subst (λ x. Longer (Body.strtab a) (Body.strtab x)) (append-nil a) (strtab a [])
Longer-refl (Body.symtab a) =
    subst (λ x. Longer (Body.symtab a) (Body.symtab x)) (append-nil a) (symtab a [])
Longer-refl (Body.rel o a) =
    subst (λ x. Longer (Body.rel o a) (Body.rel o x)) (append-nil a) (rel o a [])

pub Extends-refl : (ss : List Section) → Extends ss ss
Extends-refl [] = none
Extends-refl (s ∷ ss) = more (refl, Longer-refl s.body) (Extends-refl ss)

Longer-trans : {a b c : Body} → Longer a b → Longer b c → Longer a c
Longer-trans (progbits a b) (progbits _ c) =
    subst (λ x. Longer (Body.progbits a) (Body.progbits x)) (sym (append_assoc a b c))
      (progbits a (b ++ c))
Longer-trans (strtab a b) (strtab _ c) =
    subst (λ x. Longer (Body.strtab a) (Body.strtab x)) (sym (append_assoc a b c))
      (strtab a (b ++ c))
Longer-trans (symtab a b) (symtab _ c) =
    subst (λ x. Longer (Body.symtab a) (Body.symtab x)) (sym (append_assoc a b c))
      (symtab a (b ++ c))
Longer-trans (rel o a b) (rel _ _ c) =
    subst (λ x. Longer (Body.rel o a) (Body.rel o x)) (sym (append_assoc a b c)) (rel o a (b ++ c))

pub Extends-trans : {ss ts us : List Section} → Extends ss ts → Extends ts us → Extends ss us
Extends-trans none none = none
Extends-trans (more g h) (more g' h') =
    more (g.0 ∙ g'.0, Longer-trans g.1 g'.1) (Extends-trans h h')

-- A change of one section that grows it.
pub modify_at-Extends :
    (f : Section → Result Section) (ss : List Section) (i : ℕ) {ts : List Section}
    → ((s t : Section) → f s ≡ ok t → Grows s t)
    → modify_at f ss i ≡ ok ts
    → Extends ss ts
unfolding modify_at
modify_at-Extends f [] i g h = cc
modify_at-Extends f (s ∷ ss) zero g h =
    let (t, p, e) = bind-eq-ok (f s) (λ t. ok (t ∷ ss)) h in
    subst (Extends (s ∷ ss)) (ok-injective e) (more (g s t p) (Extends-refl ss))
modify_at-Extends f (s ∷ ss) (suc i) g h =
    let (ts, p, e) = bind-eq-ok (modify_at f ss i) (λ ts. ok (s ∷ ts)) h in
    subst (Extends (s ∷ ss)) (ok-injective e)
      (more (refl, Longer-refl s.body) (modify_at-Extends f ss i g p))

pub push_string-Grows :
    (str : Text) (b : Body) (s t : Section) → s.body ≡ b → push_string str s ≡ ok t → Grows s t
unfolding push_string
push_string-Grows str (Body.strtab a) s t p h =
    subst (Grows s) (ok-injective (rw p at h)) (refl, rw p (strtab a (str ∷ [])))
push_string-Grows str (Body.progbits _) s t p h = cc (rw p at h)
push_string-Grows str (Body.symtab _) s t p h = cc (rw p at h)
push_string-Grows str (Body.rel _ _) s t p h = cc (rw p at h)

push_bytes-Grows :
    (bytes : List ℕ) (b : Body) (s t : Section) → s.body ≡ b → push_bytes bytes s ≡ ok t → Grows s t
unfolding push_bytes
push_bytes-Grows bytes (Body.progbits a) s t p h =
    subst (Grows s) (ok-injective (rw p at h)) (refl, rw p (progbits a bytes))
push_bytes-Grows bytes (Body.strtab _) s t p h = cc (rw p at h)
push_bytes-Grows bytes (Body.symtab _) s t p h = cc (rw p at h)
push_bytes-Grows bytes (Body.rel _ _) s t p h = cc (rw p at h)

grow_strings-Grows :
    (str : Text) (b : Body) (s t : Section) → s.body ≡ b → grow_strings str s ≡ ok t → Grows s t
unfolding push_string
grow_strings-Grows str (Body.strtab a) s t p h =
    subst (Grows s) (ok-injective (rw p at h)) (refl, rw p (strtab a (str ∷ [])))
grow_strings-Grows str (Body.progbits _) s t p h = cc (rw p at h)
grow_strings-Grows str (Body.symtab _) s t p h = cc (rw p at h)
grow_strings-Grows str (Body.rel _ _) s t p h = cc (rw p at h)

push_symbol-Grows :
    (x : Sym) (b : Body) (s t : Section) → s.body ≡ b → push_symbol x s ≡ ok t → Grows s t
unfolding push_symbol
push_symbol-Grows x (Body.symtab a) s t p h =
    subst (Grows s) (ok-injective (rw p at h)) (refl, rw p (symtab a (x ∷ [])))
push_symbol-Grows x (Body.progbits _) s t p h = cc (rw p at h)
push_symbol-Grows x (Body.strtab _) s t p h = cc (rw p at h)
push_symbol-Grows x (Body.rel _ _) s t p h = cc (rw p at h)

push_relocation-Grows :
    (x : Rel) (b : Body) (s t : Section) → s.body ≡ b → push_relocation x s ≡ ok t → Grows s t
unfolding push_relocation
push_relocation-Grows x (Body.rel o a) s t p h =
    subst (Grows s) (ok-injective (rw p at h)) (refl, rw p (rel o a (x ∷ [])))
push_relocation-Grows x (Body.progbits _) s t p h = cc (rw p at h)
push_relocation-Grows x (Body.strtab _) s t p h = cc (rw p at h)
push_relocation-Grows x (Body.symtab _) s t p h = cc (rw p at h)

-- A file whose sections are extended, with the names of symbols `names`.
abbrev pub Kept : Elf → Elf → Type 0
Kept e e' =
    Extends e.sections e'.sections
    × (e'.shstrtab_idx ≡ e.shstrtab_idx)
    × (e'.strtab_idx ≡ e.strtab_idx)
    × (e'.curr_symtab_idx ≡ e.curr_symtab_idx)

pub Kept-refl : (e : Elf) → Kept e e
Kept-refl e = (Extends-refl e.sections, refl, refl, refl)

pub Kept-trans : (d e f : Elf) → Kept d e → Kept e f → Kept d f
Kept-trans _ _ _ (a, b, c, x) (a', b', c', x') = (Extends-trans a a', b' ∙ b, c' ∙ c, x' ∙ x)

-- `e` with other sections.
abbrev with_sections : Elf → List Section → Elf
with_sections e ss = record e { sections = ss }

modified-Kept :
    (f : Section → Result Section) (e : Elf) (i : ℕ) {e' : Elf}
    → ((s t : Section) → f s ≡ ok t → Grows s t)
    → (modify_at f e.sections i >>= λ ss. ok (with_sections e ss)) ≡ ok e'
    → Kept e e' × (e'.symbol_names ≡ e.symbol_names)
modified-Kept f e i g h =
    let (ss, p, q) = bind-eq-ok (modify_at f e.sections i) (λ ss. ok (with_sections e ss)) h in
    let r = sym (ok-injective q) in
    rw r ((modify_at-Extends f e.sections i g p, refl, refl, refl), refl)

pub add_progbits-Kept :
    (bytes : List ℕ) (e : Elf) {e' : Elf}
    → add_progbits bytes e ≡ ok e'
    → Kept e e' × (e'.symbol_names ≡ e.symbol_names)
unfolding add_progbits
add_progbits-Kept bytes e h =
    modified-Kept (push_bytes bytes) e e.curr_section
      (λ s t. push_bytes-Grows bytes s.body s t refl) h

add_string-Kept :
    (s : Text) (e : Elf) {e' : Elf}
    → add_string s e ≡ ok e'
    → Kept e e' × (e'.symbol_names ≡ e.symbol_names)
unfolding add_string
add_string-Kept s e h =
    modified-Kept (grow_strings s) e e.strtab_idx (λ x t. grow_strings-Grows s x.body x t refl) h

relocate-Kept :
    (b : Bool) (idx value : ℕ) (e : Elf) {e' : Elf}
    → relocate b idx value e ≡ ok e'
    → Kept e e' × (e'.symbol_names ≡ e.symbol_names)
unfolding relocate
relocate-Kept false idx value e h = rw (sym (ok-injective h)) (Kept-refl e, refl)
relocate-Kept true idx value e h =
    modified-Kept _ e e.curr_rel_idx (λ s t. push_relocation-Grows _ s.body s t refl) h

pub set_section-Kept :
    (name : Text) (e : Elf) {e' : Elf}
    → set_section name e ≡ ok e'
    → Kept e e' × (e'.symbol_names ≡ e.symbol_names)
unfolding set_section
set_section-Kept name e h =
    elim (Bool-cases (ltb (find_section e.sections name) (length e.sections))) [
      | inl k ↦ rw (sym (ok-injective (rw k at h))) (Kept-refl e, refl)
      | inr k ↦ cc (rw k at h)
    ]

insert_symbol-Kept :
    (name : Text) (value size type bind visibility : ℕ) (relocatable : Bool) (e : Elf) {e' : Elf}
    → insert_symbol name value size type bind visibility relocatable e ≡ ok e'
    → Kept e e' × (e'.symbol_names ≡ e.symbol_names)
unfolding insert_symbol
insert_symbol-Kept name value size type bind visibility relocatable e {e'} h =
    let (table, _, h1) = bind-eq-ok (at e.sections e.curr_symtab_idx) _ h in
    let (idx, _, h2) = bind-eq-ok (symbol_count table) _ h1 in
    let (strings, _, h3) = bind-eq-ok (at e.sections e.strtab_idx) _ h2 in
    let (nameidx, _, h4) = bind-eq-ok (string_count strings) _ h3 in
    let (e1, p, h5) = bind-eq-ok (add_string name e) _ h4 in
    let sym = new_symbol (u32 nameidx) value size type bind visibility e1 in
    let (ss, q, h6) =
      bind-eq-ok (modify_at (push_symbol sym) e1.sections e1.curr_symtab_idx) _ h5 in
    let e2 = with_sections e1 ss in
    let k1 = add_string-Kept name e p in
    let k2 =
      modify_at-Extends (push_symbol sym) e1.sections e1.curr_symtab_idx
        (λ s t. push_symbol-Grows sym s.body s t refl) q in
    let k3 = relocate-Kept relocatable (u32 idx) value e2 h6 in
    (Kept-trans e e2 e' (Kept-trans e e1 e2 k1.0 (k2, refl, refl, refl)) k3.0, k3.1 ∙ k1.1)

-- A symbol that is added had no symbol of its name before it.
pub add_symbol-Kept :
    (name : Text) (value size type bind visibility : ℕ) (relocatable : Bool) (e : Elf) {e' : Elf}
    → add_symbol name value size type bind visibility relocatable e ≡ ok e'
    → Kept e e'
      × (e'.symbol_names ≡ name ∷ e.symbol_names)
      × (any (text_eq name) e.symbol_names ≡ false)
unfolding add_symbol
add_symbol-Kept name value size type bind visibility relocatable e h =
    elim (Bool-cases (any (text_eq name) e.symbol_names)) [
      | inl k ↦ cc (rw k at h)
      | inr k ↦
          let r =
            insert_symbol-Kept name value size type bind visibility relocatable
              (record e { symbol_names = name ∷ e.symbol_names }) (rw k at h) in
          (r.0, r.1, k)
    ]
