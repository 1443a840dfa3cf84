-- ===== src/Elf/Places.antt =====
-- src/elf.cpp: what the operations do to a section of bytes.
use gbas.Prelude.{
  ℕ, zero, suc, ◌<◌, ◌==◌, ==_iff, ◌≡◌, ◌≢◌, refl, sym, ◌∙◌, ap, subst, Bool-cases, true, false,
  List, [], ◌∷◌, ◌++◌, append-nil, length, ltb, ltb→lt, inl, inr, if◌then◌else◌, Text, text_eq, any,
  arith,
}
use gbas.Result.{Error, Result, ok, err, ok-injective, passed, bind-eq-ok}
use gbas.Elf.Sections.{
  Sym, Section, SectionType, section_type, Body, progbits, at, modify_at, find_section, u32,
}
use gbas.Elf.{Elf, set_section, add_progbits, add_symbol, push_bytes}
use gbas.Elf.Update.{IsAdded, Updated, HasBody, after_head, behind_head}
use gbas.Elf.Names.{section_names}
use gbas.Elf.Valid.{IsValid, HasKind, add_symbol-IsAdded}

abbrev Inv : (Section → Result Section) → List Section → ℕ → List Section → Type 0
Inv f ss i ts = (s : Section) × (t : Section) × (at ss i ≡ ok s) × (f s ≡ ok t) × Updated ss i t ts

-- A change of the section at an index that succeeds has changed that section.
modify_at-Inv :
    (f : Section → Result Section) (ss : List Section) (i : ℕ) {ts : List Section}
    → modify_at f ss i ≡ ok ts
    → Inv f ss i ts
unfolding modify_at at
modify_at-Inv f [] i h = cc
modify_at-Inv f (s ∷ ss) zero h =
    let (t, p, q) = bind-eq-ok (f s) (λ t. ok (t ∷ ss)) h in
    subst (λ ts. Inv f (s ∷ ss) zero ts) (ok-injective q) (s, t, refl, p, (refl, after_head s t ss))
modify_at-Inv f (s ∷ ss) (suc i) h =
    let (us, p, q) = bind-eq-ok (modify_at f ss i) (λ ts. ok (s ∷ ts)) h in
    let (x, t, at_i, ran, (hit, miss)) = modify_at-Inv f ss i p in
    subst (λ ts. Inv f (s ∷ ss) (suc i) ts) (ok-injective q)
      (x, t, at_i, ran, (hit, behind_head s ss us i miss))

-- The section at index `i` holds `bytes`.
abbrev pub Holds : Elf → ℕ → List ℕ → Type 0
Holds e i bytes = HasBody e.sections i (progbits bytes)

pub push_bytes_inv :
    (bytes : List ℕ) (s : Section) {t : Section}
    → push_bytes bytes s ≡ ok t
    → (old : List ℕ) × (s.body ≡ progbits old) × (t.body ≡ progbits (old ++ bytes))
unfolding push_bytes
push_bytes_inv bytes s {t} h = go s.body refl
  where
    go :
        (b : Body)
        → s.body ≡ b
        → (old : List ℕ) × (s.body ≡ progbits old) × (t.body ≡ progbits (old ++ bytes))
    go (Body.progbits old) p = (old, p, ap (λ x. x.body) (sym (ok-injective (rw p at h))))
    go (Body.strtab _) p = cc (rw p at h)
    go (Body.symtab _) p = cc (rw p at h)
    go (Body.rel _ _) p = cc (rw p at h)

-- What stands in place of bytes that an operation adds to the section at index `cur`.
abbrev pub here : ℕ → ℕ → List ℕ → List ℕ
here cur i bytes = if cur == i then bytes else []

progbits-injective : {a b : List ℕ} → Body.progbits a ≡ Body.progbits b → a ≡ b
progbits-injective h = cc

no : false ≡ true → ⊥
no h = cc

changed :
    (bytes : List ℕ) (ss ts : List Section) (cur i : ℕ) (old : List ℕ)
    → Inv (push_bytes bytes) ss cur ts
    → (s : Section) → at ss i ≡ ok s
    → s.body ≡ progbits old
    → HasBody ts i (progbits (old ++ here cur i bytes))
changed bytes ss ts cur i old (x, t, at_cur, ran, (hit, miss)) s p b =
    elim (Bool-cases (cur == i)) [
      | inl k ↦
          let same : (cur ≡ i) = (==_iff cur i).0 k in
          let there : (x ≡ s) = ok-injective (sym at_cur ∙ ap (at ss) same ∙ p) in
          let (front, q, r) = push_bytes_inv bytes x ran in
          let front_old : (front ≡ old) = progbits-injective (sym q ∙ ap (λ y. y.body) there ∙ b) in
          rw k (t, ap (at ts) (sym same) ∙ hit, r ∙ ap (λ y. Body.progbits (y ++ bytes)) front_old)
      | inr k ↦
          let apart : (i ≢ cur) = λ e. no (sym k ∙ (==_iff cur i).1 (sym e)) in
          rw (k, append-nil old) (s, miss i apart ∙ p, b)
    ]

pub add_progbits-Holds :
    (bytes : List ℕ) (e : Elf) {e' : Elf} (i : ℕ) (old : List ℕ)
    → add_progbits bytes e ≡ ok e'
    → Holds e i old
    → Holds e' i (old ++ here e.curr_section i bytes)
unfolding add_progbits
add_progbits-Holds bytes e i old h (s, p, b) =
    let (ss, m, q) =
      bind-eq-ok (modify_at (push_bytes bytes) e.sections e.curr_section)
        (λ ss. ok (record e { sections = ss })) h in
    subst (λ x. Holds x i (old ++ here e.curr_section i bytes)) (ok-injective q)
      (changed bytes e.sections ss e.curr_section i old
        (modify_at-Inv (push_bytes bytes) e.sections e.curr_section m) s p b)

-- The current section and the file header stay.
pub add_progbits-current :
    (bytes : List ℕ) (e : Elf) {e' : Elf}
    → add_progbits bytes e ≡ ok e'
    → (e'.curr_section ≡ e.curr_section) × (e'.header ≡ e.header)
unfolding add_progbits
add_progbits-current bytes e h =
    let (ss, _, q) =
      bind-eq-ok (modify_at (push_bytes bytes) e.sections e.curr_section)
        (λ ss. ok (record e { sections = ss })) h in
    (ap (λ x. x.curr_section) (sym (ok-injective q)), ap (λ x. x.header) (sym (ok-injective q)))

add_symbol_fails :
    (name : Text) (value size type bind visibility : ℕ) (e : Elf)
    → any (text_eq name) e.symbol_names ≡ true
    → (x : Error) × (add_symbol name value size type bind visibility false e ≡ err x)
unfolding add_symbol
add_symbol_fails name value size type bind visibility e h = rw h (_, refl)

other_kind :
    (k : SectionType) (ss : List Section) (i j : ℕ) (s : Section) (old : List ℕ)
    → HasKind k ss j
    → SectionType.progbits ≢ k
    → at ss i ≡ ok s
    → s.body ≡ progbits old
    → i ≢ j
unfolding section_type
other_kind k ss i j s old (t, q, l) n p b e =
    let same : (t ≡ s) = ok-injective (sym q ∙ ap (at ss) (sym e) ∙ p) in
    n (sym (ap section_type b) ∙ sym (ap (λ y. section_type y.body) same) ∙ l)

-- A symbol that is added to a valid file.
pub add_symbol_inv :
    (name : Text) (value size type bind visibility : ℕ) (e : Elf) {e' : Elf}
    → IsValid e
    → add_symbol name value size type bind visibility false e ≡ ok e'
    → (entry : Sym) × (strings : List Text) × (symbols : List Sym) × IsAdded name entry strings
        symbols e e'
add_symbol_inv name value size type bind visibility e v h =
    elim (Bool-cases (any (text_eq name) e.symbol_names)) [
      | inl k ↦ cc (sym (add_symbol_fails name value size type bind visibility e k).1 ∙ h)
      | inr k ↦
          let (x, strings, symbols, r, added) =
            add_symbol-IsAdded name value size type bind visibility e v k in
          (
            _,
            strings,
            symbols,
            subst (IsAdded name _ strings symbols e) (ok-injective (sym r ∙ h)) added,
          )
    ]

pub IsAdded-Holds :
    {name : Text} {entry : Sym} {strings : List Text} {symbols : List Sym} (e e' : Elf) (i : ℕ)
    (old : List ℕ)
    → IsValid e
    → IsAdded name entry strings symbols e e'
    → Holds e i old
    → Holds e' i old
IsAdded-Holds e e' i old v added (s, p, b) =
    let names =
      other_kind SectionType.strtab e.sections i e.strtab_idx s old v.names (λ q. cc) p b in
    let table =
      other_kind SectionType.symtab e.sections i e.curr_symtab_idx s old v.table (λ q. cc) p b in
    (s, added.others i names table ∙ p, b)

-- The index of the first of the names that is `name`, or their number.
abbrev pub index : List Text → Text → ℕ
index [] name = 0
index (n ∷ ns) name = let rest = index ns name in if text_eq n name then 0 else suc rest

pub index-section_names :
    (ss : List Section) (name : Text) → index (section_names ss) name ≡ find_section ss name
unfolding find_section
index-section_names [] name = refl
index-section_names (s ∷ ss) name =
    ap (λ k. if text_eq s.name name then 0 else suc k) (index-section_names ss name)

-- Selecting a section.
pub set_section-index :
    (name : Text) (e : Elf) {e' : Elf}
    → IsValid e
    → set_section name e ≡ ok e'
    → (e'.sections ≡ e.sections) × (e'.curr_section ≡ index (section_names e.sections) name)
unfolding set_section
set_section-index name e v h =
    let (k, q) = passed (ltb (find_section e.sections name) (length e.sections)) _ _ h in
    subst
      (λ x. (x.sections ≡ e.sections) × (x.curr_section ≡ index (section_names e.sections) name))
      (ok-injective q)
      (
        refl,
        wraps (find_section e.sections name) (length e.sections) k v.few
            ∙ sym (index-section_names e.sections name),
      )
  where
    wraps : (i n : ℕ) → ltb i n ≡ true → n < 4294967296 → u32 i ≡ i
    wraps i n h k = ground (arith, ltb→lt i n h)

pub set_section-header :
    (name : Text) (e : Elf) {e' : Elf} → set_section name e ≡ ok e' → e'.header ≡ e.header
unfolding set_section
set_section-header name e h =
    let (_, q) = passed (ltb (find_section e.sections name) (length e.sections)) _ _ h in
    ap (λ x. x.header) (sym (ok-injective q))
