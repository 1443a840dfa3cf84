-- ===== src/Elf/Valid.antt =====
-- src/elf.cpp: the invariant of an object file, by which no operation meets a wrong section.
use gbas.Prelude.{
  ℕ, zero, suc, ◌<◌, ◌≡◌, ◌≢◌, refl, sym, ◌∙◌, ap, Bool, Bool-cases, false, true, List, [], ◌∷◌,
  length, ltb, ltb→lt, any, if_both, inl, inr, ◌⊎◌, codes, Text, text_eq, arith,
}
use gbas.Result.{Error, Result, ok, err, elf_exception, Post, returns, raises, ok-injective}
use gbas.Elf.Sections.{
  Section, SectionType, section_type, Body, at, modify_at, find_section, u32, Sym,
}
use gbas.Elf.{Elf, set_section, add_progbits, add_symbol, push_bytes, new_symbol}
use gbas.Elf.Extends.{Longer, Extends, none, more, Kept, add_progbits-Kept, add_symbol-Kept}
use gbas.Elf.Update.{modify_at-Updated, add_symbol_lem, IsAdded}

-- The section at an index is of a kind.
abbrev pub HasKind : SectionType → List Section → ℕ → Type 0
HasKind k ss i = (s : Section) × (at ss i ≡ ok s) × (section_type s.body ≡ k)

-- The tables of strings and symbols are such tables, and there is a current section.
pub record IsValid (e : Elf) : Type 0 where
  pub names : HasKind SectionType.strtab e.sections e.strtab_idx
  pub table : HasKind SectionType.symtab e.sections e.curr_symtab_idx
  pub current : e.curr_section < length e.sections
  pub few : length e.sections < 4294967296

kind_of_Longer : {b c : Body} → Longer b c → section_type c ≡ section_type b
unfolding section_type
kind_of_Longer (Longer.progbits a b) = refl
kind_of_Longer (Longer.strtab a b) = refl
kind_of_Longer (Longer.symtab a b) = refl
kind_of_Longer (Longer.rel other a b) = refl

HasKind-Extends :
    {ss ts : List Section} (k : SectionType) (i : ℕ)
    → Extends ss ts
    → HasKind k ss i
    → HasKind k ts i
unfolding at
HasKind-Extends k i none h = h
HasKind-Extends k zero (more {s} {t} g x) (s', p, q) =
    (t, refl, kind_of_Longer g.1 ∙ ap (λ y. section_type y.body) (ok-injective p) ∙ q)
HasKind-Extends k (suc i) (more g x) h = HasKind-Extends k i x h

pub length-Extends : {ss ts : List Section} → Extends ss ts → length ts ≡ length ss
length-Extends none = refl
length-Extends (more g x) = ap suc (length-Extends x)

-- What keeps the sections and a current section keeps the invariant.
Kept-IsValid :
    (e e' : Elf) → Kept e e' → IsValid e → e'.curr_section < length e.sections → IsValid e'
Kept-IsValid e e' (x, _, strings, symbols) v current = record {
  names = rw strings (HasKind-Extends SectionType.strtab e.strtab_idx x v.names);
  table = rw symbols (HasKind-Extends SectionType.symtab e.curr_symtab_idx x v.table);
  current = rw (length-Extends x) current;
  few = rw (length-Extends x) v.few;
}

at-ok : (ss : List Section) (i : ℕ) → i < length ss → (s : Section) × (at ss i ≡ ok s)
unfolding at
at-ok [] i h = absurd (omega arith)
at-ok (s ∷ ss) zero h = (s, refl)
at-ok (s ∷ ss) (suc i) h = at-ok ss i (omega arith)

abbrev pub IsElfError : Error → Type 0
IsElfError (elf_exception _) = Unit
IsElfError _ = ⊥

abbrev pub Safe : Result Elf → Type 0
Safe r = Post IsValid IsElfError r

pub set_section-Safe : (name : Text) (e : Elf) → IsValid e → Safe (set_section name e)
unfolding set_section
set_section-Safe name e v =
    if_both Safe (ltb (find_section e.sections name) (length e.sections))
      (λ k. returns (record {
        names = v.names;
        table = v.table;
        current = wraps (find_section e.sections name) (length e.sections) k;
        few = v.few;
      }))
      (λ _. raises tt)
  where
    wraps : (i n : ℕ) → ltb i n ≡ true → u32 i < n
    wraps i n h = ground (arith, ltb→lt i n h)

pub modify_at-err :
    (f : Section → Result Section) (ss : List Section) (i : ℕ) {s : Section} {x : Error}
    → at ss i ≡ ok s
    → f s ≡ err x
    → modify_at f ss i ≡ err x
unfolding modify_at at
modify_at-err f [] i h k = cc
modify_at-err f (s ∷ ss) zero h k = rw (ok-injective h, k) refl
modify_at-err f (s ∷ ss) (suc i) h k = rw (modify_at-err f ss i h k) refl

abbrev not_progbits : Error
not_progbits = elf_exception (codes "Attempted to add PROGBITS to non-PROGBITS section")

push_bytes-cases :
    (bytes : List ℕ) (s : Section) (b : Body)
    → s.body ≡ b
    → ((t : Section) × (push_bytes bytes s ≡ ok t)) ⊎ (push_bytes bytes s ≡ err not_progbits)
unfolding push_bytes
push_bytes-cases bytes s (Body.progbits _) p = inl (rw p (_, refl))
push_bytes-cases bytes s (Body.strtab _) p = inr (rw p refl)
push_bytes-cases bytes s (Body.symtab _) p = inr (rw p refl)
push_bytes-cases bytes s (Body.rel _ _) p = inr (rw p refl)

add_progbits_ok :
    (bytes : List ℕ) (e : Elf) {e' : Elf}
    → IsValid e
    → add_progbits bytes e ≡ ok e'
    → e'.curr_section ≡ e.curr_section
    → Safe (add_progbits bytes e)
add_progbits_ok bytes e {e'} v h c =
    rw h (returns (Kept-IsValid e e' (add_progbits-Kept bytes e h).0 v (rw c v.current)))

add_progbits_run :
    (bytes : List ℕ) (e : Elf) (s : Section) (ts : List Section)
    → modify_at (push_bytes bytes) e.sections e.curr_section ≡ ok ts
    → add_progbits bytes e ≡ ok (record e { sections = ts })
unfolding add_progbits
add_progbits_run bytes e s ts p = rw p refl

add_progbits_fail :
    (bytes : List ℕ) (e : Elf) {x : Error}
    → modify_at (push_bytes bytes) e.sections e.curr_section ≡ err x
    → add_progbits bytes e ≡ err x
unfolding add_progbits
add_progbits_fail bytes e p = rw p refl

pub add_progbits-Safe : (bytes : List ℕ) (e : Elf) → IsValid e → Safe (add_progbits bytes e)
add_progbits-Safe bytes e v =
    let (s, p) = at-ok e.sections e.curr_section v.current in
    elim (push_bytes-cases bytes s s.body refl) [
      | inl q ↦
          let (ts, m, _) = modify_at-Updated (push_bytes bytes) e.sections e.curr_section p q.1 in
          add_progbits_ok bytes e v (add_progbits_run bytes e s ts m) refl
      | inr q ↦
          rw
            (add_progbits_fail bytes e
              (modify_at-err (push_bytes bytes) e.sections e.curr_section p q))
            (raises tt)
    ]

tables_apart : (e : Elf) → IsValid e → e.strtab_idx ≢ e.curr_symtab_idx
tables_apart e v h =
    let (s, p, k) = v.names in
    let (t, q, l) = v.table in
    let same : (s ≡ t) = ok-injective (sym p ∙ ap (λ i. at e.sections i) h ∙ q) in cc

strtab_body :
    (b : Body)
    → section_type b ≡ SectionType.strtab
    → (strings : List Text) × (b ≡ Body.strtab strings)
unfolding section_type
strtab_body (Body.strtab strings) h = (strings, refl)
strtab_body (Body.progbits _) h = cc
strtab_body (Body.symtab _) h = cc
strtab_body (Body.rel _ _) h = cc

symtab_body :
    (b : Body)
    → section_type b ≡ SectionType.symtab
    → (symbols : List Sym) × (b ≡ Body.symtab symbols)
unfolding section_type
symtab_body (Body.symtab symbols) h = (symbols, refl)
symtab_body (Body.progbits _) h = cc
symtab_body (Body.strtab _) h = cc
symtab_body (Body.rel _ _) h = cc

add_symbol-twice :
    (name : Text) (value size type bind visibility : ℕ) (b : Bool) (e : Elf)
    → any (text_eq name) e.symbol_names ≡ true
    → Safe (add_symbol name value size type bind visibility b e)
unfolding add_symbol
add_symbol-twice name value size type bind visibility b e h = rw h (raises tt)

-- A new name is added to the tables of a valid file.
pub add_symbol-IsAdded :
    (name : Text) (value size type bind visibility : ℕ) (e : Elf)
    → IsValid e
    → any (text_eq name) e.symbol_names ≡ false
    → (e' : Elf) × (strings : List Text) × (symbols : List Sym) × (add_symbol name value size type
          bind visibility false e
        ≡ ok e')
      × IsAdded name
          (new_symbol (u32 (length strings)) value size type bind visibility e)
          strings
          symbols
          e
          e'
add_symbol-IsAdded name value size type bind visibility e v k =
    let (s, p, l) = v.names in
    let (t, q, m) = v.table in
    let (strings, b) = strtab_body s.body l in
    let (symbols, c) = symtab_body t.body m in
    let (e', r, added) =
      add_symbol_lem name value size type bind visibility e s t strings symbols k (tables_apart e v)
        p b q c in
    (e', strings, symbols, r, added)

pub add_symbol-Safe :
    (name : Text) (value size type bind visibility : ℕ) (e : Elf)
    → IsValid e
    → Safe (add_symbol name value size type bind visibility false e)
add_symbol-Safe name value size type bind visibility e v =
    elim (Bool-cases (any (text_eq name) e.symbol_names)) [
      | inl k ↦ add_symbol-twice name value size type bind visibility false e k
      | inr k ↦
          let (e', _, _, r, added) =
            add_symbol-IsAdded name value size type bind visibility e v k in
          rw r (
            returns (
              Kept-IsValid e e' (add_symbol-Kept name value size type bind visibility false e r).0 v
                (rw added.current v.current)))
    ]
