-- ===== src/Elf/Names.antt =====
-- src/elf.cpp: the names of the sections of a file are distinct.
use gbas.Prelude.{
  ℕ, suc, ◌≡◌, refl, sym, ◌∙◌, ap, ap₂, Bool, Bool-cases, true, false, if◌then◌else◌, subst,
  append_assoc, eq_of_text_eq, List, [], ◌∷◌, ◌++◌, any, length, ltb, inl, inr, Text, codes,
  text_eq, arith,
}
use gbas.Result.{ok, bind-eq-ok, ok-injective}
use gbas.Elf.Sections.{Section, find_section, push_string, modify_at}
use gbas.Elf.{Elf, add_section, add_name, rel_section}
use gbas.Elf.Extends.{Extends, none, more, modify_at-Extends, push_string-Grows}

abbrev pub section_names : List Section → List Text
section_names [] = []
section_names (s ∷ ss) = s.name ∷ section_names ss

-- No name stands twice.
abbrev pub Distinct : List Text → Type 0
Distinct [] = Unit
Distinct (name ∷ names) = (any (text_eq name) names ≡ false) × Distinct names

pub section_names-Extends :
    {ss ts : List Section} → Extends ss ts → section_names ss ≡ section_names ts
section_names-Extends none = refl
section_names-Extends (more g h) = ap₂ (◌∷◌) g.0 (section_names-Extends h)

any-append :
    (p : Text → Bool) (xs : List Text) (y : Text)
    → any p xs ≡ false
    → p y ≡ false
    → any p (xs ++ y ∷ []) ≡ false
any-append p [] y h k = rw k refl
any-append p (x ∷ xs) y h k = elim (Bool-cases (p x)) [
  | inl l ↦ cc (rw l at h)
  | inr l ↦ rw l (any-append p xs y (rw l at h) k)
]

append-Distinct :
    (names : List Text) (name : Text)
    → Distinct names
    → any (λ x. text_eq x name) names ≡ false
    → Distinct (names ++ name ∷ [])
append-Distinct [] name d h = (refl, tt)
append-Distinct (x ∷ names) name d h = elim (Bool-cases (text_eq x name)) [
  | inl k ↦ cc (rw k at h)
  | inr k ↦ (any-append (text_eq x) names name d.0 k, append-Distinct names name d.1 (rw k at h))
]

-- `find_section` returns the number of sections only if none has the name.
find_section-any :
    (ss : List Section) (name : Text)
    → ltb (find_section ss name) (length ss) ≡ false
    → any (λ x. text_eq x name) (section_names ss) ≡ false
unfolding find_section
find_section-any [] name h = refl
find_section-any (s ∷ ss) name h = elim (Bool-cases (text_eq s.name name)) [
  | inl k ↦ absurd (first (length ss) (rw k at h))
  | inr k ↦ rw k (find_section-any ss name (later (find_section ss name) (length ss) (rw k at h)))
]
  where
    later : (a b : ℕ) → ltb (suc a) (suc b) ≡ false → ltb a b ≡ false
    later a b h = ground arith

    first : (n : ℕ) → ltb 0 (suc n) ≡ false → ⊥
    first n h = ground arith

section_names-append :
    (ss : List Section) (s : Section)
    → section_names (ss ++ s ∷ []) ≡ section_names ss ++ s.name ∷ []
section_names-append [] s = refl
section_names-append (x ∷ ss) s = ap (◌∷◌ x.name) (section_names-append ss s)

section_names-add_name :
    (s : Section) (e : Elf) {t : Section} {e' : Elf}
    → add_name s e ≡ ok (t, e')
    → (t.name ≡ s.name) × (section_names e'.sections ≡ section_names e.sections)
unfolding add_name
section_names-add_name s e {t} {e'} h = elim (Bool-cases (text_eq s.name (codes "shstrtab"))) [
  | inl k ↦
      let (m, p, q) = bind-eq-ok (push_string s.name s) _ (rw k at h) in
      let r = ok-injective q in
      (
        ap (λ x. x.0.name) (sym r) ∙ sym (push_string-Grows s.name s.body s m refl p).0,
        ap (λ x. section_names x.1.sections) (sym r),
      )
  | inr k ↦
      let (ss, p, q) =
        bind-eq-ok (modify_at (push_string s.name) e.sections e.shstrtab_idx) _ (rw k at h) in
      let r = ok-injective q in
      (
        ap (λ x. x.0.name) (sym r),
        ap (λ x. section_names x.1.sections) (sym r)
            ∙ sym (
                section_names-Extends (
                  modify_at-Extends (push_string s.name) e.sections e.shstrtab_idx
                    (λ x y. push_string-Grows s.name x.body x y refl) p)),
      )
]

-- The names that a new section brings: its own, and that of its section of relocations.
abbrev pub new_section_names : Bool → Text → List Text
new_section_names false name = name ∷ []
new_section_names true name = name ∷ (codes "rel" ++ name) ∷ []

rel_name : (name : Text) → text_eq name (codes "rel" ++ name) ≡ false
rel_name name = elim (Bool-cases (text_eq name (codes "rel" ++ name))) [
  | inl k ↦ absurd (longer (eq_of_text_eq name (codes "rel" ++ name) k))
  | inr k ↦ k
]
  where
    longer : name ≡ codes "rel" ++ name → ⊥
    longer h = let same = ap (λ x. length x) h in omega arith

append_new-Distinct :
    (relocatable : Bool) (names : List Text) (name : Text)
    → Distinct names
    → any (λ x. text_eq x name) names ≡ false
    → any (λ x. text_eq x (codes "rel" ++ name)) names ≡ false
    → Distinct (names ++ new_section_names relocatable name)
append_new-Distinct false names name d h k = append-Distinct names name d h
append_new-Distinct true names name d h k =
    subst Distinct (append_assoc names (name ∷ []) ((codes "rel" ++ name) ∷ [])) (
      append-Distinct (names ++ name ∷ []) (codes "rel" ++ name) (append-Distinct names name d h)
        (any-append (λ x. text_eq x (codes "rel" ++ name)) names name k (rel_name name)))

section_names-new :
    (relocatable : Bool) (ss : List Section) (t : Section) {name : Text} {names : List Text}
    → t.name ≡ name
    → section_names ss ≡ names
    → section_names (if relocatable then (ss ++ t ∷ []) ++ rel_section name ∷ [] else ss ++ t ∷ [])
      ≡ names ++ new_section_names relocatable name
section_names-new false ss t p q = section_names-append ss t ∙ ap₂ (λ ns n. ns ++ n ∷ []) q p
section_names-new true ss t {name} {names} p q =
    section_names-append (ss ++ t ∷ []) (rel_section name)
    ∙ ap (λ ns. ns ++ (codes "rel" ++ name) ∷ [])
        (section_names-append ss t ∙ ap₂ (λ ns n. ns ++ n ∷ []) q p)
    ∙ append_assoc names (name ∷ []) ((codes "rel" ++ name) ∷ [])

-- Let the names of the sections of a file be distinct and none be that of the relocations of a
-- new section. If the section is added, the names are the old ones and behind them the new one,
-- with that of its section of relocations if it has one, and they are distinct.
pub add_section-Distinct :
    (s : Section) (relocatable : Bool) (e : Elf) {e' : Elf}
    → Distinct (section_names e.sections)
    → ltb (find_section e.sections (codes "rel" ++ s.name)) (length e.sections) ≡ false
    → add_section s relocatable e ≡ ok e'
    → (section_names e'.sections ≡ section_names e.sections ++ new_section_names relocatable s.name)
      × Distinct (section_names e'.sections)
unfolding add_section
add_section-Distinct s relocatable e d fresh h =
    elim (Bool-cases (ltb (find_section e.sections s.name) (length e.sections))) [
      | inl k ↦ cc (rw k at h)
      | inr k ↦
          let (p, q, r) = bind-eq-ok (add_name s e) _ (rw k at h) in
          let (same, kept) = section_names-add_name s e q in
          let names =
            ap (λ x. section_names x.sections) (sym (ok-injective r))
            ∙ section_names-new relocatable p.1.sections p.0 same kept in
          (
            names,
            rw names (
                append_new-Distinct relocatable (section_names e.sections) s.name d
                  (find_section-any e.sections s.name k)
                  (find_section-any e.sections (codes "rel" ++ s.name) fresh)),
          )
    ]
