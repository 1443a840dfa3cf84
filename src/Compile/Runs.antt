-- ===== src/Compile/Runs.antt =====
-- src/assembler.cpp, src/elf.cpp: machine code is put into the sections of bytes without a refusal.
use gbas.Prelude.{
  ℕ, suc, ◌<◌, ◌≡◌, refl, sym, ◌∙◌, ap, subst, Bool, true, List, [], ◌∷◌, length, ltb, lt→ltb,
  if◌then◌else◌, Text, text_eq, arith,
}
use gbas.Result.{Result, ok, Post, Post-ok}
use gbas.Elf.{Elf, set_section, add_progbits, push_bytes}
use gbas.Elf.Sections.{Section, find_section, progbits}
use gbas.Elf.Names.{section_names, section_names-Extends}
use gbas.Elf.Extends.{add_progbits-Kept}
use gbas.Elf.Update.{HasBody, modify_at-Updated, push_bytes_lem}
use gbas.Elf.Valid.{IsValid, IsElfError, set_section-Safe, add_progbits-Safe}
use gbas.Elf.Places.{
  Holds, index, index-section_names, set_section-index, add_progbits-Holds, add_progbits-current,
}
use gbas.Compile.Image.{new_names}
use gbas.Compile.Machine.{IsByteSection, data_, rodata, bss, text, init}

-- A file with the sections of a new one, of which the one at `cur` is selected.
pub record Ready (e : Elf) (cur : ℕ) : Type 0 where
  pub valid : IsValid e
  pub names : section_names e.sections ≡ new_names
  pub current : e.curr_section ≡ cur
  pub held : (name : Text) (i : ℕ) → IsByteSection name i → (old : List ℕ) × Holds e i old

add_progbits_runs :
    (bytes old : List ℕ) (e : Elf)
    → Holds e e.curr_section old
    → (e' : Elf) × (add_progbits bytes e ≡ ok e')
unfolding add_progbits
add_progbits_runs bytes old e (s, p, b) =
    let (ts, m, _) =
      modify_at-Updated (push_bytes bytes) e.sections e.curr_section p
        (push_bytes_lem bytes old s b) in
    (record e { sections = ts }, rw m refl)

-- Adding bytes to a section of bytes leaves the file ready.
pub add_progbits-Ready :
    (bytes : List ℕ) (e : Elf) (name : Text) (cur : ℕ)
    → IsByteSection name cur
    → Ready e cur
    → (e' : Elf) × (add_progbits bytes e ≡ ok e') × Ready e' cur
add_progbits-Ready bytes e name cur b r =
    let (old, h) = r.held name cur b in
    let (e', run) = add_progbits_runs bytes old e (subst (λ i. Holds e i old) (sym r.current) h) in
    let (extends, _, _, _) = (add_progbits-Kept bytes e run).0 in
    (
      e',
      run,
      record {
        valid =
            Post-ok
              (subst (λ x. Post IsValid IsElfError x) run (add_progbits-Safe bytes e r.valid));
        names = sym (section_names-Extends extends) ∙ r.names;
        current = (add_progbits-current bytes e run).0 ∙ r.current;
        held = λ other i c.
            let (old, h) = r.held other i c in (_, add_progbits-Holds bytes e i old run h);
      },
    )

accepted :
    (b : Bool) (e : Elf) (r : Result Elf)
    → b ≡ true
    → (e' : Elf) × ((if b then ok e else r) ≡ ok e')
accepted b e r h = (e, rw h refl)

set_section_runs :
    (name : Text) (e : Elf)
    → find_section e.sections name < length e.sections
    → (e' : Elf) × (set_section name e ≡ ok e')
unfolding set_section
set_section_runs name e h =
    accepted (ltb (find_section e.sections name) (length e.sections)) _ _ (lt→ltb _ _ h)

-- The sections of bytes are found.
pub index-new_names :
    {name : Text} {i : ℕ} → IsByteSection name i → (index new_names name ≡ i) × (i < 8)
unfolding text_eq
index-new_names data_ = (refl, omega arith)
index-new_names rodata = (refl, omega arith)
index-new_names bss = (refl, omega arith)
index-new_names text = (refl, omega arith)
index-new_names init = (refl, omega arith)

length-section_names : (ss : List Section) → length (section_names ss) ≡ length ss
length-section_names [] = refl
length-section_names (s ∷ ss) = ap suc (length-section_names ss)

pub set_section-Ready :
    (e : Elf) (name : Text) (cur i : ℕ)
    → IsByteSection name i
    → Ready e cur
    → (e' : Elf) × (set_section name e ≡ ok e') × Ready e' i
set_section-Ready e name cur i b r =
    let (there, below) = index-new_names b in
    let found : (find_section e.sections name ≡ i) =
      sym (index-section_names e.sections name) ∙ ap (λ names. index names name) r.names ∙ there in
    let many : (length e.sections ≡ 8) =
      sym (length-section_names e.sections) ∙ ap (λ names. length names) r.names in
    let (e', run) = set_section_runs name e (rw (found, many) below) in
    let (same, current) = set_section-index name e r.valid run in
    (
      e',
      run,
      record {
        valid =
            Post-ok (subst (λ x. Post IsValid IsElfError x) run (set_section-Safe name e r.valid));
        names = ap section_names same ∙ r.names;
        current = current ∙ ap (λ names. index names name) r.names ∙ there;
        held = λ other j c.
            let (old, h) = r.held other j c in
            (old, subst (λ ss. HasBody ss j (progbits old)) (sym same) h);
      },
    )
