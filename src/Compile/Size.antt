-- ===== src/Compile/Size.antt =====
-- src/elf.cpp, src/elf_writer.cpp: how many bytes the bodies of the sections are.
use gbas.Prelude.{
  ℕ, zero, suc, ◌+◌, ◌≡◌, sym, ◌∙◌, ap, List, [], ◌∷◌, ◌++◌, length, length-append, ltb, Text,
  arith,
}
use gbas.Result.{Result, ok, passed, bind-eq-ok, ok-injective}
use gbas.Elf.{Elf, set_section, add_progbits, push_bytes}
use gbas.Elf.Sections.{Section, modify_at, find_section}
use gbas.Elf.Places.{push_bytes_inv}
use gbas.Writer.{section_bytes, bodies_bytes}

-- The number of bytes in all sections of a file.
abbrev pub size : Elf → ℕ
size e = length (bodies_bytes e.sections)

grown_front :
    (xs ys zs : List ℕ) (k : ℕ)
    → length ys ≡ length xs + k
    → length (ys ++ zs) ≡ length (xs ++ zs) + k
grown_front xs ys zs k h = omega (arith, length-append xs zs, length-append ys zs)

grown_back :
    (xs ys zs : List ℕ) (k : ℕ)
    → length zs ≡ length ys + k
    → length (xs ++ zs) ≡ length (xs ++ ys) + k
grown_back xs ys zs k h = omega (arith, length-append xs ys, length-append xs zs)

-- A function that adds `k` bytes to every section that it admits adds them to the sections.
abbrev Grows : (Section → Result Section) → ℕ → Type 0
Grows f k =
    (s t : Section) → f s ≡ ok t → length (section_bytes t.body) ≡ length (section_bytes s.body) + k

length-modify_at :
    (f : Section → Result Section) (k : ℕ)
    → Grows f k
    → (ss : List Section) (i : ℕ) {ts : List Section} → modify_at f ss i ≡ ok ts
    → length (bodies_bytes ts) ≡ length (bodies_bytes ss) + k
unfolding modify_at bodies_bytes
length-modify_at f k grows [] i h = cc
length-modify_at f k grows (s ∷ ss) zero h =
    let (t, p, q) = bind-eq-ok (f s) (λ t. ok (t ∷ ss)) h in
    ap (λ xs. length (bodies_bytes xs)) (sym (ok-injective q))
    ∙ grown_front (section_bytes s.body) (section_bytes t.body) (bodies_bytes ss) k (grows s t p)
length-modify_at f k grows (s ∷ ss) (suc i) h =
    let (us, p, q) = bind-eq-ok (modify_at f ss i) (λ ts. ok (s ∷ ts)) h in
    ap (λ xs. length (bodies_bytes xs)) (sym (ok-injective q))
    ∙ grown_back (section_bytes s.body) (bodies_bytes ss) (bodies_bytes us) k
        (length-modify_at f k grows ss i p)

push_bytes-Grows : (bytes : List ℕ) → Grows (push_bytes bytes) (length bytes)
unfolding section_bytes
push_bytes-Grows bytes s t h =
    let (old, p, q) = push_bytes_inv bytes s h in
    ap (λ b. length (section_bytes b)) q
    ∙ length-append old bytes
    ∙ ap (λ b. length (section_bytes b) + length bytes) (sym p)

pub add_progbits-size :
    (bytes : List ℕ) (e : Elf) {e' : Elf}
    → add_progbits bytes e ≡ ok e'
    → size e' ≡ size e + length bytes
unfolding add_progbits
add_progbits-size bytes e h =
    let (ss, m, q) =
      bind-eq-ok (modify_at (push_bytes bytes) e.sections e.curr_section)
        (λ ss. ok (record e { sections = ss })) h in
    ap size (sym (ok-injective q))
    ∙ length-modify_at (push_bytes bytes) (length bytes) (push_bytes-Grows bytes) e.sections
        e.curr_section m

pub set_section-size :
    (name : Text) (e : Elf) {e' : Elf} → set_section name e ≡ ok e' → size e' ≡ size e
unfolding set_section
set_section-size name e h =
    let (_, q) = passed (ltb (find_section e.sections name) (length e.sections)) _ _ h in
    ap size (sym (ok-injective q))
