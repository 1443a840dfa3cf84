-- ===== src/Writer/Offsets.antt =====
-- src/elf_writer.cpp: the offsets and sizes of the section headers.
use gbas.Prelude.{
  ℕ, zero, suc, ◌+◌, ◌*◌, ◌<◌, ◌≡◌, refl, sym, ◌∙◌, ap, subst, List, [], ◌∷◌, ◌++◌, append_assoc,
  length, length-append, drop-append, take-append, drop, take, Text, arith,
}
use gbas.Result.{ok, ok-injective}
use gbas.Elf.Sections.{
  Sym, Rel, Section, Body, progbits, strtab, symtab, rel, section_size, strings_size, at, u32,
}
use gbas.Elf.{Elf, Ehdr}
use gbas.Writer.{
  shdr_bytes, ehdr_bytes, strings_bytes, symbols_bytes, relocations_bytes, section_bytes, lay_out,
  sections_offset, laid_out, headers_bytes, bodies_bytes, zeros, front, write, written,
  swap_headers, ehdr_fields, swap_elf_header, filled_header,
}

length-strings_bytes : (ss : List Text) → length (strings_bytes ss) ≡ strings_size ss
unfolding strings_bytes strings_size
length-strings_bytes [] = refl
length-strings_bytes (s ∷ ss) =
    omega (arith, length-append s (0 ∷ strings_bytes ss), length-strings_bytes ss)

length-symbols_bytes : (ss : List Sym) → length (symbols_bytes ss) ≡ 16 * length ss
unfolding symbols_bytes
length-symbols_bytes [] = refl
length-symbols_bytes (s ∷ ss) = omega (arith, length-symbols_bytes ss)

length-relocations_bytes : (rs : List Rel) → length (relocations_bytes rs) ≡ 8 * length rs
unfolding relocations_bytes
length-relocations_bytes [] = refl
length-relocations_bytes (r ∷ rs) = omega (arith, length-relocations_bytes rs)

-- `size()` is the number of bytes that `write` writes for a section.
pub length-section_bytes : (b : Body) → length (section_bytes b) ≡ section_size b
unfolding section_bytes section_size
length-section_bytes (progbits bytes) = refl
length-section_bytes (strtab strings) = length-strings_bytes strings
length-section_bytes (symtab symbols) = length-symbols_bytes symbols
length-section_bytes (rel _ relocations) = length-relocations_bytes relocations

length-lay_out : (ss : List Section) (name offset : ℕ) → length (lay_out name offset ss) ≡ length ss
unfolding lay_out
length-lay_out [] name offset = refl
length-lay_out (s ∷ ss) name offset =
    ap suc (length-lay_out ss (name + (length s.name + 1)) (offset + section_size s.body))

length-headers_bytes : (ss : List Section) → length (headers_bytes ss) ≡ 40 * length ss
unfolding headers_bytes shdr_bytes
length-headers_bytes [] = refl
length-headers_bytes (s ∷ ss) = omega (arith, length-headers_bytes ss)

abbrev Holds : Section → List ℕ → Type 0
Holds s file = take s.header.sh_size (drop s.header.sh_offset file) ≡ section_bytes s.body

wraps : (n : ℕ) → n < 4294967296 → u32 n ≡ n
wraps n h = omega arith

abbrev placed : Section → ℕ → ℕ → Section
placed x name offset = record x {
  header = record x.header {
    sh_name = u32 name;
    sh_size = u32 (section_size x.body);
    sh_offset = u32 offset;
  };
}

placed-Holds :
    (x : Section) (name : ℕ) (before rest : List ℕ)
    → length (before ++ (section_bytes x.body ++ rest)) < 4294967296
    → Holds (placed x name (length before)) (before ++ (section_bytes x.body ++ rest))
placed-Holds x name before rest small =
    let bytes = section_bytes x.body in
    let e : (length (section_bytes x.body) ≡ section_size x.body) = length-section_bytes x.body in
    let a : (length (before ++ (section_bytes x.body ++ rest))
        ≡ length before + length (section_bytes x.body ++ rest)) =
      length-append before (bytes ++ rest) in
    let b : (length (section_bytes x.body ++ rest) ≡ length (section_bytes x.body) + length rest) =
      length-append bytes rest in
    let o : (u32 (length before) ≡ length before) = wraps (length before) (omega arith) in
    let n : (u32 (section_size x.body) ≡ length (section_bytes x.body)) =
      wraps (section_size x.body) (omega arith) ∙ sym e in
    rw (o, n, drop-append before (bytes ++ rest)) (take-append bytes rest)

lay_out-Holds :
    (ss : List Section) (name : ℕ) (before : List ℕ) (i : ℕ) {s : Section}
    → at (lay_out name (length before) ss) i ≡ ok s
    → length (before ++ bodies_bytes ss) < 4294967296
    → Holds s (before ++ bodies_bytes ss)
unfolding at lay_out bodies_bytes
lay_out-Holds [] name before i h small = cc
lay_out-Holds (x ∷ ss) name before zero h small =
    subst (λ t. Holds t (before ++ (section_bytes x.body ++ bodies_bytes ss))) (ok-injective h)
      (placed-Holds x name before (bodies_bytes ss) small)
lay_out-Holds (x ∷ ss) name before (suc i) h small =
    let next = before ++ section_bytes x.body in
    let e : (length before + section_size x.body ≡ length (before ++ section_bytes x.body)) = sym (
      length-append before (section_bytes x.body)
      ∙ ap (λ n. length before + n) (length-section_bytes x.body)) in
    let split : (before ++ (section_bytes x.body ++ bodies_bytes ss)
        ≡ (before ++ section_bytes x.body) ++ bodies_bytes ss) =
      sym (append_assoc before (section_bytes x.body) (bodies_bytes ss)) in
    rw split (lay_out-Holds ss (name + (length x.name + 1)) next i (rw e at h) (rw split at small))

pub length-ehdr_bytes : (h : Ehdr) → length h.e_ident ≡ 16 → length (ehdr_bytes h) ≡ 52
unfolding ehdr_bytes ehdr_fields
length-ehdr_bytes h p = length-append h.e_ident (ehdr_fields h) ∙ omega (arith, p)

length-swap_headers : (ss : List Section) → length (swap_headers ss) ≡ length ss
unfolding swap_headers
length-swap_headers [] = refl
length-swap_headers (s ∷ ss) = ap suc (length-swap_headers ss)

pub length-front :
    (e : Elf) → length e.header.e_ident ≡ 16 → length (front e) ≡ sections_offset e.sections
unfolding front written laid_out swap_elf_header filled_header
length-front e p =
    let ss = lay_out 1 (sections_offset e.sections) e.sections in
    let swapped = swap_headers (lay_out 1 (sections_offset e.sections) e.sections) in
    let head = swap_elf_header (filled_header e) in
    length-append (ehdr_bytes head) (zeros 40 ++ headers_bytes swapped)
    ∙ omega (
      arith,
      length-append (zeros 40) (headers_bytes swapped),
      length-ehdr_bytes head p,
      length-headers_bytes swapped,
      length-swap_headers ss,
      length-lay_out e.sections 1 (sections_offset e.sections),
    )

-- Let the identification of a file have 16 bytes and the file that is written fewer than 2 ^ 32.
-- Then for every section the bytes at the offset and of the size that its header gives are those
-- of the section.
pub write-Holds :
    (e : Elf) (i : ℕ) (s : Section)
    → length e.header.e_ident ≡ 16
    → length (write e) < 4294967296
    → at (laid_out e.sections) i ≡ ok s
    → take s.header.sh_size (drop s.header.sh_offset (write e)) ≡ section_bytes s.body
unfolding write laid_out
write-Holds e i s p small h =
    let l : (sections_offset e.sections ≡ length (front e)) = sym (length-front e p) in
    lay_out-Holds e.sections 1 (front e) i {s = s} (rw l at h) small
