-- ===== src/Reader/Entry.antt =====
-- The headers of a file, read with the highest byte of each number first as a new file declares, and
-- the bytes that they give to a section.
use gbas.Prelude.{
  ℕ, zero, suc, ◌+◌, ◌*◌, ◌<◌, ◌≡◌, refl, sym, ◌∙◌, ap, ap₂, subst, List, [], ◌∷◌, ◌++◌,
  append_assoc, length, take, drop, drop-drop, arith,
}
use gbas.Result.{Result, ok, ok-injective}
use gbas.Words.{swap16, swap32, swap32-swap32}
use gbas.Elf.Sections.{Shdr, Section, at}
use gbas.Elf.{Ehdr, Elf}
use gbas.Writer.{
  shdr_bytes, swap_section_header, swap_elf_header, filled_header, laid_out, lay_out, swap_headers,
  headers_bytes, bodies_bytes, write,
}
use gbas.Reader.{decode_ehdr, decode_shdr}
use gbas.Reader.Headers.{decode_shdr-shdr_bytes}
use gbas.Reader.Refuses.{read_header}
use gbas.Reader.Written.{swapped-ShdrFits, table_of_write}

abbrev pub file_header : List ℕ → Ehdr
file_header file = swap_elf_header (decode_ehdr (take 52 file))

-- The entry of the table at an index.
abbrev pub entry : List ℕ → ℕ → Shdr
entry file i =
    let place = (file_header file).e_shoff + (file_header file).e_shentsize * i in
    swap_section_header (decode_shdr (take 40 (drop place file)))

-- The table has an entry at the index, and it gives these bytes of the file.
abbrev pub Contains : List ℕ → ℕ → List ℕ → Type 0
Contains file i bytes =
    (i < (file_header file).e_shnum)
    × (take (entry file i).sh_size (drop (entry file i).sh_offset file) ≡ bytes)

shdr_bytes-first :
    (h : Shdr) (rest : List ℕ) (n : ℕ) → drop (40 + n) (shdr_bytes h ++ rest) ≡ drop n rest
unfolding shdr_bytes
shdr_bytes-first h rest n = sym (drop-drop n 40 (shdr_bytes h ++ rest))

-- The bytes of the header at an index.
headers_bytes-at :
    (ss : List Section) (i : ℕ) (rest : List ℕ) {s : Section}
    → at ss i ≡ ok s
    → take 40 (drop (40 * i) (headers_bytes ss ++ rest)) ≡ shdr_bytes s.header
unfolding headers_bytes at
headers_bytes-at [] i rest h = cc
headers_bytes-at (s ∷ ss) zero rest h = ap (λ x. shdr_bytes x.header) (ok-injective h)
headers_bytes-at (s ∷ ss) (suc i) rest h =
    let next : (40 * suc i ≡ 40 + 40 * i) = omega arith in
    ap₂ (λ n xs. take 40 (drop n xs)) next
      (append_assoc (shdr_bytes s.header) (headers_bytes ss) rest)
    ∙ ap (take 40) (shdr_bytes-first s.header (headers_bytes ss ++ rest) (40 * i))
    ∙ headers_bytes-at ss i rest h

at-swap_headers :
    (ss : List Section) (i : ℕ) {s : Section}
    → at ss i ≡ ok s
    → at (swap_headers ss) i ≡ ok (record s { header = swap_section_header s.header })
unfolding swap_headers at
at-swap_headers [] i h = cc
at-swap_headers (s ∷ ss) zero h =
    ap {A = Section} {B = Result Section}
      (λ x. ok (record x { header = swap_section_header x.header })) (ok-injective h)
at-swap_headers (s ∷ ss) (suc i) h = at-swap_headers ss i h

abbrev Small : Section → Type 0
Small t = (t.header.sh_size < 4294967296) × (t.header.sh_offset < 4294967296)

lay_out-Small :
    (ss : List Section) (name offset i : ℕ) {t : Section}
    → at (lay_out name offset ss) i ≡ ok t
    → Small t
unfolding lay_out at
lay_out-Small [] name offset i h = cc
lay_out-Small (s ∷ ss) name offset zero h = subst Small (ok-injective h) (omega arith, omega arith)
lay_out-Small (s ∷ ss) name offset (suc i) h = lay_out-Small ss _ _ i h

-- The entry behind the null header, of a file whose header is as a new file's.
abbrev pub IsPlain : Elf → ℕ → Type 0
IsPlain e n = (length e.header.e_ident ≡ 16) × (e.header.e_shentsize ≡ 40) × (length e.sections ≡ n)

write-header :
    (e : Elf)
    → IsPlain e 8
    → ((file_header (write e)).e_shoff ≡ 52)
      × ((file_header (write e)).e_shentsize ≡ 40)
      × ((file_header (write e)).e_shnum ≡ 8)
unfolding swap_elf_header filled_header swap16 swap32
write-header e (ident, entry_size, count) =
    let same = ap swap_elf_header (read_header e ident) in
    (
      ap (λ h. h.e_shoff) same,
      ap (λ h. h.e_shentsize) same ∙ (rw entry_size refl),
      ap (λ h. h.e_shnum) same ∙ (rw count refl),
    )

entry-write :
    (e : Elf) (i : ℕ) {t : Section}
    → IsPlain e 8
    → at (laid_out e.sections) i ≡ ok t
    → entry (write e) (suc i) ≡ swap_section_header (swap_section_header t.header)
entry-write e i {t} plain h =
    let (off, each, _) = write-header e plain in
    let place : (52 + 40 * suc i ≡ 92 + 40 * i) = omega arith in
    ap swap_section_header (
      ap decode_shdr (
        ap₂ (λ a b. take 40 (drop (a + b * suc i) (write e))) off each
        ∙ ap (λ n. take 40 (drop n (write e))) place
        ∙ ap (take 40) (sym (drop-drop (40 * i) 92 (write e)))
        ∙ ap (λ xs. take 40 (drop (40 * i) xs)) (table_of_write e plain.0)
        ∙ headers_bytes-at (swap_headers (laid_out e.sections)) i (bodies_bytes e.sections)
            (at-swap_headers (laid_out e.sections) i h))
      ∙ decode_shdr-shdr_bytes (swap_section_header t.header) (swapped-ShdrFits t.header))

-- What stands at the offset of a laid out section is in the file at the entry behind the null one.
pub write-Contains :
    (e : Elf) (i : ℕ) (bytes : List ℕ) {t : Section}
    → IsPlain e 8
    → i < 7
    → at (laid_out e.sections) i ≡ ok t
    → take t.header.sh_size (drop t.header.sh_offset (write e)) ≡ bytes
    → Contains (write e) (suc i) bytes
unfolding laid_out swap_section_header
write-Contains e i bytes {t} plain few h held =
    let (size, offset) = lay_out-Small e.sections _ _ i h in
    let same = entry-write e i plain h in
    (
      rw (write-header e plain).2 (omega arith),
      ap₂ (λ a b. take a (drop b (write e)))
            (ap (λ x. x.sh_size) same ∙ swap32-swap32 t.header.sh_size size)
            (ap (λ x. x.sh_offset) same ∙ swap32-swap32 t.header.sh_offset offset)
          ∙ held,
    )
