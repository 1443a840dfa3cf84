-- ===== src/Reader/Refuses.antt =====
-- src/elf_reader.cpp, src/elf_writer.cpp: the reader does not read what the writer writes.
use gbas.Prelude.{
  ℕ, ◌+◌, ◌*◌, ◌<◌, ◌≤◌, ◌≡◌, refl, ◌∙◌, ap, Bool, Bool-cases, true, false, inl, inr, List, ◌++◌,
  append_assoc, some, length, length-append, ◌||◌, take, take_front, get_or, leb, ltb, lt→ltb, ◌==◌,
  Text, codes, arith,
}
use gbas.Result.{Error, Result, ok, err, ◌>>=◌, unexpected}
use gbas.Words.{swap16, swap32}
use gbas.Elf.{Ehdr, Elf}
use gbas.Elf.New.{new_elf, new_elf-ok}
use gbas.Writer.{
  swap_elf_header, filled_header, first_strtab, ehdr_bytes, written, front, write, bodies_bytes,
  headers_bytes, zeros, u16,
}
use gbas.Writer.Offsets.{length-ehdr_bytes}
use gbas.Reader.{check_ident, decode_ehdr, read_at, seek, read_tables, read_behind, read}
use gbas.Reader.Headers.{EhdrFits, decode_ehdr-ehdr_bytes}

-- A swapped header fits, whatever it was.
swapped-EhdrFits :
    (h : Ehdr) (k : ℕ)
    → length h.e_ident ≡ 16
    → h.e_shstrndx ≡ some k
    → EhdrFits (swap_elf_header h) (swap16 k)
unfolding swap_elf_header swap16 swap32
swapped-EhdrFits h k p q = record {
  e_ident = p;
  e_type = omega arith;
  e_machine = omega arith;
  e_version = omega arith;
  e_entry = omega arith;
  e_phoff = omega arith;
  e_shoff = omega arith;
  e_flags = omega arith;
  e_ehsize = omega arith;
  e_phentsize = omega arith;
  e_phnum = omega arith;
  e_shentsize = omega arith;
  e_shnum = omega arith;
  shstrndx_bound = omega arith;
  e_shstrndx = rw q refl;
}

header_first :
    (e : Elf) → (rest : List ℕ) × (write e ≡ ehdr_bytes (swap_elf_header (filled_header e)) ++ rest)
unfolding write front written
header_first e = (
  _,
  append_assoc (ehdr_bytes (swap_elf_header (filled_header e)))
      (zeros 40 ++ headers_bytes (written e).sections) (bodies_bytes e.sections),
)

-- The header that is read from a written file is the swapped one.
pub read_header :
    (e : Elf)
    → length e.header.e_ident ≡ 16
    → decode_ehdr (take 52 (write e)) ≡ swap_elf_header (filled_header e)
read_header e p =
    let h = swap_elf_header (filled_header e) in
    let (rest, split) = header_first e in
    let l : (length (ehdr_bytes (swap_elf_header (filled_header e))) ≡ 52) =
      length-ehdr_bytes h (unfold swap_elf_header filled_header in p) in
    let fits =
      swapped-EhdrFits (filled_header e) (u16 (first_strtab e.sections + 1))
        (unfold filled_header in p) (unfold filled_header in refl) in
    ap (λ b. decode_ehdr (take 52 b)) split
    ∙ ap decode_ehdr (take_front (ehdr_bytes h) rest 52 l)
    ∙ decode_ehdr-ehdr_bytes h (swap16 (u16 (first_strtab e.sections + 1))) fits

abbrev pub refusal : Bool → Text
refusal true = codes "Unable to read section header table"
refusal false = codes "Unable to seek to section header table"

read_at-past :
    (msg : Text) (file : List ℕ) (pos n : ℕ)
    → length file < pos
    → 0 < n
    → read_at msg file pos n ≡ err (unexpected msg)
unfolding read_at
read_at-past msg file pos n h k = rw (no_room n pos (length file) h k) refl
  where
    no_room : (n pos l : ℕ) → l < pos → 0 < n → (n == 0 || leb (pos + n) l) ≡ false
    no_room n pos l h k = ground arith

read_at-start :
    (msg : Text) (file : List ℕ) → 52 ≤ length file → read_at msg file 0 52 ≡ ok (take 52 file)
unfolding read_at
read_at-start msg file h = rw (enough (length file) h) refl
  where
    enough : (l : ℕ) → 52 ≤ l → leb (0 + 52) l ≡ true
    enough l h = ground arith

-- The size that the reader takes the table of a written file to have.
table_size :
    (k n : ℕ)
    → k ≡ 40
    → 0 < n
    → n < 65536
    → (0 < swap16 k * swap16 (u16 n)) × (ltb (swap16 k * swap16 (u16 n)) 2147483648 ≡ true)
unfolding swap16
table_size k n p full few = rw p (omega arith, lt→ltb _ _ (omega arith))

module _ (can_seek : List ℕ → ℕ → Bool) where
  tables_refused :
      (file : List ℕ) (h : Ehdr) (pos : ℕ)
      → h.e_shoff ≡ pos
      → length file < pos
      → 0 < h.e_shentsize * h.e_shnum
      → ltb (h.e_shentsize * h.e_shnum) 2147483648 ≡ true
      → read_tables can_seek file h ≡ err (unexpected (refusal (can_seek file pos)))
  unfolding read_tables seek
  tables_refused file h pos at far full small = elim (Bool-cases (can_seek file pos)) [
    | inl k ↦
        rw
          (
            at,
            k,
            small,
            read_at-past (codes "Unable to read section header table") file pos
                (h.e_shentsize * h.e_shnum) far full,
          )
          refl
    | inr k ↦ rw (at, k) refl
  ]

  behind_refused :
      (file : List ℕ) (new : Elf) (h : Ehdr) (pos : ℕ)
      → check_ident h.e_ident ≡ true
      → get_or h.e_ident 4 0 ≡ 1
      → h.e_shoff ≡ pos
      → length file < pos
      → 0 < h.e_shentsize * h.e_shnum
      → ltb (h.e_shentsize * h.e_shnum) 2147483648 ≡ true
      → read_behind can_seek file new h ≡ err (unexpected (refusal (can_seek file pos)))
  unfolding read_behind
  behind_refused file new h pos ident class at far full small =
      rw (ident, class, tables_refused file h pos at far full small) refl

  refused :
      (file : List ℕ) (start : Result Elf) (new : Elf) {e : Error}
      → start ≡ ok new
      → 52 ≤ length file
      → read_behind can_seek file new (decode_ehdr (take 52 file)) ≡ err e
      → (start >>= λ new.
          read_at (codes "Failed to read header from input stream") file 0 52 >>= λ bytes.
          read_behind can_seek file new (decode_ehdr bytes))
        ≡ err e
  refused file start new s long h =
      rw (s, read_at-start (codes "Failed to read header from input stream") file long) h

  read_steps :
      (file : List ℕ)
      → read can_seek file ≡ (
          new_elf >>= λ new.
          read_at (codes "Failed to read header from input stream") file 0 52 >>= λ bytes.
          read_behind can_seek file new (decode_ehdr bytes))
  unfolding read
  read_steps file = refl

  -- Let a file have an identification of 16 bytes that the reader accepts, entries of 40 bytes,
  -- between 1 and 65535 sections, and fewer than 872415232 bytes when it is written. Then the
  -- reader refuses the written file: it takes the offset of the table of headers in the wrong
  -- byte order, so that it fails to seek there, or to read there.
  pub read-write :
      (e : Elf)
      → length e.header.e_ident ≡ 16
      → check_ident e.header.e_ident ≡ true
      → get_or e.header.e_ident 4 0 ≡ 1
      → e.header.e_shentsize ≡ 40
      → 0 < length e.sections
      → length e.sections < 65536
      → length (write e) < 872415232
      → read can_seek (write e) ≡ err (unexpected (refusal (can_seek (write e) 872415232)))
  read-write e p ident class size full few small =
      let h = swap_elf_header (filled_header e) in
      let sizes = table_size e.header.e_shentsize (length e.sections) size full few in
      let (rest, split) = header_first e in
      let (new, n) = new_elf-ok in
      let long =
        ap length split ∙ length-append (ehdr_bytes (swap_elf_header (filled_header e))) rest in
      let first = length-ehdr_bytes h (unfold swap_elf_header filled_header in p) in
      let enough : (52 ≤ length (write e)) = omega (arith, long, first) in
      read_steps (write e)
      ∙ refused (write e) new_elf new n enough (
          ap (λ x. read_behind can_seek (write e) new x) (read_header e p)
          ∙ behind_refused (write e) new h 872415232 (unfold swap_elf_header filled_header in ident)
              (unfold swap_elf_header filled_header in class)
              (unfold swap_elf_header filled_header swap32 in refl) small
              (unfold swap_elf_header filled_header in sizes.0)
              (unfold swap_elf_header filled_header in sizes.1))
