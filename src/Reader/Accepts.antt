-- ===== src/Reader/Accepts.antt =====
-- src/elf_reader.cpp: the files that the reader accepts are those that hold what their header leads to.
use gbas.Prelude.{
  ℕ, zero, suc, ◌+◌, ◌*◌, ◌<◌, ◌≤◌, ◌≡◌, ◌↔◌, refl, sym, ap, Bool, Bool-cases, ==_iff, subst, true,
  false, ◌||◌, inl, inr, List, [], ◌∷◌, ◌++◌, Option, some, length, length-drop, take, drop, get_or,
  get_elem?, leb, ltb, ◌==◌, Text, codes, arith,
}
use gbas.Result.{Result, ok, ◌>>=◌}
use gbas.Elf.Sections.{Shdr}
use gbas.Elf.{Ehdr, Elf}
use gbas.Elf.New.{new_elf}
use gbas.Reader.{
  check_ident, decode_ehdr, decode_shdr, read_at, decode_table, read_names, read_strtab, header_at,
  read_tables, read_behind, read,
}
use gbas.Reader.Tables.{decode_table-get}
use gbas.Reader.Bounds.{InFile, Accepts, accepted-Accepts}

in_reach : (n end size : ℕ) → end ≤ size → (n == 0 || leb end size) ≡ true
in_reach n end size h = ground arith

length-take : (n : ℕ) (xs : List ℕ) → n ≤ length xs → length (take n xs) ≡ n
length-take zero xs h = refl
length-take (suc n) [] h = absurd (omega arith)
length-take (suc n) (_ ∷ xs) h = ap suc (length-take n xs (omega arith))

not_short : (a : ℕ) → 40 ≤ a → ltb a 40 ≡ false
not_short a h = ground arith

decode_table-runs :
    (n : ℕ) (buf : List ℕ)
    → 40 * n ≤ length buf
    → (hs : List Shdr) × (decode_table n buf ≡ ok hs) × (length hs ≡ n)
unfolding decode_table
decode_table-runs zero buf h = ([], refl, refl)
decode_table-runs (suc n) buf h =
    let (hs, p, l) = decode_table-runs n (drop 40 buf) (omega (arith, length-drop 40 buf)) in
    (decode_shdr (take 40 buf) ∷ hs, rw (not_short (length buf) (omega arith), p) refl, ap suc l)

get_elem-runs : (hs : List Shdr) (i : ℕ) → i < length hs → (h : Shdr) × (get_elem? hs i ≡ some h)
get_elem-runs [] i h = absurd (omega arith)
get_elem-runs (x ∷ hs) zero h = (x, refl)
get_elem-runs (x ∷ hs) (suc i) h = get_elem-runs hs i (omega arith)

header_at-runs :
    (hs : List Shdr) (o : Option ℕ) (i : ℕ) {h : Shdr}
    → o ≡ some i
    → get_elem? hs i ≡ some h
    → header_at hs o ≡ ok h
unfolding header_at
header_at-runs hs o i {h} p q = subst (λ o. header_at hs o ≡ ok h) (sym p) (rw (q, header_at) refl)

read_names-runs :
    (n : ℕ) (curr : Text) (bytes : List ℕ)
    → n ≤ length bytes
    → (names : List Text) × (read_names n curr bytes ≡ ok names)
unfolding read_names
read_names-runs zero curr bytes h = ([], refl)
read_names-runs (suc n) curr [] h = absurd (omega arith)
read_names-runs (suc n) curr (c ∷ cs) h = elim (Bool-cases (c == 0)) [
  | inl k ↦
      let (names, p) = read_names-runs n [] cs (omega arith) in
      ((curr ++ c ∷ []) ∷ names, rw (k, p) refl)
  | inr k ↦ let (names, p) = read_names-runs n (curr ++ c ∷ []) cs (omega arith) in (names, rw k p)
]

read_strtab-runs :
    (bytes : List ℕ) (n : ℕ)
    → suc n ≤ length bytes
    → (get_or bytes 0 1 == 0) ≡ true
    → (names : List Text) × (read_strtab bytes n ≡ ok names)
unfolding read_strtab
read_strtab-runs [] n h k = absurd (omega arith)
read_strtab-runs (c ∷ cs) n h k =
    let (names, p) = read_names-runs n [] cs (omega arith) in (names, rw k p)

module _ (can_seek : List ℕ → ℕ → Bool) where
  steps :
      (file : List ℕ) (h : Ehdr) (strhdr : Shdr) {shtab : List Shdr} {section_names : List Text}
      → can_seek file h.e_shoff ≡ true
      → ltb (h.e_shentsize * h.e_shnum) 2147483648 ≡ true
      → h.e_shoff + h.e_shentsize * h.e_shnum ≤ length file
      → decode_table h.e_shnum (take (h.e_shentsize * h.e_shnum) (drop h.e_shoff file)) ≡ ok shtab
      → header_at shtab h.e_shstrndx ≡ ok strhdr
      → can_seek file strhdr.sh_offset ≡ true
      → read_strtab (drop strhdr.sh_offset file) strhdr.sh_size ≡ ok section_names
      → read_tables can_seek file h ≡ ok (shtab, section_names)
  unfolding read_tables
  steps file h strhdr seeks small reach table at_index seeks_names names =
      rw
        (
          seeks,
          small,
          in_reach (h.e_shentsize * h.e_shnum) (h.e_shoff + h.e_shentsize * h.e_shnum) (length file)
              reach,
          table,
          at_index,
          seeks_names,
          names,
        )
        refl

  InFile-runs :
      (file : List ℕ) (h : Ehdr)
      → InFile can_seek file h
      → (tables : List Shdr × List Text) × (read_tables can_seek file h ≡ ok tables)
  InFile-runs file h r =
      let size = h.e_shentsize * h.e_shnum in
      let buf = take (h.e_shentsize * h.e_shnum) (drop h.e_shoff file) in
      let long : (length buf ≡ h.e_shentsize * h.e_shnum) =
        length-take (h.e_shentsize * h.e_shnum) (drop h.e_shoff file)
          (omega (arith, length-drop h.e_shoff file, r.table_end)) in
      let (hs, table, count) =
        decode_table-runs h.e_shnum buf (omega (arith, long, r.entries_bound)) in
      let (x, got) = get_elem-runs hs r.index (omega (arith, count, r.index_bound)) in
      let (_, found) = decode_table-get h.e_shnum buf r.index table got in
      let within =
        subst (λ (y : Shdr). y.sh_offset + y.sh_size + 1 ≤ length file) (sym found) r.names_end in
      let null =
        subst (λ (y : Shdr). (get_or (drop y.sh_offset file) 0 1 == 0) ≡ true) (sym found)
          r.names_null in
      let (names, read) =
        read_strtab-runs (drop x.sh_offset file) x.sh_size
          (omega (arith, length-drop x.sh_offset file, within)) null in
      (
        (hs, names),
        steps file h x r.table_reached r.table_small r.table_end table
            (header_at-runs hs h.e_shstrndx r.index r.indexed got)
            (subst (λ (y : Shdr). can_seek file y.sh_offset ≡ true) (sym found) r.names_reached)
            read,
      )

  behind_runs :
      (file : List ℕ) (new : Elf) (h : Ehdr) {tables : List Shdr × List Text}
      → check_ident h.e_ident ≡ true
      → get_or h.e_ident 4 0 ≡ 1
      → read_tables can_seek file h ≡ ok tables
      → read_behind can_seek file new h ≡ ok (record new { header = h })
  unfolding read_behind
  behind_runs file new h k c p = rw (k, (==_iff (get_or h.e_ident 4 0) 1).1 c, p) refl

  read_runs :
      (file : List ℕ) (start : Result Elf) (new : Elf) {e : Elf}
      → 52 ≤ length file
      → start ≡ ok new
      → read_behind can_seek file new (decode_ehdr (take 52 file)) ≡ ok e
      → (start >>= λ new.
          read_at (codes "Failed to read header from input stream") file 0 52 >>= λ bytes.
          read_behind can_seek file new (decode_ehdr bytes))
        ≡ ok e
  unfolding read_at
  read_runs file start new long p h = rw (p, in_reach 52 52 (length file) long) h

  read_starts :
      (file : List ℕ) {e : Elf}
      → (new_elf >>= λ new.
          read_at (codes "Failed to read header from input stream") file 0 52 >>= λ bytes.
          read_behind can_seek file new (decode_ehdr bytes))
        ≡ ok e
      → read can_seek file ≡ ok e
  unfolding read
  read_starts file h = h

  -- The reader accepts a file exactly if it begins with the identification of a 32-bit object
  -- file, its header is whole, and it leads only to parts of the file that the stream can seek
  -- to: the table of headers, of fewer than 2 ^ 31 bytes, the entry of the string table of names
  -- in it, and that table, which begins with a null and has one more character behind it. The
  -- object file that is returned is a new one with that header.
  pub read-InFile :
      (file : List ℕ) (e : Elf)
      → (read can_seek file ≡ ok e) ↔ (
          (52 ≤ length file)
          × (new : Elf) × (new_elf ≡ ok new)
          × Accepts can_seek file new e (decode_ehdr (take 52 file)))
  read-InFile file e = (accepted-Accepts can_seek file, back)
    where
      back :
          (52 ≤ length file)
            × (new : Elf) × (new_elf ≡ ok new)
            × Accepts can_seek file new e (decode_ehdr (take 52 file))
          → read can_seek file ≡ ok e
      back (long, new, p, (k, c, r, q)) =
          let (tables, t) = InFile-runs file (decode_ehdr (take 52 file)) r in
          subst (λ e. read can_seek file ≡ ok e) (sym q)
            (read_starts file (
              read_runs file new_elf new long p
                (behind_runs file new (decode_ehdr (take 52 file)) k c t)))
