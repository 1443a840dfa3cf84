-- ===== src/Reader/Bounds.antt =====
-- src/elf_reader.cpp: a file that is read holds all that the reader took from it.
use gbas.Prelude.{
  ℕ, suc, ◌+◌, ◌*◌, ◌<◌, ◌≤◌, ◌≡◌, refl, sym, ◌∙◌, ap, Bool, Bool-cases, ==_iff, subst, true, ◌||◌,
  inl, inr, List, some, length, length-drop, length-take-le, take, drop, get_or, leb, ltb, ◌==◌,
  if◌then◌else◌, Text, codes, arith,
}
use gbas.Result.{Result, ok, err, ◌>>=◌, bind-eq-ok, ok-injective, passed, undefined}
use gbas.Elf.Sections.{Shdr}
use gbas.Elf.{Ehdr, Elf}
use gbas.Elf.New.{new_elf}
use gbas.Reader.{
  check_ident, decode_ehdr, read_at, c_string, invalid_header, decode_table, read_strtab, header_at,
  seek, read_tables, read_behind, read,
}
use gbas.Reader.Tables.{
  entry, decode_table-length, decode_table-get, read_strtab-length, read_strtab-null, header_at-ok,
}

-- The parts of a file that its header leads to: the table of headers, whose entries lie in it, and
-- the string table that it names, which begins with a null and is followed by one more character.
-- The stream admits the offsets of both, and the size of the table is an `int`.
pub record InFile (can_seek : List ℕ → ℕ → Bool) (file : List ℕ) (h : Ehdr) : Type 0 where
  pub index : ℕ
  pub indexed : h.e_shstrndx ≡ some index
  pub index_bound : index < h.e_shnum
  pub table_end : h.e_shoff + h.e_shentsize * h.e_shnum ≤ length file
  pub entries_bound : 40 * h.e_shnum ≤ h.e_shentsize * h.e_shnum
  pub names_end :
      let strhdr = entry (take (h.e_shentsize * h.e_shnum) (drop h.e_shoff file)) index in
      strhdr.sh_offset + strhdr.sh_size + 1 ≤ length file
  pub table_reached : can_seek file h.e_shoff ≡ true
  pub table_small : ltb (h.e_shentsize * h.e_shnum) 2147483648 ≡ true
  pub names_reached :
      let strhdr = entry (take (h.e_shentsize * h.e_shnum) (drop h.e_shoff file)) index in
      can_seek file strhdr.sh_offset ≡ true
  pub names_null :
      let strhdr = entry (take (h.e_shentsize * h.e_shnum) (drop h.e_shoff file)) index in
      (get_or (drop strhdr.sh_offset file) 0 1 == 0) ≡ true

read_at-ok :
    (msg : Text) (file : List ℕ) (pos n : ℕ) {bytes : List ℕ}
    → read_at msg file pos n ≡ ok bytes
    → (0 < n → pos + n ≤ length file) × (take n (drop pos file) ≡ bytes)
unfolding read_at
read_at-ok msg file pos n h =
    let (t, e) = passed (n == 0 || leb (pos + n) (length file)) (ok (take n (drop pos file))) _ h in
    (λ positive. ground (arith, positive), ok-injective e)

-- What an accepted file and the object file `e` for it have.
abbrev pub Accepts : (List ℕ → ℕ → Bool) → List ℕ → Elf → Elf → Ehdr → Type 0
Accepts can_seek file new e h =
    (check_ident h.e_ident ≡ true)
    × (get_or h.e_ident 4 0 ≡ 1)
    × InFile can_seek file h
    × (e ≡ record new { header = h })

module _ (can_seek : List ℕ → ℕ → Bool) where
  seek-ok :
      (msg : Text) (file : List ℕ) (pos : ℕ) {rest : List ℕ}
      → seek can_seek msg file pos ≡ ok rest
      → (can_seek file pos ≡ true) × (drop pos file ≡ rest)
  unfolding seek
  seek-ok msg file pos h =
      let (t, e) = passed (can_seek file pos) (ok (drop pos file)) _ h in (t, ok-injective e)

  steps-InFile :
      (file : List ℕ) (h : Ehdr) (size : ℕ) (buf : List ℕ) (shtab : List Shdr) (strhdr : Shdr)
      (names : List ℕ) (section_names : List Text)
      → h.e_shentsize * h.e_shnum ≡ size
      → (0 < size → h.e_shoff + size ≤ length file)
      → take size (drop h.e_shoff file) ≡ buf
      → decode_table h.e_shnum buf ≡ ok shtab
      → header_at shtab h.e_shstrndx ≡ ok strhdr
      → can_seek file h.e_shoff ≡ true
      → ltb (h.e_shentsize * h.e_shnum) 2147483648 ≡ true
      → (can_seek file strhdr.sh_offset ≡ true) × (drop strhdr.sh_offset file ≡ names)
      → read_strtab names strhdr.sh_size ≡ ok section_names
      → InFile can_seek file h
  steps-InFile file h size buf shtab strhdr names section_names s reach taken table at_index seeks
        small (reached, behind) q =
      let (_, fits) = decode_table-length h.e_shnum buf table in
      let (i, indexed, got) = header_at-ok shtab h.e_shstrndx at_index in
      let (bound, found) = decode_table-get h.e_shnum buf i table got in
      let short : (length buf ≤ size) =
        subst (λ b. length b ≤ size) taken (length-take-le size (drop h.e_shoff file)) in
      let rest = length-drop strhdr.sh_offset file in
      let long =
        subst (λ b. suc strhdr.sh_size ≤ length b) (sym behind)
          (read_strtab-length names strhdr.sh_size q) in
      let buffer = ap (λ n. take n (drop h.e_shoff file)) s ∙ taken in
      let found_at : (strhdr ≡ entry (take (h.e_shentsize * h.e_shnum) (drop h.e_shoff file)) i) =
        found ∙ ap (λ b. entry b i) (sym buffer) in
      record {
        index = i;
        indexed = indexed;
        index_bound = bound;
        table_end =
            subst (λ n. h.e_shoff + n ≤ length file) (sym s) (reach (omega (arith, fits, bound)));
        entries_bound = omega arith;
        names_end =
            subst (λ (x : Shdr). x.sh_offset + x.sh_size + 1 ≤ length file) found_at (omega arith);
        table_reached = seeks;
        table_small = small;
        names_reached = subst (λ (x : Shdr). can_seek file x.sh_offset ≡ true) found_at reached;
        names_null =
            subst (λ (x : Shdr). (get_or (drop x.sh_offset file) 0 1 == 0) ≡ true) found_at
              (subst (λ b. (get_or b 0 1 == 0) ≡ true) (sym behind)
                (read_strtab-null names strhdr.sh_size q));
      }

  read_tables-InFile :
      (file : List ℕ) (h : Ehdr) {tables : List Shdr × List Text}
      → read_tables can_seek file h ≡ ok tables
      → InFile can_seek file h
  unfolding read_tables
  read_tables-InFile file h p =
      let (_, q1, p1) = bind-eq-ok (seek can_seek _ file h.e_shoff) _ p in
      let (size, q2, p2) =
        bind-eq-ok
          (if ltb (h.e_shentsize * h.e_shnum) 2147483648
            then ok (h.e_shentsize * h.e_shnum)
            else err undefined)
          _ p1 in
      let (buf, q3, p3) = bind-eq-ok (read_at _ file h.e_shoff size) _ p2 in
      let (shtab, q4, p4) = bind-eq-ok (decode_table h.e_shnum buf) _ p3 in
      let (strhdr, q5, p5) = bind-eq-ok (header_at shtab h.e_shstrndx) _ p4 in
      let (names, q6, p6) = bind-eq-ok (seek can_seek _ file strhdr.sh_offset) _ p5 in
      let (section_names, q7, _) = bind-eq-ok (read_strtab names strhdr.sh_size) _ p6 in
      let (reach, taken) = read_at-ok _ file h.e_shoff size q3 in
      let (small, same) =
        passed (ltb (h.e_shentsize * h.e_shnum) 2147483648) (ok (h.e_shentsize * h.e_shnum)) _ q2 in
      steps-InFile file h size buf shtab strhdr names section_names (ok-injective same) reach taken
        q4 q5 (seek-ok _ file h.e_shoff q1).0 small (seek-ok _ file strhdr.sh_offset q6) q7

  behind-ok :
      (file : List ℕ) (new : Elf) (h : Ehdr) {e : Elf}
      → read_behind can_seek file new h ≡ ok e
      → Accepts can_seek file new e h
  unfolding read_behind invalid_header
  behind-ok file new h p = elim (Bool-cases (check_ident h.e_ident)) [
    | inr k ↦ let (_, _, q) = bind-eq-ok (c_string h.e_ident) _ (rw k at p) in cc
    | inl k ↦ elim (Bool-cases (get_or h.e_ident 4 0 == 1)) [
      | inr l ↦ cc (rw (k, l) at p)
      | inl l ↦
          let (tables, q, r) = bind-eq-ok (read_tables can_seek file h) _ (rw (k, l) at p) in
          (
            k,
            (==_iff (get_or h.e_ident 4 0) 1).0 l,
            read_tables-InFile file h q,
            sym (ok-injective r),
          )
    ]
  ]

  accepted :
      (file : List ℕ) (start : Result Elf) {e : Elf}
      → (start >>= λ new.
          read_at (codes "Failed to read header from input stream") file 0 52 >>= λ bytes.
          read_behind can_seek file new (decode_ehdr bytes))
        ≡ ok e
      → (52 ≤ length file)
        × (new : Elf) × (start ≡ ok new)
        × Accepts can_seek file new e (decode_ehdr (take 52 file))
  accepted file (err _) h = cc
  accepted file (ok new) {e} h =
      let (bytes, q, r) =
        bind-eq-ok (read_at (codes "Failed to read header from input stream") file 0 52) _ h in
      let (whole, taken) =
        read_at-ok (codes "Failed to read header from input stream") file 0 52 q in
      (
        whole (omega arith),
        new,
        refl,
        subst (λ b. Accepts can_seek file new e (decode_ehdr b)) (sym taken)
            (behind-ok file new (decode_ehdr bytes) r),
      )

  -- A file that the reader accepts holds the parts that its header leads to.
  pub accepted-Accepts :
      (file : List ℕ) {e : Elf}
      → read can_seek file ≡ ok e
      → (52 ≤ length file)
        × (new : Elf) × (new_elf ≡ ok new)
        × Accepts can_seek file new e (decode_ehdr (take 52 file))
  unfolding read
  accepted-Accepts file h = accepted file new_elf h
