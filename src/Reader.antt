-- ===== src/Reader.antt =====
-- src/elf_reader.cpp: `ELFReader::read`. The stream is the list of its bytes; what it prints is left
-- out. Whether `seekg` succeeds at an offset depends on the kind of stream (a file admits every
-- offset, a string those up to its end), so it is a parameter.
pub mod Headers
pub mod Tables
pub mod Bounds
pub mod Accepts
pub mod Refuses
pub mod Written
pub mod Declared
pub mod Entry
use gbas.Prelude.{
  ℕ, zero, suc, ◌+◌, ◌*◌, ◌≡◌, Bool, true, false, ◌&&◌, ◌||◌, not, List, [], ◌∷◌, ◌++◌, Option,
  none, some, length, take, drop, get_or, leb, ltb, ◌==◌, if◌then◌else◌, get_elem?, Text, codes,
}
use gbas.Result.{Result, ok, err, ◌>>=◌, unexpected, undefined}
use gbas.Words.{word16, word32}
use gbas.Elf.Sections.{Shdr}
use gbas.Elf.{Ehdr, Elf}
use gbas.Elf.New.{new_elf}

-- `check_ident`: a comparison of four characters, none of which is a null.
unfoldable pub check_ident : List ℕ → Bool
check_ident ident =
    get_or ident 0 0 == 127
    && get_or ident 1 0 == b'E'
    && get_or ident 2 0 == b'L'
    && get_or ident 3 0 == b'F'

-- The copies of bytes into a header.
unfoldable pub decode_ehdr : List ℕ → Ehdr
decode_ehdr bytes = record {
  e_ident = take 16 bytes;
  e_type = word16 bytes 16;
  e_machine = word16 bytes 18;
  e_version = word32 bytes 20;
  e_entry = word32 bytes 24;
  e_phoff = word32 bytes 28;
  e_shoff = word32 bytes 32;
  e_flags = word32 bytes 36;
  e_ehsize = word16 bytes 40;
  e_phentsize = word16 bytes 42;
  e_phnum = word16 bytes 44;
  e_shentsize = word16 bytes 46;
  e_shnum = word16 bytes 48;
  e_shstrndx = some (word16 bytes 50);
}

unfoldable pub decode_shdr : List ℕ → Shdr
decode_shdr bytes = record {
  sh_name = word32 bytes 0;
  sh_type = word32 bytes 4;
  sh_flags = word32 bytes 8;
  sh_addr = word32 bytes 12;
  sh_offset = word32 bytes 16;
  sh_size = word32 bytes 20;
  sh_link = word32 bytes 24;
  sh_info = word32 bytes 28;
  sh_addralign = word32 bytes 32;
  sh_entsize = word32 bytes 36;
}

-- `is.read` at a position: the bytes, or the message of its failure. To read nothing succeeds.
unfoldable pub read_at : Text → List ℕ → ℕ → ℕ → Result (List ℕ)
read_at msg file pos n =
    if n == 0 || leb (pos + n) (length file)
    then ok (take n (drop pos file))
    else err (unexpected msg)

-- The stream insertion of an `unsigned char[16]` goes on up to a null; without one it runs out of
-- the array.
unfoldable pub c_string : List ℕ → Result Text
c_string [] = err undefined
c_string (c ∷ cs) = let rest = c_string cs >>= λ s. ok (c ∷ s) in if c == 0 then ok [] else rest

unfoldable pub invalid_header : List ℕ → Result Elf
unfolding c_string
invalid_header ident = c_string ident >>= λ s. err (unexpected (codes "Invalid file header: " ++ s))

-- The loop that copies `n` headers out of the buffer. A copy past its end is undefined behaviour.
unfoldable pub decode_table : ℕ → List ℕ → Result (List Shdr)
unfolding decode_shdr
decode_table zero buf = ok []
decode_table (suc n) buf =
    let rest = decode_table n (drop 40 buf) >>= λ hs. ok (decode_shdr (take 40 buf) ∷ hs) in
    if ltb (length buf) 40 then err undefined else rest

-- The loop over the string table of names: `n` characters to read, `curr` the name so far.
unfoldable pub read_names : ℕ → Text → List ℕ → Result (List Text)
read_names zero curr bytes = ok []
read_names (suc n) curr [] =
    err (unexpected (codes "Failed to read char from section name string table"))
read_names (suc n) curr (c ∷ cs) =
    let over = read_names n [] cs >>= λ names. ok ((curr ++ c ∷ []) ∷ names) in
    let more = read_names n (curr ++ c ∷ []) cs in if c == 0 then over else more

-- The table of names behind its first character, which must be a null.
unfoldable pub read_strtab : List ℕ → ℕ → Result (List Text)
unfolding read_names
read_strtab [] n = err (unexpected (codes "Invalid section name string table"))
read_strtab (c ∷ cs) n =
    if c == 0
    then read_names n [] cs
    else err (unexpected (codes "Invalid section name string table"))

-- `shtab[header.e_shstrndx]`.
unfoldable pub header_at : List Shdr → Option ℕ → Result Shdr
header_at shtab none = err undefined
header_at shtab (some i) = elim (get_elem? shtab i) [ none ↦ err undefined | some h ↦ ok h ]

module _ (can_seek : List ℕ → ℕ → Bool) where
  unfoldable pub seek : Text → List ℕ → ℕ → Result (List ℕ)
  seek msg file pos = if can_seek file pos then ok (drop pos file) else err (unexpected msg)

  -- The table of headers and the names. The product of two `uint16_t` is an `int`.
  unfoldable pub read_tables : List ℕ → Ehdr → Result (List Shdr × List Text)
  unfolding seek read_at decode_table header_at read_strtab
  read_tables file h = do
    _ ← seek (codes "Unable to seek to section header table") file h.e_shoff
    size ←
        if ltb (h.e_shentsize * h.e_shnum) 2147483648
        then ok (h.e_shentsize * h.e_shnum)
        else err undefined
    buf ← read_at (codes "Unable to read section header table") file h.e_shoff size
    shtab ← decode_table h.e_shnum buf
    strhdr ← header_at shtab h.e_shstrndx
    names ← seek (codes "Unable to seek to section name string table") file strhdr.sh_offset
    section_names ← read_strtab names strhdr.sh_size
    ok (shtab, section_names)

  -- What follows the reading of the header. The tables are printed and dropped: the object file is a
  -- new one with the header that was read.
  unfoldable pub read_behind : List ℕ → Elf → Ehdr → Result Elf
  unfolding check_ident invalid_header read_tables
  read_behind file elf h =
      if not (check_ident h.e_ident)
      then invalid_header h.e_ident
      else if not (get_or h.e_ident 4 0 == 1)
      then err (unexpected (codes "Only 32-bit ELF is supported"))
      else (read_tables file h >>= λ _. ok (record elf { header = h }))

  unfoldable pub read : List ℕ → Result Elf
  unfolding read_at decode_ehdr read_behind new_elf
  read file = do
    elf ← new_elf
    bytes ← read_at (codes "Failed to read header from input stream") file 0 52
    read_behind file elf (decode_ehdr bytes)
