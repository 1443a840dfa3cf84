-- ===== src/Writer.antt =====
-- src/elf_writer.cpp, include/swap_helpers.hpp, and the functions of include/elf.hpp that write
-- sections: the bytes of an object file. The machine that writes is little-endian, so that a swapped
-- number is written with its high byte first, and a number of a symbol, which is not swapped, last.
pub mod Offsets
pub mod Layout
use gbas.Prelude.{
  ℕ, zero, suc, ◌+◌, ◌*◌, ◌/◌, ◌%◌, List, [], ◌∷◌, ◌++◌, Option, none, some, length, ◌==◌,
  if◌then◌else◌, Text,
}
use gbas.Elf.Sections.{
  Shdr, Sym, Rel, Section, Body, progbits, strtab, symtab, rel, section_size, u32,
}
use gbas.Elf.{Ehdr, Elf}
use gbas.Words.{le16, le32, swap16, swap32}

abbrev or_zero : Option ℕ → ℕ
or_zero none = 0
or_zero (some n) = n

unfoldable pub swap_section_header : Shdr → Shdr
unfolding swap32
swap_section_header h = record {
  sh_name = swap32 h.sh_name;
  sh_type = swap32 h.sh_type;
  sh_flags = swap32 h.sh_flags;
  sh_addr = swap32 h.sh_addr;
  sh_offset = swap32 h.sh_offset;
  sh_size = swap32 h.sh_size;
  sh_link = swap32 h.sh_link;
  sh_info = swap32 h.sh_info;
  sh_addralign = swap32 h.sh_addralign;
  sh_entsize = swap32 h.sh_entsize;
}

abbrev pub swap_set : Option ℕ → Option ℕ
swap_set none = none
swap_set (some n) = some (swap16 n)

unfoldable pub swap_elf_header : Ehdr → Ehdr
unfolding swap16 swap32
swap_elf_header h = record {
  e_ident = h.e_ident;
  e_type = swap16 h.e_type;
  e_machine = swap16 h.e_machine;
  e_version = swap32 h.e_version;
  e_entry = swap32 h.e_entry;
  e_phoff = swap32 h.e_phoff;
  e_shoff = swap32 h.e_shoff;
  e_flags = swap32 h.e_flags;
  e_ehsize = swap16 h.e_ehsize;
  e_phentsize = swap16 h.e_phentsize;
  e_phnum = swap16 h.e_phnum;
  e_shentsize = swap16 h.e_shentsize;
  e_shnum = swap16 h.e_shnum;
  e_shstrndx = swap_set h.e_shstrndx;
}

-- The bytes of a header in memory, as `os.write` takes them.
unfoldable pub shdr_bytes : Shdr → List ℕ
shdr_bytes h =
    le32 h.sh_name
    ++ le32 h.sh_type
    ++ le32 h.sh_flags
    ++ le32 h.sh_addr
    ++ le32 h.sh_offset
    ++ le32 h.sh_size
    ++ le32 h.sh_link
    ++ le32 h.sh_info
    ++ le32 h.sh_addralign
    ++ le32 h.sh_entsize

-- The fields behind the identification. One that is not set, which `write` does not meet, is given
-- zeros.
unfoldable pub ehdr_fields : Ehdr → List ℕ
ehdr_fields h =
    le16 h.e_type
    ++ le16 h.e_machine
    ++ le32 h.e_version
    ++ le32 h.e_entry
    ++ le32 h.e_phoff
    ++ le32 h.e_shoff
    ++ le32 h.e_flags
    ++ le16 h.e_ehsize
    ++ le16 h.e_phentsize
    ++ le16 h.e_phnum
    ++ le16 h.e_shentsize
    ++ le16 h.e_shnum
    ++ le16 (or_zero h.e_shstrndx)

-- The identification has sixteen bytes.
unfoldable pub ehdr_bytes : Ehdr → List ℕ
unfolding ehdr_fields
ehdr_bytes h = h.e_ident ++ ehdr_fields h

-- `write` of each class of section.
unfoldable pub strings_bytes : List Text → List ℕ
strings_bytes [] = []
strings_bytes (s ∷ ss) = s ++ 0 ∷ strings_bytes ss

unfoldable pub symbols_bytes : List Sym → List ℕ
symbols_bytes [] = []
symbols_bytes (s ∷ ss) =
    le32 s.st_name
    ++ le32 s.st_value
    ++ le32 s.st_size
    ++ s.st_info ∷ s.st_other ∷ le16 s.st_shndx
    ++ symbols_bytes ss

unfoldable pub relocations_bytes : List Rel → List ℕ
relocations_bytes [] = []
relocations_bytes (r ∷ rs) = le32 r.r_offset ++ le32 r.r_info ++ relocations_bytes rs

unfoldable pub section_bytes : Body → List ℕ
unfolding strings_bytes symbols_bytes relocations_bytes
section_bytes (progbits bytes) = bytes
section_bytes (strtab strings) = strings_bytes strings
section_bytes (symtab symbols) = symbols_bytes symbols
section_bytes (rel _ relocations) = relocations_bytes relocations

-- The loop over the headers: each is given the place of its name, its size and its offset.
unfoldable pub lay_out : ℕ → ℕ → List Section → List Section
unfolding section_size
lay_out name offset [] = []
lay_out name offset (s ∷ ss) =
    record s {
      header = record s.header {
        sh_name = u32 name;
        sh_size = u32 (section_size s.body);
        sh_offset = u32 offset;
      };
    }
    ∷ lay_out (name + (length s.name + 1)) (offset + section_size s.body) ss

abbrev pub sections_offset : List Section → ℕ
sections_offset ss = 52 + 40 * length ss + 40

unfoldable pub laid_out : List Section → List Section
unfolding lay_out
laid_out ss = lay_out 1 (sections_offset ss) ss

unfoldable pub bodies_bytes : List Section → List ℕ
unfolding section_bytes
bodies_bytes [] = []
bodies_bytes (s ∷ ss) = section_bytes s.body ++ bodies_bytes ss

-- The index of the first table of strings.
unfoldable pub first_strtab : List Section → ℕ
first_strtab [] = 0
first_strtab (s ∷ ss) = let rest = first_strtab ss in if s.header.sh_type == 3 then 0 else suc rest

abbrev pub u16 : ℕ → ℕ
u16 n = n % 65536

abbrev pub zeros : ℕ → List ℕ
zeros zero = []
zeros (suc n) = 0 ∷ zeros n

-- The headers are swapped where they stand, in the object file.
unfoldable pub swap_headers : List Section → List Section
unfolding swap_section_header
swap_headers [] = []
swap_headers (s ∷ ss) = record s { header = swap_section_header s.header } ∷ swap_headers ss

unfoldable pub headers_bytes : List Section → List ℕ
unfolding shdr_bytes
headers_bytes [] = []
headers_bytes (s ∷ ss) = shdr_bytes s.header ++ headers_bytes ss

-- The header with the fields that `write` sets.
unfoldable pub filled_header : Elf → Ehdr
unfolding first_strtab
filled_header e = record e.header {
  e_shoff = 52;
  e_shnum = u16 (length e.sections);
  e_shstrndx = some (u16 (first_strtab e.sections + 1));
}

-- The object file that `ELFWriter::write` leaves.
unfoldable pub written : Elf → Elf
unfolding filled_header swap_elf_header laid_out swap_headers
written e = record e {
  header = swap_elf_header (filled_header e);
  sections = swap_headers (laid_out e.sections);
}

-- The headers that it writes, with a null header in front of the sections', and the whole file.
unfoldable pub front : Elf → List ℕ
unfolding ehdr_bytes headers_bytes written
front e = ehdr_bytes (written e).header ++ (zeros 40 ++ headers_bytes (written e).sections)

unfoldable pub write : Elf → List ℕ
unfolding front bodies_bytes
write e = front e ++ bodies_bytes e.sections
