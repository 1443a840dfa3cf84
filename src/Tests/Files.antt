-- ===== src/Tests/Files.antt =====
-- The theorems on the reader, at small files.
use gbas.Prelude.{
  ◌↔◌, ◌+◌, drop, ℕ, ◌≡◌, ◌≤◌, refl, Bool, List, [], ◌∷◌, ◌++◌, some, codes, leb, length, take,
  arith,
}
use gbas.Result.{ok, err, unexpected}
use gbas.Elf.Sections.{Shdr, Section, Body}
use gbas.Elf.{Ehdr, Elf}
use gbas.Elf.New.{new_elf}
use gbas.Reader.Declared.{
  declared_header, declared_table, refilled_header, decode_table-write, write-written,
}
use gbas.Writer.Layout.{be_ehdr, be_table, write_lem}
use gbas.Writer.{
  zeros, bodies_bytes, u16, first_strtab, filled_header, laid_out, written, write, ehdr_bytes,
  headers_bytes,
}
use gbas.Reader.{decode_ehdr, decode_table, read, read_at, read_strtab, read_names}
use gbas.Reader.Headers.{EhdrFits, AllFit, section_headers, decode_table-headers_bytes}
use gbas.Reader.Bounds.{Accepts}
use gbas.Reader.Accepts.{read-InFile}
use gbas.Reader.Refuses.{refusal, read-write}
use gbas.Tests.Objects.{new_file, new_file_facts}

-- The header of a file with one section.
abbrev header : Ehdr
header = record {
  e_ident = 127 ∷ b'E' ∷ b'L' ∷ b'F' ∷ 1 ∷ 2 ∷ 1 ∷ 255 ∷ 0 ∷ 0 ∷ 0 ∷ 0 ∷ 0 ∷ 0 ∷ 0 ∷ 0 ∷ [];
  e_type = 1;
  e_machine = 0;
  e_version = 1;
  e_entry = 0;
  e_phoff = 0;
  e_shoff = 52;
  e_flags = 0;
  e_ehsize = 52;
  e_phentsize = 32;
  e_phnum = 0;
  e_shentsize = 40;
  e_shnum = 1;
  e_shstrndx = some 0;
}

abbrev names : Section
names = record {
  name = codes "shstrtab";
  header = record {
    sh_name = 1;
    sh_type = 3;
    sh_flags = 0;
    sh_addr = 0;
    sh_offset = 92;
    sh_size = 3;
    sh_link = 0;
    sh_info = 0;
    sh_addralign = 0;
    sh_entsize = 0;
  };
  body = Body.strtab ([] ∷ codes "ab" ∷ []);
}

names-AllFit : AllFit (names ∷ [])
names-AllFit = (
  record {
    sh_name = omega arith;
    sh_type = omega arith;
    sh_flags = omega arith;
    sh_addr = omega arith;
    sh_offset = omega arith;
    sh_size = omega arith;
    sh_link = omega arith;
    sh_info = omega arith;
    sh_addralign = omega arith;
    sh_entsize = omega arith;
  },
  tt,
)

-- The table of headers of the small file, decoded.
names_decoded :
    decode_table 1 (headers_bytes (names ∷ []) ++ codes "ab") ≡ ok (section_headers (names ∷ []))
names_decoded = decode_table-headers_bytes (names ∷ []) (codes "ab") names-AllFit

-- A stream over a string seeks up to its end.
abbrev in_string : List ℕ → ℕ → Bool
in_string file pos = leb pos (length file)

abbrev whole : List ℕ
whole = ehdr_bytes header ++ headers_bytes (names ∷ []) ++ 0 ∷ codes "ab" ++ 0 ∷ []

abbrev taken : Elf
unfolding new_elf
taken = elim new_elf [ ok e ↦ record e { header = header } | err _ ↦ new_file ]

taken_run : read in_string whole ≡ ok taken
unfolding read ehdr_bytes headers_bytes taken read_names read_at read_strtab
taken_run = refl

read-InFile_example : (read in_string whole ≡ ok taken) ↔ (
    (52 ≤ length whole)
    × (new : Elf) × (new_elf ≡ ok new)
    × Accepts in_string whole new taken (decode_ehdr (take 52 whole)))
read-InFile_example = read-InFile in_string whole taken

read-write_example :
    read in_string (write new_file)
    ≡ err (unexpected (refusal (in_string (write new_file) 872415232)))
read-write_example =
    read-write in_string new_file new_file_facts.0 new_file_facts.1 new_file_facts.2
      new_file_facts.3 (omega (arith, new_file_facts.4)) (omega (arith, new_file_facts.4))
      (omega (arith, new_file_facts.5))

-- An object file with one section.
abbrev small : Elf
small = record {
  header = header;
  sections = names ∷ [];
  shstrtab_idx = 0;
  strtab_idx = 0;
  curr_section = 0;
  curr_rel_idx = 0;
  curr_symtab_idx = 0;
  symbol_names = [];
}

small-EhdrFits : EhdrFits (filled_header small) (u16 (first_strtab small.sections + 1))
unfolding filled_header
small-EhdrFits = record {
  e_ident = refl;
  e_type = omega arith;
  e_machine = omega arith;
  e_version = omega arith;
  e_entry = omega arith;
  e_phoff = omega arith;
  e_shoff = omega arith;
  e_flags = omega arith;
  e_ehsize = omega arith;
  e_phentsize = omega arith;
  e_phnum = omega arith;
  e_shentsize = omega arith;
  e_shnum = omega arith;
  shstrndx_bound = omega arith;
  e_shstrndx = refl;
}

small-AllFit : AllFit (laid_out small.sections)
unfolding laid_out
small-AllFit = (
  record {
    sh_name = omega arith;
    sh_type = omega arith;
    sh_flags = omega arith;
    sh_addr = omega arith;
    sh_offset = omega arith;
    sh_size = omega arith;
    sh_link = omega arith;
    sh_info = omega arith;
    sh_addralign = omega arith;
    sh_entsize = omega arith;
  },
  tt,
)

decode_table-write_example :
    (declared_header (decode_ehdr (take 52 (write small))) ≡ filled_header small)
    × (hs : List Shdr) × (decode_table 1 (drop 92 (write small)) ≡ ok hs)
    × (declared_table (decode_ehdr (take 52 (write small))) hs
        ≡ section_headers (laid_out small.sections))
decode_table-write_example = decode_table-write small small-EhdrFits small-AllFit refl

write-written_example :
    declared_header (decode_ehdr (take 52 (write (written small)))) ≡ refilled_header small
write-written_example = write-written small refl refl

-- The type of the second file, 1 in the first, is read as 256.
second_type : (refilled_header small).e_type ≡ 256
second_type = refl

write_example :
    write small
    ≡ (be_ehdr (filled_header small) ++ (zeros 40 ++ be_table (laid_out small.sections)))
      ++ bodies_bytes small.sections
write_example = write_lem small
