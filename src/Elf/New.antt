-- ===== src/Elf/New.antt =====
-- src/elf.cpp: the constructor of an object file.
use gbas.Prelude.{◌≡◌, refl, [], ◌∷◌, none, ℕ, false, Text, codes}
use gbas.Result.{Result, ok, ◌>>=◌}
use gbas.Elf.Sections.{Sym, Section, Body, progbits, strtab, symtab}
use gbas.Elf.{Elf, Ehdr, add_section}

-- The sections of a new file: `sh_type`, `sh_flags` and `sh_entsize` vary.
abbrev pub new_section : Text → ℕ → ℕ → ℕ → Body → Section
new_section name type flags entsize body = record {
  name = name;
  header = record {
    sh_name = 0;
    sh_type = type;
    sh_flags = flags;
    sh_addr = 0;
    sh_offset = 0;
    sh_size = 0;
    sh_link = 0;
    sh_info = 0;
    sh_addralign = 0;
    sh_entsize = entsize;
  };
  body = body;
}

abbrev pub null_symbol : Sym
null_symbol = record {
  st_name = 0;
  st_value = 0;
  st_size = 0;
  st_info = 0;
  st_other = 0;
  st_shndx = 0;
}

abbrev new_header : Ehdr
new_header = record {
  e_ident = 127 ∷ b'E' ∷ b'L' ∷ b'F' ∷ 1 ∷ 2 ∷ 1 ∷ 255 ∷ 0 ∷ 0 ∷ 0 ∷ 0 ∷ 0 ∷ 0 ∷ 0 ∷ 0 ∷ [];
  e_type = 1;
  e_machine = 0;
  e_version = 1;
  e_entry = 0;
  e_phoff = 0;
  e_shoff = 0;
  e_flags = 0;
  e_ehsize = 52;
  e_phentsize = 32;
  e_phnum = 0;
  e_shentsize = 40;
  e_shnum = 0;
  e_shstrndx = none;
}

-- `ELF::ELF`, with the eight sections of a new file.
unfoldable pub new_elf : Result Elf
unfolding add_section
new_elf =
    let empty : Elf = record {
      header = new_header;
      sections = [];
      shstrtab_idx = 0;
      strtab_idx = 1;
      curr_section = 0;
      curr_rel_idx = 0;
      curr_symtab_idx = 7;
      symbol_names = [];
    } in
    do
      e0 ← add_section (new_section (codes "shstrtab") 3 0 0 (strtab ([] ∷ []))) false empty
      e1 ← add_section (new_section (codes "strtab") 3 0 0 (strtab ([] ∷ []))) false e0
      e2 ← add_section (new_section (codes "data") 1 3 0 (progbits [])) false e1
      e3 ← add_section (new_section (codes "rodata") 1 2 0 (progbits [])) false e2
      e4 ← add_section (new_section (codes "bss") 8 3 0 (progbits [])) false e3
      e5 ← add_section (new_section (codes "text") 1 6 0 (progbits [])) false e4
      e6 ← add_section (new_section (codes "init") 1 6 0 (progbits [])) false e5
      add_section (new_section (codes "symtab") 2 2 16 (symtab (null_symbol ∷ []))) false e6

pub new_elf-ok : (e : Elf) × (new_elf ≡ ok e)
unfolding new_elf
new_elf-ok = (_, refl)
