-- ===== src/Elf.antt =====
-- include/elf.hpp, src/elf.cpp: the object file that the assembler fills. A section of the vector
-- `sections_` is a record, whose body is the data of the class of the section.
pub mod Sections
pub mod Extends
pub mod New
pub mod Names
pub mod Valid
pub mod Places
pub mod Buffers
pub mod Update
pub mod Symbols
pub mod Relocations
use gbas.Prelude.{
  ℕ, ◌+◌, ◌*◌, ◌%◌, ◌^◌, bit_and, bit_or, Bool, true, false, List, [], ◌∷◌, ◌++◌, Option, none,
  some, length, any, ltb, if◌then◌else◌, Text, codes, text_eq,
}
use gbas.Result.{Result, ok, err, ◌>>=◌, elf_exception, bad_cast}
use gbas.Elf.Sections.{
  Shdr, Sym, Rel, Section, Body, at, progbits, strtab, symtab, rel, modify_at, find_section,
  push_string, u32, u8,
}

pub record Ehdr : Type 0 where
  pub e_ident : List ℕ
  pub e_type : ℕ
  pub e_machine : ℕ
  pub e_version : ℕ
  pub e_entry : ℕ
  pub e_phoff : ℕ
  pub e_shoff : ℕ
  pub e_flags : ℕ
  pub e_ehsize : ℕ
  pub e_phentsize : ℕ
  pub e_phnum : ℕ
  pub e_shentsize : ℕ
  pub e_shnum : ℕ
  -- The constructor leaves this one unset: `none`.
  pub e_shstrndx : Option ℕ

pub record Elf : Type 0 where
  pub header : Ehdr
  pub sections : List Section
  pub shstrtab_idx : ℕ
  pub strtab_idx : ℕ
  pub curr_section : ℕ
  pub curr_rel_idx : ℕ
  pub curr_symtab_idx : ℕ
  pub symbol_names : List Text

-- `shstrtab.strings().push_back(name)` of `add_section`: into the new section if that is the table of
-- names, into the table of names otherwise.
unfoldable pub add_name : Section → Elf → Result (Section × Elf)
unfolding text_eq push_string modify_at
add_name s e =
    if text_eq s.name (codes "shstrtab")
    then (push_string s.name s >>= λ s'. ok (s', e))
    else (modify_at (push_string s.name) e.sections e.shstrtab_idx >>= λ ss.
        ok (s, record e { sections = ss }))

abbrev pub rel_section : Text → Section
rel_section name = record {
  name = codes "rel" ++ name;
  header = record {
    sh_name = 0;
    sh_type = 9;
    sh_flags = 0;
    sh_addr = 0;
    sh_offset = 0;
    sh_size = 0;
    sh_link = 0;
    sh_info = 0;
    sh_addralign = 0;
    sh_entsize = 8;
  };
  body = rel name [];
}

unfoldable pub add_section : Section → Bool → Elf → Result Elf
unfolding find_section add_name
add_section s relocatable e =
    if ltb (find_section e.sections s.name) (length e.sections)
    then err (elf_exception (codes "Cannot add section with duplicate name: " ++ s.name))
    else (add_name s e >>= λ p.
        let moved = p.1.sections ++ p.0 ∷ [] in
        ok (record p.1 {
          sections = if relocatable then moved ++ rel_section s.name ∷ [] else moved;
        }))

unfoldable pub set_section : Text → Elf → Result Elf
unfolding find_section
set_section name e =
    if ltb (find_section e.sections name) (length e.sections)
    then ok (record e {
      curr_section = u32 (find_section e.sections name);
      curr_rel_idx = u32 (find_section e.sections (codes "rel" ++ name));
    })
    else err (elf_exception (codes "Invalid section: " ++ name))

-- `add_string`, whose section is `sections_.at(strtab_idx_)`.
abbrev grow_strings : Text → Section → Result Section
grow_strings s sec = push_string s sec >>= λ t.
    ok (record t { header = record t.header { sh_size = u32 (t.header.sh_size + (length s + 1)) } })

unfoldable pub add_string : Text → Elf → Result Elf
unfolding modify_at push_string
add_string s e =
    modify_at (grow_strings s) e.sections e.strtab_idx >>= λ ss. ok (record e { sections = ss })

-- `strings().size()` of the string table, and `symbols().size()` of the symbol table.
unfoldable pub string_count : Section → Result ℕ
string_count s = elim s.body [ strtab strings ↦ ok (length strings) | _ ↦ err bad_cast ]

unfoldable pub symbol_count : Section → Result ℕ
symbol_count s = elim s.body [ symtab symbols ↦ ok (length symbols) | _ ↦ err bad_cast ]

unfoldable pub push_symbol : Sym → Section → Result Section
push_symbol sym s = elim s.body [
  | symtab symbols ↦ ok (record s { body = symtab (symbols ++ sym ∷ []) })
  | _ ↦ err bad_cast
]

unfoldable pub push_relocation : Rel → Section → Result Section
push_relocation r s = elim s.body [
  | rel other relocations ↦ ok (record s { body = rel other (relocations ++ r ∷ []) })
  | _ ↦ err bad_cast
]

abbrev symbol_info : ℕ → ℕ → ℕ
symbol_info bind type = u8 (bind * 16 + bit_and type 15)

-- The record of symbol `name` in the current section: `idx` is its index in the table of symbols,
-- `nameidx` that of its name in the table of strings.
abbrev pub new_symbol : ℕ → ℕ → ℕ → ℕ → ℕ → ℕ → Elf → Sym
new_symbol nameidx value size type bind visibility e = record {
  st_name = nameidx;
  st_value = value;
  st_size = size;
  st_info = symbol_info bind type;
  st_other = bit_and visibility 3;
  st_shndx = u8 e.curr_section;
}

-- The relocation of a symbol, of type `R_386_32`.
unfoldable pub relocate : Bool → ℕ → ℕ → Elf → Result Elf
unfolding modify_at push_relocation
relocate false idx value e = ok e
relocate true idx value e =
    modify_at (push_relocation (record { r_offset = value; r_info = u32 (idx * 256 + 1) }))
      e.sections e.curr_rel_idx
    >>= λ ss. ok (record e { sections = ss })

-- `add_symbol` behind its test for a duplicate.
unfoldable pub insert_symbol : Text → ℕ → ℕ → ℕ → ℕ → ℕ → Bool → Elf → Result Elf
unfolding at symbol_count string_count add_string modify_at push_symbol relocate
insert_symbol name value size type bind visibility relocatable e = do
  table ← at e.sections e.curr_symtab_idx
  idx ← symbol_count table
  strings ← at e.sections e.strtab_idx
  nameidx ← string_count strings
  e' ← add_string name e
  ss ←
      modify_at (push_symbol (new_symbol (u32 nameidx) value size type bind visibility e'))
        e'.sections e'.curr_symtab_idx
  relocate relocatable (u32 idx) value (record e' { sections = ss })

-- The reference to the symbol that `add_symbol` returns is not used.
unfoldable pub add_symbol : Text → ℕ → ℕ → ℕ → ℕ → ℕ → Bool → Elf → Result Elf
unfolding insert_symbol text_eq
add_symbol name value size type bind visibility relocatable e =
    if any (text_eq name) e.symbol_names
    then err (elf_exception (name ++ codes " cannot be defined twice"))
    else insert_symbol name value size type bind visibility relocatable
        (record e { symbol_names = name ∷ e.symbol_names })

unfoldable pub push_bytes : List ℕ → Section → Result Section
push_bytes bytes s = elim s.body [
  | progbits old ↦ ok (record s { body = progbits (old ++ bytes) })
  | _ ↦ err (elf_exception (codes "Attempted to add PROGBITS to non-PROGBITS section"))
]

unfoldable pub add_progbits : List ℕ → Elf → Result Elf
unfolding modify_at push_bytes
add_progbits bytes e =
    modify_at (push_bytes bytes) e.sections e.curr_section >>= λ ss. ok (record e { sections = ss })
