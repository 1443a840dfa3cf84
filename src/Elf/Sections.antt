-- ===== src/Elf/Sections.antt =====
-- include/elf.hpp: the sections of an object file, and `sections_.at(i)`.
use gbas.Prelude.{
  ℕ, zero, suc, ◌+◌, ◌*◌, ◌%◌, List, [], ◌∷◌, ◌++◌, length, if◌then◌else◌, Text, text_eq,
}
use gbas.Result.{Result, ok, err, ◌>>=◌, out_of_range, bad_cast}

-- The conversions to `uint32_t` and `uint8_t`.
abbrev pub u32 : ℕ → ℕ
u32 n = n % 4294967296

abbrev pub u8 : ℕ → ℕ
u8 n = n % 256

pub record Shdr : Type 0 where
  pub sh_name : ℕ
  pub sh_type : ℕ
  pub sh_flags : ℕ
  pub sh_addr : ℕ
  pub sh_offset : ℕ
  pub sh_size : ℕ
  pub sh_link : ℕ
  pub sh_info : ℕ
  pub sh_addralign : ℕ
  pub sh_entsize : ℕ

pub record Sym : Type 0 where
  pub st_name : ℕ
  pub st_value : ℕ
  pub st_size : ℕ
  pub st_info : ℕ
  pub st_other : ℕ
  pub st_shndx : ℕ

pub record Rel : Type 0 where
  pub r_offset : ℕ
  pub r_info : ℕ

-- The data of `ProgramSection`, `StrTabSection`, `SymTabSection` and `RelSection`. The text of the
-- last is the name of the section it is about.
pub data Body : Type 0 where
  progbits : List ℕ → Body
  strtab : List Text → Body
  symtab : List Sym → Body
  rel : Text → List Rel → Body

pub record Section : Type 0 where
  pub name : Text
  pub header : Shdr
  pub body : Body

pub data SectionType : Type 0 where
  progbits strtab symtab rel invalid : SectionType

unfoldable pub section_type : Body → SectionType
section_type (Body.progbits _) = SectionType.progbits
section_type (Body.strtab _) = SectionType.strtab
section_type (Body.symtab _) = SectionType.symtab
section_type (Body.rel _ _) = SectionType.rel

-- `size()` of each class.
unfoldable pub strings_size : List Text → ℕ
strings_size [] = 0
strings_size (s ∷ ss) = (length s + 1) + strings_size ss

unfoldable pub section_size : Body → ℕ
unfolding strings_size
section_size (Body.progbits bytes) = length bytes
section_size (Body.strtab strings) = strings_size strings
section_size (Body.symtab symbols) = 16 * length symbols
section_size (Body.rel _ relocations) = 8 * length relocations

-- A change of `*sections_.at(i)`.
unfoldable pub modify_at : (Section → Result Section) → List Section → ℕ → Result (List Section)
modify_at f [] i = err out_of_range
modify_at f (s ∷ ss) zero = f s >>= λ t. ok (t ∷ ss)
modify_at f (s ∷ ss) (suc i) = modify_at f ss i >>= λ ts. ok (s ∷ ts)

unfoldable pub at : List Section → ℕ → Result Section
at [] i = err out_of_range
at (s ∷ ss) zero = ok s
at (s ∷ ss) (suc i) = at ss i

-- `std::distance(begin, find_if(...))`: the number of sections if none has the name.
unfoldable pub find_section : List Section → Text → ℕ
unfolding text_eq
find_section [] name = 0
find_section (s ∷ ss) name =
    let rest = find_section ss name in if text_eq s.name name then 0 else suc rest

unfoldable pub push_string : Text → Section → Result Section
push_string str s = elim s.body [
  | Body.strtab strings ↦ ok (record s { body = Body.strtab (strings ++ str ∷ []) })
  | _ ↦ err bad_cast
]
