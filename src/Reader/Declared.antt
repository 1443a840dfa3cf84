-- ===== src/Reader/Declared.antt =====
-- src/elf_writer.cpp: the headers of a written file, read in the order of bytes that its identification
-- declares, and those of a second file that is written from the same object.
use gbas.Prelude.{
  ℕ, ◌+◌, ◌*◌, ◌/◌, ◌%◌, Option, none, ◌<◌, ◌≡◌, refl, sym, ◌∙◌, ap, ap₂, subst, List, [], ◌∷◌,
  length, map, take, drop, get_or, Bool, true, ◌==◌, if◌then◌else◌, some, arith,
}
use gbas.Result.{ok}
use gbas.Words.{swap16, swap32}
use gbas.Elf.Sections.{Shdr}
use gbas.Elf.{Ehdr, Elf}
use gbas.Writer.{
  swap_section_header, swap_elf_header, filled_header, first_strtab, laid_out, swap_headers,
  bodies_bytes, swap_set, written, write, u16,
}
use gbas.Reader.{decode_ehdr, decode_table}
use gbas.Reader.Headers.{EhdrFits, AllFit, section_headers, decode_table-headers_bytes}
use gbas.Reader.Refuses.{read_header}
use gbas.Reader.Written.{
  table_of_write, swap_elf_header-swap_elf_header, length-laid_out, swap_headers-AllFit,
  section_headers-swap_headers,
}

-- A number whose bytes, the lowest of which was taken first, are taken the other way round.
abbrev reversed16 : ℕ → ℕ
reversed16 n = 256 * (n % 256) + n / 256 % 256

abbrev reversed32 : ℕ → ℕ
reversed32 n =
    16777216 * (n % 256) + 65536 * (n / 256 % 256) + 256 * (n / 65536 % 256) + n / 16777216 % 256

abbrev reversed_set : Option ℕ → Option ℕ
reversed_set none = none
reversed_set (some n) = some (reversed16 n)

abbrev pub highest_first : Ehdr → Ehdr
highest_first h = record {
  e_ident = h.e_ident;
  e_type = reversed16 h.e_type;
  e_machine = reversed16 h.e_machine;
  e_version = reversed32 h.e_version;
  e_entry = reversed32 h.e_entry;
  e_phoff = reversed32 h.e_phoff;
  e_shoff = reversed32 h.e_shoff;
  e_flags = reversed32 h.e_flags;
  e_ehsize = reversed16 h.e_ehsize;
  e_phentsize = reversed16 h.e_phentsize;
  e_phnum = reversed16 h.e_phnum;
  e_shentsize = reversed16 h.e_shentsize;
  e_shnum = reversed16 h.e_shnum;
  e_shstrndx = reversed_set h.e_shstrndx;
}

abbrev pub entry_highest_first : Shdr → Shdr
entry_highest_first h = record {
  sh_name = reversed32 h.sh_name;
  sh_type = reversed32 h.sh_type;
  sh_flags = reversed32 h.sh_flags;
  sh_addr = reversed32 h.sh_addr;
  sh_offset = reversed32 h.sh_offset;
  sh_size = reversed32 h.sh_size;
  sh_link = reversed32 h.sh_link;
  sh_info = reversed32 h.sh_info;
  sh_addralign = reversed32 h.sh_addralign;
  sh_entsize = reversed32 h.sh_entsize;
}

swap16-reversed : (n : ℕ) → swap16 n ≡ reversed16 n
unfolding swap16
swap16-reversed n = omega arith

swap32-reversed : (n : ℕ) → swap32 n ≡ reversed32 n
unfolding swap32
swap32-reversed n = omega arith

swap_set-reversed : (o : Option ℕ) → swap_set o ≡ reversed_set o
swap_set-reversed none = refl
swap_set-reversed (some n) = ap some (swap16-reversed n)

-- The code's swaps are these.
swap_elf_header-highest_first : (h : Ehdr) → swap_elf_header h ≡ highest_first h
unfolding swap_elf_header
swap_elf_header-highest_first h = cc (
  swap16-reversed h.e_type,
  swap16-reversed h.e_machine,
  swap32-reversed h.e_version,
  swap32-reversed h.e_entry,
  swap32-reversed h.e_phoff,
  swap32-reversed h.e_shoff,
  swap32-reversed h.e_flags,
  swap16-reversed h.e_ehsize,
  swap16-reversed h.e_phentsize,
  swap16-reversed h.e_phnum,
  swap16-reversed h.e_shentsize,
  swap16-reversed h.e_shnum,
  swap_set-reversed h.e_shstrndx,
)

swap_section_header-highest_first : (h : Shdr) → swap_section_header h ≡ entry_highest_first h
unfolding swap_section_header
swap_section_header-highest_first h = cc (
  swap32-reversed h.sh_name,
  swap32-reversed h.sh_type,
  swap32-reversed h.sh_flags,
  swap32-reversed h.sh_addr,
  swap32-reversed h.sh_offset,
  swap32-reversed h.sh_size,
  swap32-reversed h.sh_link,
  swap32-reversed h.sh_info,
  swap32-reversed h.sh_addralign,
  swap32-reversed h.sh_entsize,
)

map-highest_first : (hs : List Shdr) → map swap_section_header hs ≡ map entry_highest_first hs
map-highest_first [] = refl
map-highest_first (h ∷ hs) = ap₂ ◌∷◌ (swap_section_header-highest_first h) (map-highest_first hs)

-- A header read in the order of bytes that its identification declares: `EI_DATA`, the byte at 5, is 2
-- where the highest byte of a number stands first. `decode_ehdr` takes the lowest byte first.
abbrev pub declares_highest_first : Ehdr → Bool
declares_highest_first h = get_or h.e_ident 5 0 == 2

abbrev pub declared_header : Ehdr → Ehdr
declared_header h = if declares_highest_first h then highest_first h else h

-- The table of headers in the order of bytes that the file header declares.
abbrev pub declared_table : Ehdr → List Shdr → List Shdr
declared_table h hs = if declares_highest_first h then map entry_highest_first hs else hs

-- The identification of a written header is that of the object.
swapped-declares :
    (e : Elf)
    → get_or e.header.e_ident 5 0 ≡ 2
    → declares_highest_first (swap_elf_header (filled_header e)) ≡ true
unfolding swap_elf_header filled_header
swapped-declares e h = rw h refl

declared_header-read :
    (e : Elf) (k : ℕ)
    → EhdrFits (filled_header e) k
    → get_or e.header.e_ident 5 0 ≡ 2
    → declared_header (decode_ehdr (take 52 (write e))) ≡ filled_header e
declared_header-read e k fits h =
    let ident : (length e.header.e_ident ≡ 16) = unfold filled_header in fits.e_ident in
    ap declared_header (read_header e ident)
    ∙ rw (swapped-declares e h) (
        sym (swap_elf_header-highest_first (swap_elf_header (filled_header e)))
        ∙ swap_elf_header-swap_elf_header (filled_header e) k fits)

declared_table-true :
    (h : Ehdr) (hs : List Shdr)
    → declares_highest_first h ≡ true
    → declared_table h hs ≡ map swap_section_header hs
declared_table-true h hs p = rw p (sym (map-highest_first hs))

-- Let the fields of the headers as they are filled in fit their types, and the identification
-- declare that the highest byte of a number stands first. Then the file header that is read at
-- the start of the written file, and the table of headers that is read behind it and the null
-- header, each in the order of bytes that the identification in the file declares, are those
-- headers.
pub decode_table-write :
    (e : Elf)
    → EhdrFits (filled_header e) (u16 (first_strtab e.sections + 1))
    → AllFit (laid_out e.sections)
    → get_or e.header.e_ident 5 0 ≡ 2
    → (declared_header (decode_ehdr (take 52 (write e))) ≡ filled_header e)
      × (hs : List Shdr) × (decode_table (length e.sections) (drop 92 (write e)) ≡ ok hs)
      × (declared_table (decode_ehdr (take 52 (write e))) hs
          ≡ section_headers (laid_out e.sections))
decode_table-write e fits all order =
    let ident : (length e.header.e_ident ≡ 16) = unfold filled_header in fits.e_ident in
    let declares : (declares_highest_first (decode_ehdr (take 52 (write e))) ≡ true) =
      ap declares_highest_first (read_header e ident) ∙ swapped-declares e order in
    (
      declared_header-read e (u16 (first_strtab e.sections + 1)) fits order,
      section_headers (swap_headers (laid_out e.sections)),
      ap₂ decode_table (sym (length-laid_out e.sections)) (table_of_write e ident)
          ∙ decode_table-headers_bytes (swap_headers (laid_out e.sections))
              (bodies_bytes e.sections) (swap_headers-AllFit (laid_out e.sections)),
      declared_table-true (decode_ehdr (take 52 (write e)))
            (section_headers (swap_headers (laid_out e.sections))) declares
          ∙ section_headers-swap_headers (laid_out e.sections) all,
    )

-- The header that the second write fills in: the numbers that the first has swapped, but for the three
-- that are filled in anew.
abbrev pub refilled_header : Elf → Ehdr
refilled_header e = record (highest_first e.header) {
  e_shoff = 52;
  e_shnum = u16 (length e.sections);
  e_shstrndx = some (u16 (first_strtab (swap_headers (laid_out e.sections)) + 1));
}

refilled : (e : Elf) → filled_header (written e) ≡ refilled_header e
unfolding filled_header written swap_elf_header
refilled e =
    let count = length-laid_out e.sections in
    let rest = swap_elf_header-highest_first e.header in
    rw count (
      ap {A = Ehdr} {B = Ehdr}
        (λ h. record h {
          e_shoff = 52;
          e_shnum = u16 (length e.sections);
          e_shstrndx = some (u16 (first_strtab (swap_headers (laid_out e.sections)) + 1));
        })
        rest)

u16-small : (n : ℕ) → u16 n < 65536
u16-small n = omega arith

reversed16-small : (n : ℕ) → reversed16 n < 65536
reversed16-small n = omega arith

reversed32-small : (n : ℕ) → reversed32 n < 4294967296
reversed32-small n = omega arith

refilled-EhdrFits :
    (e : Elf)
    → length e.header.e_ident ≡ 16
    → EhdrFits (refilled_header e) (u16 (first_strtab (swap_headers (laid_out e.sections)) + 1))
refilled-EhdrFits e ident = record {
  e_ident = ident;
  e_type = reversed16-small e.header.e_type;
  e_machine = reversed16-small e.header.e_machine;
  e_version = reversed32-small e.header.e_version;
  e_entry = reversed32-small e.header.e_entry;
  e_phoff = reversed32-small e.header.e_phoff;
  e_shoff = omega arith;
  e_flags = reversed32-small e.header.e_flags;
  e_ehsize = reversed16-small e.header.e_ehsize;
  e_phentsize = reversed16-small e.header.e_phentsize;
  e_phnum = reversed16-small e.header.e_phnum;
  e_shentsize = reversed16-small e.header.e_shentsize;
  e_shnum = u16-small (length e.sections);
  shstrndx_bound = u16-small (first_strtab (swap_headers (laid_out e.sections)) + 1);
  e_shstrndx = refl;
}

-- Let the identification have sixteen bytes and declare that the highest byte of a number stands
-- first. Then the file header of a second file that is written from the same object, read in the
-- order of bytes that the identification declares, has each number of the object's header with
-- its bytes reversed, but for the place and the number of the headers and the index of the
-- section names, which are filled in again.
pub write-written :
    (e : Elf)
    → length e.header.e_ident ≡ 16
    → get_or e.header.e_ident 5 0 ≡ 2
    → declared_header (decode_ehdr (take 52 (write (written e)))) ≡ refilled_header e
write-written e ident order =
    let k = u16 (first_strtab (swap_headers (laid_out e.sections)) + 1) in
    declared_header-read (written e) k
      (subst (λ h. EhdrFits h k) (sym (refilled e)) (refilled-EhdrFits e ident))
      (unfold written swap_elf_header filled_header in order)
    ∙ refilled e
