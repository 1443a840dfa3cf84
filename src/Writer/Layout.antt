-- ===== src/Writer/Layout.antt =====
-- src/elf_writer.cpp, src/elf.cpp: the written file told in bytes, the highest of each number first.
use gbas.Prelude.{ℕ, ◌/◌, ◌%◌, ◌≡◌, refl, ap, ap₂, List, [], ◌∷◌, ◌++◌, arith, Option, none, some}
use gbas.Words.{le16, swap16, le32-swap32}
use gbas.Elf.Sections.{Shdr, Section}
use gbas.Elf.{Ehdr, Elf}
use gbas.Writer.{
  or_zero, swap_set, swap_section_header, swap_elf_header, filled_header, ehdr_bytes, ehdr_fields,
  shdr_bytes, laid_out, swap_headers, headers_bytes, bodies_bytes, zeros, written, front, write,
}

abbrev pub be16 : ℕ → List ℕ
be16 n = n / 256 % 256 ∷ n % 256 ∷ []

abbrev pub be32 : ℕ → List ℕ
be32 n = n / 16777216 % 256 ∷ n / 65536 % 256 ∷ n / 256 % 256 ∷ n % 256 ∷ []

abbrev pub be_ehdr : Ehdr → List ℕ
be_ehdr h =
    h.e_ident
    ++ (be16 h.e_type
        ++ be16 h.e_machine
        ++ be32 h.e_version
        ++ be32 h.e_entry
        ++ be32 h.e_phoff
        ++ be32 h.e_shoff
        ++ be32 h.e_flags
        ++ be16 h.e_ehsize
        ++ be16 h.e_phentsize
        ++ be16 h.e_phnum
        ++ be16 h.e_shentsize
        ++ be16 h.e_shnum
        ++ be16 (or_zero h.e_shstrndx))

abbrev pub be_shdr : Shdr → List ℕ
be_shdr h =
    be32 h.sh_name
    ++ be32 h.sh_type
    ++ be32 h.sh_flags
    ++ be32 h.sh_addr
    ++ be32 h.sh_offset
    ++ be32 h.sh_size
    ++ be32 h.sh_link
    ++ be32 h.sh_info
    ++ be32 h.sh_addralign
    ++ be32 h.sh_entsize

abbrev pub be_table : List Section → List ℕ
be_table [] = []
be_table (s ∷ ss) = be_shdr s.header ++ be_table ss

le16-swap16 : (n : ℕ) → le16 (swap16 n) ≡ be16 n
unfolding swap16
le16-swap16 n = cc (low, high)
  where
    low : swap16 n % 256 ≡ n / 256 % 256
    low = omega arith

    high : swap16 n / 256 % 256 ≡ n % 256
    high = omega arith

join : {a b c d : List ℕ} → a ≡ b → c ≡ d → a ++ c ≡ b ++ d
join p q = ap₂ (◌++◌) p q

shdr_bytes-swap_section_header : (h : Shdr) → shdr_bytes (swap_section_header h) ≡ be_shdr h
unfolding swap_section_header shdr_bytes
shdr_bytes-swap_section_header h = join (le32-swap32 h.sh_name) (
    join (le32-swap32 h.sh_type) (
      join (le32-swap32 h.sh_flags) (
        join (le32-swap32 h.sh_addr) (
          join (le32-swap32 h.sh_offset) (
            join (le32-swap32 h.sh_size) (
              join (le32-swap32 h.sh_link) (
                join (le32-swap32 h.sh_info)
                  (join (le32-swap32 h.sh_addralign) (le32-swap32 h.sh_entsize)))))))))

last_field : (o : Option ℕ) → le16 (or_zero (swap_set o)) ≡ be16 (or_zero o)
last_field none = refl
last_field (some k) = le16-swap16 k

ehdr_bytes-swap_elf_header : (h : Ehdr) → ehdr_bytes (swap_elf_header h) ≡ be_ehdr h
unfolding swap_elf_header ehdr_bytes ehdr_fields
ehdr_bytes-swap_elf_header h =
    ap (λ fields. h.e_ident ++ fields)
      (join (le16-swap16 h.e_type) (
        join (le16-swap16 h.e_machine) (
          join (le32-swap32 h.e_version) (
            join (le32-swap32 h.e_entry) (
              join (le32-swap32 h.e_phoff) (
                join (le32-swap32 h.e_shoff) (
                  join (le32-swap32 h.e_flags) (
                    join (le16-swap16 h.e_ehsize) (
                      join (le16-swap16 h.e_phentsize) (
                        join (le16-swap16 h.e_phnum) (
                          join (le16-swap16 h.e_shentsize)
                            (join (le16-swap16 h.e_shnum) (last_field h.e_shstrndx)))))))))))))

headers_bytes-swap_headers : (ss : List Section) → headers_bytes (swap_headers ss) ≡ be_table ss
unfolding swap_headers headers_bytes
headers_bytes-swap_headers [] = refl
headers_bytes-swap_headers (s ∷ ss) =
    join (shdr_bytes-swap_section_header s.header) (headers_bytes-swap_headers ss)

-- The file that is written is the file header as it is filled in, a null header, the section
-- headers as they are filled in and the bodies of the sections, where each number of a header is
-- written with its highest byte first.
pub write_lem :
    (e : Elf)
    → write e
      ≡ (be_ehdr (filled_header e) ++ (zeros 40 ++ be_table (laid_out e.sections)))
        ++ bodies_bytes e.sections
unfolding write front written
write_lem e =
    ap (λ front. front ++ bodies_bytes e.sections)
      (join (ehdr_bytes-swap_elf_header (filled_header e))
        (ap (λ table. zeros 40 ++ table) (headers_bytes-swap_headers (laid_out e.sections))))
