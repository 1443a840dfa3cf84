-- ===== src/Reader/Written.antt =====
-- src/elf_writer.cpp, src/elf.cpp: the swaps of headers, and where a written file has its table of headers.
use gbas.Prelude.{
  ℕ, ◌≡◌, refl, sym, ◌∙◌, ap, suc, List, [], ◌∷◌, ◌++◌, append_assoc, length, map, drop,
  drop-append, drop-drop, arith,
}
use gbas.Words.{swap32, swap16-swap16, swap32-swap32}
use gbas.Elf.Sections.{Shdr, Section}
use gbas.Elf.{Ehdr, Elf}
use gbas.Writer.{
  swap_section_header, swap_elf_header, filled_header, ehdr_bytes, laid_out, lay_out, swap_headers,
  headers_bytes, bodies_bytes, zeros, written, front, write,
}
use gbas.Writer.Offsets.{length-ehdr_bytes}
use gbas.Reader.Headers.{ShdrFits, EhdrFits, AllFit, section_headers}

-- To swap twice changes nothing in a header whose fields fit.
swap_section_header-swap_section_header :
    (h : Shdr) → ShdrFits h → swap_section_header (swap_section_header h) ≡ h
unfolding swap_section_header
swap_section_header-swap_section_header h r = cc (
  swap32-swap32 h.sh_name r.sh_name,
  swap32-swap32 h.sh_type r.sh_type,
  swap32-swap32 h.sh_flags r.sh_flags,
  swap32-swap32 h.sh_addr r.sh_addr,
  swap32-swap32 h.sh_offset r.sh_offset,
  swap32-swap32 h.sh_size r.sh_size,
  swap32-swap32 h.sh_link r.sh_link,
  swap32-swap32 h.sh_info r.sh_info,
  swap32-swap32 h.sh_addralign r.sh_addralign,
  swap32-swap32 h.sh_entsize r.sh_entsize,
)

pub swap_elf_header-swap_elf_header :
    (h : Ehdr) (k : ℕ) → EhdrFits h k → swap_elf_header (swap_elf_header h) ≡ h
unfolding swap_elf_header
swap_elf_header-swap_elf_header h k r = cc (
  swap16-swap16 h.e_type r.e_type,
  swap16-swap16 h.e_machine r.e_machine,
  swap32-swap32 h.e_version r.e_version,
  swap32-swap32 h.e_entry r.e_entry,
  swap32-swap32 h.e_phoff r.e_phoff,
  swap32-swap32 h.e_shoff r.e_shoff,
  swap32-swap32 h.e_flags r.e_flags,
  swap16-swap16 h.e_ehsize r.e_ehsize,
  swap16-swap16 h.e_phentsize r.e_phentsize,
  swap16-swap16 h.e_phnum r.e_phnum,
  swap16-swap16 h.e_shentsize r.e_shentsize,
  swap16-swap16 h.e_shnum r.e_shnum,
  swap16-swap16 k r.shstrndx_bound,
  r.e_shstrndx,
)

-- The headers that are written fit.
pub swapped-ShdrFits : (h : Shdr) → ShdrFits (swap_section_header h)
unfolding swap_section_header swap32
swapped-ShdrFits h = record {
  sh_name = omega arith;
  sh_type = omega arith;
  sh_flags = omega arith;
  sh_addr = omega arith;
  sh_offset = omega arith;
  sh_size = omega arith;
  sh_link = omega arith;
  sh_info = omega arith;
  sh_addralign = omega arith;
  sh_entsize = omega arith;
}

pub swap_headers-AllFit : (ss : List Section) → AllFit (swap_headers ss)
unfolding swap_headers
swap_headers-AllFit [] = tt
swap_headers-AllFit (s ∷ ss) = (swapped-ShdrFits s.header, swap_headers-AllFit ss)

pub section_headers-swap_headers :
    (ss : List Section)
    → AllFit ss
    → map swap_section_header (section_headers (swap_headers ss)) ≡ section_headers ss
unfolding swap_headers
section_headers-swap_headers [] h = refl
section_headers-swap_headers (s ∷ ss) (h, k) =
    rw (swap_section_header-swap_section_header s.header h, section_headers-swap_headers ss k) refl

length-swapped :
    (ss : List Section) (name offset : ℕ)
    → length (swap_headers (lay_out name offset ss)) ≡ length ss
unfolding swap_headers lay_out
length-swapped [] name offset = refl
length-swapped (s ∷ ss) name offset = ap suc (length-swapped ss _ _)

pub length-laid_out : (ss : List Section) → length (swap_headers (laid_out ss)) ≡ length ss
unfolding laid_out
length-laid_out ss = length-swapped ss _ _

-- The table of headers stands behind the file header and the null header.
write_parts :
    (e : Elf)
    → write e
      ≡ (ehdr_bytes (swap_elf_header (filled_header e))
          ++ (zeros 40 ++ headers_bytes (swap_headers (laid_out e.sections))))
        ++ bodies_bytes e.sections
unfolding write front written
write_parts e = refl

behind_null :
    (head table bodies : List ℕ)
    → length head ≡ 52
    → drop 92 ((head ++ (zeros 40 ++ table)) ++ bodies) ≡ table ++ bodies
behind_null head table bodies h =
    let rest = (zeros 40 ++ table) ++ bodies in
    let front : (drop 52 (head ++ rest) ≡ rest) =
      ap (λ n. drop n (head ++ rest)) (sym h) ∙ drop-append head rest in
    ap (drop 92) (append_assoc head (zeros 40 ++ table) bodies)
    ∙ sym (drop-drop 40 52 (head ++ rest))
    ∙ ap (drop 40) front

pub table_of_write :
    (e : Elf)
    → length e.header.e_ident ≡ 16
    → drop 92 (write e)
      ≡ headers_bytes (swap_headers (laid_out e.sections)) ++ bodies_bytes e.sections
table_of_write e p =
    ap (drop 92) (write_parts e)
    ∙ behind_null (ehdr_bytes (swap_elf_header (filled_header e)))
        (headers_bytes (swap_headers (laid_out e.sections))) (bodies_bytes e.sections)
        (length-ehdr_bytes (swap_elf_header (filled_header e))
          (unfold swap_elf_header filled_header in p))
