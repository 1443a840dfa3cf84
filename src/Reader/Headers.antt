-- ===== src/Reader/Headers.antt =====
-- src/elf_reader.cpp: the headers that are read are those whose bytes were written.
use gbas.Prelude.{
  ℕ, suc, ◌+◌, ◌*◌, ◌<◌, ◌≡◌, refl, ◌∙◌, ap, ap₂, List, [], ◌∷◌, ◌++◌, Option, none, some, length,
  append_assoc, false, ◌≤◌, drop, take, take_front, get_or, get_or-append, ltb, arith,
}
use gbas.Result.{ok, ◌>>=◌}
use gbas.Words.{word16, word32, word16-le16, word32-le32}
use gbas.Elf.Sections.{Shdr, Section}
use gbas.Elf.{Ehdr}
use gbas.Writer.{ehdr_bytes, ehdr_fields, shdr_bytes, headers_bytes}
use gbas.Reader.{decode_ehdr, decode_shdr, decode_table}

-- The fields of a header fit their types.
pub record ShdrFits (h : Shdr) : Type 0 where
  pub sh_name : h.sh_name < 4294967296
  pub sh_type : h.sh_type < 4294967296
  pub sh_flags : h.sh_flags < 4294967296
  pub sh_addr : h.sh_addr < 4294967296
  pub sh_offset : h.sh_offset < 4294967296
  pub sh_size : h.sh_size < 4294967296
  pub sh_link : h.sh_link < 4294967296
  pub sh_info : h.sh_info < 4294967296
  pub sh_addralign : h.sh_addralign < 4294967296
  pub sh_entsize : h.sh_entsize < 4294967296

pub record EhdrFits (h : Ehdr) (shstrndx : ℕ) : Type 0 where
  pub e_ident : length h.e_ident ≡ 16
  pub e_type : h.e_type < 65536
  pub e_machine : h.e_machine < 65536
  pub e_version : h.e_version < 4294967296
  pub e_entry : h.e_entry < 4294967296
  pub e_phoff : h.e_phoff < 4294967296
  pub e_shoff : h.e_shoff < 4294967296
  pub e_flags : h.e_flags < 4294967296
  pub e_ehsize : h.e_ehsize < 65536
  pub e_phentsize : h.e_phentsize < 65536
  pub e_phnum : h.e_phnum < 65536
  pub e_shentsize : h.e_shentsize < 65536
  pub e_shnum : h.e_shnum < 65536
  pub shstrndx_bound : shstrndx < 65536
  pub e_shstrndx : h.e_shstrndx ≡ some shstrndx

pub decode_shdr-shdr_bytes : (h : Shdr) → ShdrFits h → decode_shdr (shdr_bytes h) ≡ h
unfolding decode_shdr shdr_bytes
decode_shdr-shdr_bytes h r = cc (
  word32-le32 h.sh_name r.sh_name,
  word32-le32 h.sh_type r.sh_type,
  word32-le32 h.sh_flags r.sh_flags,
  word32-le32 h.sh_addr r.sh_addr,
  word32-le32 h.sh_offset r.sh_offset,
  word32-le32 h.sh_size r.sh_size,
  word32-le32 h.sh_link r.sh_link,
  word32-le32 h.sh_info r.sh_info,
  word32-le32 h.sh_addralign r.sh_addralign,
  word32-le32 h.sh_entsize r.sh_entsize,
)

word16-behind : (xs ys : List ℕ) (n i : ℕ) → length xs ≡ n → word16 (xs ++ ys) (n + i) ≡ word16 ys i
word16-behind xs ys n i h =
    ap₂ (λ a b. a + 256 * b) (get_or-append xs ys n i 0 h)
      (ap (λ k. get_or (xs ++ ys) k 0) (omega arith) ∙ get_or-append xs ys n (1 + i) 0 h)

word32-behind : (xs ys : List ℕ) (n i : ℕ) → length xs ≡ n → word32 (xs ++ ys) (n + i) ≡ word32 ys i
word32-behind xs ys n i h =
    ap₂ (λ a b. a + 65536 * b) (word16-behind xs ys n i h)
      (ap (λ k. word16 (xs ++ ys) k) (omega arith) ∙ word16-behind xs ys n (2 + i) h)

last_field :
    (o : Option ℕ) (h : Ehdr) {k : ℕ}
    → o ≡ some k
    → h.e_shstrndx ≡ o
    → k < 65536
    → word16 (ehdr_fields h) 34 ≡ k
unfolding ehdr_fields
last_field none h p q b = cc
last_field (some k) h p q b = ground (arith, q)

-- If the fields of a file header fit their types and the index of the string table is set, the
-- bytes of the header are decoded to it.
pub decode_ehdr-ehdr_bytes :
    (h : Ehdr) (shstrndx : ℕ) → EhdrFits h shstrndx → decode_ehdr (ehdr_bytes h) ≡ h
unfolding decode_ehdr ehdr_bytes
decode_ehdr-ehdr_bytes h shstrndx r =
    let xs = h.e_ident in
    let fields = ehdr_fields h in
    let half = λ (i : ℕ). word16-behind h.e_ident (ehdr_fields h) 16 i r.e_ident in
    let word = λ (i : ℕ). word32-behind h.e_ident (ehdr_fields h) 16 i r.e_ident in
    unfold ehdr_fields in
    cc (
      take_front h.e_ident (ehdr_fields h) 16 r.e_ident,
      half 0 ∙ word16-le16 h.e_type r.e_type,
      half 2 ∙ word16-le16 h.e_machine r.e_machine,
      word 4 ∙ word32-le32 h.e_version r.e_version,
      word 8 ∙ word32-le32 h.e_entry r.e_entry,
      word 12 ∙ word32-le32 h.e_phoff r.e_phoff,
      word 16 ∙ word32-le32 h.e_shoff r.e_shoff,
      word 20 ∙ word32-le32 h.e_flags r.e_flags,
      half 24 ∙ word16-le16 h.e_ehsize r.e_ehsize,
      half 26 ∙ word16-le16 h.e_phentsize r.e_phentsize,
      half 28 ∙ word16-le16 h.e_phnum r.e_phnum,
      half 30 ∙ word16-le16 h.e_shentsize r.e_shentsize,
      half 32 ∙ word16-le16 h.e_shnum r.e_shnum,
      half 34 ∙ last_field h.e_shstrndx h r.e_shstrndx refl r.shstrndx_bound,
      r.e_shstrndx,
    )

abbrev pub section_headers : List Section → List Shdr
section_headers [] = []
section_headers (s ∷ ss) = s.header ∷ section_headers ss

abbrev pub AllFit : List Section → Type 0
AllFit [] = Unit
AllFit (s ∷ ss) = ShdrFits s.header × AllFit ss

not_short : (n : ℕ) → 40 ≤ n → ltb n 40 ≡ false
not_short n h = ground arith

decode_table-step :
    (h : Shdr) (rest : List ℕ) (n : ℕ)
    → ShdrFits h
    → decode_table (suc n) (shdr_bytes h ++ rest) ≡ (decode_table n rest >>= λ hs. ok (h ∷ hs))
unfolding decode_table
decode_table-step h rest n fits =
    let front : (take 40 (shdr_bytes h ++ rest) ≡ shdr_bytes h) = unfold shdr_bytes in refl in
    let back : (drop 40 (shdr_bytes h ++ rest) ≡ rest) = unfold shdr_bytes in refl in
    let long : (ltb (length (shdr_bytes h ++ rest)) 40 ≡ false) =
      not_short _ (unfold shdr_bytes in omega arith) in
    rw (long, front, back, decode_shdr-shdr_bytes h fits) refl

-- If the fields of the headers of some sections fit their types, the bytes of those headers are
-- decoded to them, whatever follows the bytes.
pub decode_table-headers_bytes :
    (ss : List Section) (rest : List ℕ)
    → AllFit ss
    → decode_table (length ss) (headers_bytes ss ++ rest) ≡ ok (section_headers ss)
unfolding headers_bytes
decode_table-headers_bytes [] rest h = unfold decode_table in refl
decode_table-headers_bytes (s ∷ ss) rest h = rw append_assoc (
    decode_table-step s.header (headers_bytes ss ++ rest) (length ss) h.0
    ∙ ap (λ r. r >>= λ hs. ok (s.header ∷ hs)) (decode_table-headers_bytes ss rest h.1))
