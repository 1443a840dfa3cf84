-- ===== src/Compile/Output.antt =====
-- src/main.cpp, src/elf_writer.cpp: the machine code of a program in the file that is written.
use gbas.Prelude.{
  ℕ, zero, suc, ◌<◌, ◌≡◌, refl, ◌∙◌, ap, subst, List, [], ◌∷◌, length, take, drop, Text,
}
use gbas.Result.{ok, ok-injective}
use gbas.Ast.{Nodes, root}
use gbas.Tokenizer.{TokenList, tokenize}
use gbas.Parser.Program.{parse}
use gbas.Elf.Sections.{Section, at}
use gbas.Elf.{Elf}
use gbas.Elf.New.{new_elf}
use gbas.Elf.Places.{Holds}
use gbas.Assembler.Image.{image}
use gbas.Assembler.Header.{assemble-header}
use gbas.Writer.{lay_out, laid_out, section_bytes, write}
use gbas.Writer.Offsets.{write-Holds}
use gbas.Compile.{compile_passes, compile}
use gbas.Compile.Ends.{AllLines-AllNames, new_elf-IsValid}
use gbas.Compile.Image.{IsBytes, new_names, compile-Holds}

-- Laying out the headers keeps the bodies.
lay_out-body :
    (ss : List Section) (name offset i : ℕ) {s : Section}
    → at ss i ≡ ok s
    → (t : Section) × (at (lay_out name offset ss) i ≡ ok t) × (t.body ≡ s.body)
unfolding lay_out at
lay_out-body [] name offset i h = cc
lay_out-body (s ∷ ss) name offset zero h = (_, refl, ap (λ x. x.body) (ok-injective h))
lay_out-body (s ∷ ss) name offset (suc i) h = lay_out-body ss _ _ i h

laid_out-body :
    (ss : List Section) (i : ℕ) {s : Section}
    → at ss i ≡ ok s
    → (t : Section) × (at (laid_out ss) i ≡ ok t) × (t.body ≡ s.body)
unfolding laid_out
laid_out-body ss i h = lay_out-body ss _ _ i h

-- The header of a new file stays as it is.
pub compile-header :
    (input : Text) {e : Elf}
    → compile input ≡ ok e
    → (new : Elf) × (new_elf ≡ ok new) × (e.header ≡ new.header)
compile-header input h =
    let (_, ns, new, _, _, lines, q, run) = compile_passes input h in
    (new, q, assemble-header ns new (AllLines-AllNames ns lines) (new_elf-IsValid new q) run)

new_elf-ident : (e : Elf) → new_elf ≡ ok e → length e.header.e_ident ≡ 16
unfolding new_elf
new_elf-ident e h = subst (λ x. length x.header.e_ident ≡ 16) (ok-injective h) refl

pub compile-ident : (input : Text) {e : Elf} → compile input ≡ ok e → length e.header.e_ident ≡ 16
compile-ident input h =
    let (new, q, kept) = compile-header input h in
    ap (λ x. length x.e_ident) kept ∙ new_elf-ident new q

-- The bytes that the header of the section at an index gives, in the written file.
abbrev pub Written : Elf → ℕ → List ℕ → Type 0
Written e i bytes =
    (s : Section) × (at (laid_out e.sections) i ≡ ok s)
    × (take s.header.sh_size (drop s.header.sh_offset (write e)) ≡ bytes)

pub Holds-Written :
    (e : Elf) (i : ℕ) (bytes : List ℕ)
    → length e.header.e_ident ≡ 16
    → length (write e) < 4294967296
    → Holds e i bytes
    → Written e i bytes
Holds-Written e i bytes p size (s, at_i, b) =
    let (t, at_t, c) = laid_out-body e.sections i at_i in
    (
      t,
      at_t,
      write-Holds e i t p size at_t ∙ ap section_bytes (c ∙ b) ∙ (unfold section_bytes in refl),
    )

-- Let all passes accept a program and the file that is written have fewer than 2 ^ 32 bytes.
-- Then there are the tokens and the nodes that the tokenizer and the parser returned, and for
-- each of the sections `data`, `rodata`, `bss`, `text` and `init` the bytes at the offset and of
-- the size that its header gives in the written file are the image of those nodes.
pub compile-Written :
    (input : Text) {e : Elf} (i : ℕ)
    → compile input ≡ ok e
    → IsBytes i
    → length (write e) < 4294967296
    → (tokens : TokenList) × (ns : Nodes) × (tokenize input ≡ ok tokens)
      × (parse tokens ≡ ok (root ns))
      × Written e i (image new_names 0 ns i)
compile-Written input {e} i h b size =
    let (tokens, ns, o, p, held) = compile-Holds input i h b in
    (tokens, ns, o, p, Holds-Written e i (image new_names 0 ns i) (compile-ident input h) size held)
