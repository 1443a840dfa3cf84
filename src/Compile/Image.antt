-- ===== src/Compile/Image.antt =====
-- src/main.cpp: the machine code of a program in the object file.
use gbas.Prelude.{ℕ, ap₂, ◌≡◌, refl, subst, [], ◌∷◌, List, Text, codes}
use gbas.Result.{ok, ok-injective}
use gbas.Ast.{Nodes, root}
use gbas.Tokenizer.{TokenList, tokenize}
use gbas.Parser.Program.{parse}
use gbas.Elf.Sections.{Section, Body, at}
use gbas.Elf.{Elf}
use gbas.Elf.New.{new_section, new_elf}
use gbas.Elf.Names.{section_names}
use gbas.Elf.Places.{Holds}
use gbas.Assembler.{assemble}
use gbas.Assembler.Safe.{AllNames}
use gbas.Assembler.Image.{image}
use gbas.Assembler.Refines.{assemble-Holds}
use gbas.Compile.{compile_passes, compile}
use gbas.Compile.Ends.{AllLines-AllNames, new_elf-IsValid}

abbrev pub new_names : List Text
new_names =
    codes "shstrtab"
    ∷ codes "strtab"
    ∷ codes "data"
    ∷ codes "rodata"
    ∷ codes "bss"
    ∷ codes "text"
    ∷ codes "init"
    ∷ codes "symtab"
    ∷ []

-- The indices of `data`, `rodata`, `bss`, `text` and `init`.
pub data IsBytes : ℕ → Type 0 where
  data_ : IsBytes 2
  rodata : IsBytes 3
  bss : IsBytes 4
  text : IsBytes 5
  init : IsBytes 6

abbrev empty_section : Text → ℕ → ℕ → Section
empty_section name type flags = new_section name type flags 0 (Body.progbits [])

pub new_elf-Holds : (e : Elf) (i : ℕ) → new_elf ≡ ok e → IsBytes i → Holds e i []
unfolding new_elf at
new_elf-Holds e i h data_ =
    subst (λ x. Holds x 2 []) (ok-injective h) (empty_section (codes "data") 1 3, refl, refl)
new_elf-Holds e i h rodata =
    subst (λ x. Holds x 3 []) (ok-injective h) (empty_section (codes "rodata") 1 2, refl, refl)
new_elf-Holds e i h bss =
    subst (λ x. Holds x 4 []) (ok-injective h) (empty_section (codes "bss") 8 3, refl, refl)
new_elf-Holds e i h text =
    subst (λ x. Holds x 5 []) (ok-injective h) (empty_section (codes "text") 1 6, refl, refl)
new_elf-Holds e i h init =
    subst (λ x. Holds x 6 []) (ok-injective h) (empty_section (codes "init") 1 6, refl, refl)

abbrev Starts : Elf → Type 0
Starts e = (section_names e.sections ≡ new_names) × (e.curr_section ≡ 0)

pub new_elf-Starts : (e : Elf) → new_elf ≡ ok e → Starts e
unfolding new_elf
new_elf-Starts e h = subst Starts (ok-injective h) (refl, refl)

assembled :
    (ns : Nodes) (new : Elf) {e : Elf} (i : ℕ)
    → AllNames ns
    → new_elf ≡ ok new
    → assemble ns new ≡ ok e
    → IsBytes i
    → Holds e i (image new_names 0 ns i)
assembled ns new {e} i a q h b =
    let (names, current) = new_elf-Starts new q in
    subst (Holds e i) (ap₂ (λ names cur. image names cur ns i) names current)
      (assemble-Holds ns new i [] a (new_elf-IsValid new q) h (new_elf-Holds new i q b))

-- If all passes accept a program, there are the tokens and the nodes that the tokenizer and the
-- parser returned, and each of the sections `data`, `rodata`, `bss`, `text` and `init` of the
-- object file holds the image of those nodes: the bytes of the instructions for which it is the
-- current section, in the order of the program.
pub compile-Holds :
    (input : Text) {e : Elf} (i : ℕ)
    → compile input ≡ ok e
    → IsBytes i
    → (tokens : TokenList) × (ns : Nodes) × (tokenize input ≡ ok tokens)
      × (parse tokens ≡ ok (root ns))
      × Holds e i (image new_names 0 ns i)
compile-Holds input i h b =
    let (tokens, ns, new, o, p, lines, q, run) = compile_passes input h in
    (tokens, ns, o, p, assembled ns new i (AllLines-AllNames ns lines) q run b)
