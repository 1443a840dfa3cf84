-- ===== src/Main/Machine.antt =====
-- src/main.cpp: `main` on a file of machine code.
use gbas.Prelude.{
  ℕ, suc, ◌+◌, ◌<◌, ◌≡◌, refl, ◌∙◌, ap, subst, false, ltb, length, length-append, List, Option,
  some, any, Text, arith,
}
use gbas.Result.{ok, ok-injective}
use gbas.Tokenizer.{TokenList, get_lines}
use gbas.Tokenizer.Lines.{AllRead}
use gbas.Elf.{Elf}
use gbas.Elf.New.{new_elf}
use gbas.Elf.Valid.{length-Extends}
use gbas.Writer.{front, write, bodies_bytes}
use gbas.Writer.Offsets.{length-front}
use gbas.Reader.Entry.{IsPlain, Contains, write-Contains}
use gbas.Compile.{compile, compile-Kept}
use gbas.Compile.Output.{compile-header, compile-ident, Holds-Written}
use gbas.Compile.Machine.{IsByteSection, data_, rodata, bss, text, init, Placed, Emits, bytes_at}
use gbas.Compile.Size.{size}
use gbas.Compile.Accepts.{Emits-Filled}
use gbas.Main.{Parsed, created, main}
use gbas.Main.Options.{asks_tokens, asks_tree}
use gbas.Main.Created.{main-created}

new_elf-plain : (e : Elf) → new_elf ≡ ok e → (e.header.e_shentsize ≡ 40) × (length e.sections ≡ 8)
unfolding new_elf
new_elf-plain e h =
    subst (λ x. (x.header.e_shentsize ≡ 40) × (length x.sections ≡ 8)) (ok-injective h) (refl, refl)

compile-IsPlain : (input : Text) (e : Elf) → compile input ≡ ok e → IsPlain e 8
compile-IsPlain input e h =
    let (new, q, kept) = compile-header input h in
    let (new', q', (extends, _, _, _), _) = compile-Kept input h in
    (
      compile-ident input h,
      ap (λ x. x.e_shentsize) kept ∙ (new_elf-plain new q).0,
      length-Extends extends ∙ (new_elf-plain new' q').1,
    )

length-write : (e : Elf) → IsPlain e 8 → length (write e) ≡ 412 + size e
unfolding write
length-write e (ident, _, count) =
    length-append (front e) (bodies_bytes e.sections) ∙ omega (arith, length-front e ident, count)

IsByteSection-few : {name : Text} {i : ℕ} → IsByteSection name i → i < 7
IsByteSection-few data_ = omega arith
IsByteSection-few rodata = omega arith
IsByteSection-few bss = omega arith
IsByteSection-few text = omega arith
IsByteSection-few init = omega arith

-- Let `main` be given two arguments or more, no option that asks for the tokens or the tree, and
-- the name of a file whose lines read as the tokens of a program of machine code, `Emits`:
-- `.section` directives of the sections `data`, `rodata`, `bss`, `text` and `init`, and behind
-- the first of them the instructions of the tables `Encoded`, which are `nop`, `rlca`, `rrca`,
-- `stop`, `rla`, `rra`, `daa`, `cpl`, `scf`, `ccf`, `halt`, `ret`, `di` and `ei`, then `sub`,
-- `and`, `xor`, `or` and `cp` of a register, `inc` and `dec` of `bc`, `de` and `hl`, and `pop`
-- and `push` of these and of `af`. Let the program have fewer than 4294966817 instructions. Then
-- `main` writes a file of 479 bytes and one for each instruction, and for each of those sections
-- the entry of the table of headers behind the null entry, read at the place that the file
-- header gives, with the highest byte of a number first, leads to the codes of the section's
-- instructions, in the order of the program.
pub main-Emits :
    (getopt_long : List Text → Parsed) (files : Text → Option Text) (argv : List Text)
    (file input : Text) (tss : List TokenList) (out : List Placed) (name : Text) (i : ℕ)
    → ltb (length argv) 2 ≡ false
    → any asks_tokens (getopt_long argv).options ≡ false
    → any asks_tree (getopt_long argv).options ≡ false
    → (getopt_long argv).operand ≡ some file
    → files file ≡ some input
    → AllRead (get_lines input) tss
    → Emits 0 tss out
    → IsByteSection name i
    → length out < 4294966817
    → (bytes : List ℕ) × (main getopt_long files argv ≡ created bytes)
      × (length bytes ≡ 479 + length out)
      × Contains bytes (suc i) (bytes_at i out)
main-Emits getopt_long files argv file input tss out name i enough t p operand opened all m b
      small =
    let (e, (compiles, held, grown)) = Emits-Filled input tss out all m in
    let plain = compile-IsPlain input e compiles in
    let long : (length (write e) ≡ 479 + length out) =
      length-write e plain ∙ omega (arith, grown) in
    let (s, at_i, place) =
      Holds-Written e i (bytes_at i out) plain.0 (omega arith) (held name i b) in
    (
      write e,
      (main-created getopt_long files argv (write e)).1
          (enough, t, p, (file, input, operand, opened, (e, compiles, refl))),
      long,
      write-Contains e i (bytes_at i out) plain (IsByteSection-few b) at_i place,
    )
