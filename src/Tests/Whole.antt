-- ===== src/Tests/Whole.antt =====
-- The theorems from the text of a program to its machine code, at a small program.
use gbas.Prelude.{ℕ, ◌≡◌, ◌↔◌, refl, List, [], ◌∷◌, ◌++◌, length, codes, arith}
use gbas.Result.{ok}
use gbas.Ast.{
  Nodes, InstructionType, DirectiveType, directive, instruction0, instruction1, dregister, root,
  nil, cons,
}
use gbas.Tokenizer.{TokenList, is_word, eof, get_lines, tokenize}
use gbas.Tokenizer.Language.{done, skip_comment, skip_space, take_word}
use gbas.Tokenizer.Lines.{AllRead, no_line, one_more, end_lines, tokenize_lem}
use gbas.Parser.Classes.{find_instruction, is_dregister, is_newline}
use gbas.Parser.Manual.{Program, end, line, section, alone, with_one, pair}
use gbas.Parser.Program.{parse}
use gbas.Parser.Reading.{parse-Program}
use gbas.Assembler.Codes.{hl}
use gbas.Reader.Entry.{Contains}
use gbas.Compile.Machine.{
  IsPlainOp, IsStackOp, plain, on_stack, IsByteSection, Placed, Emits, switch, emit,
}
use gbas.Main.{created, main}
use gbas.Main.Machine.{main-Emits}
use gbas.Tests.Objects.{source}
use gbas.Tests.Machine.{arguments, one_file, no_options}

abbrev source_tokens : List TokenList
source_tokens =
    (codes ".section" ∷ codes "text" ∷ [])
    ∷ (codes "nop" ∷ [])
    ∷ (codes "push" ∷ codes "hl" ∷ [])
    ∷ []

source-AllRead : AllRead (get_lines source) source_tokens
unfolding get_lines is_word
source-AllRead =
    one_more (take_word (cc, refl) refl refl (skip_space refl (take_word (cc, refl) refl tt done)))
      (one_more (skip_space refl (take_word (cc, refl) refl tt done)) (
        one_more
          (skip_space refl (
            take_word (cc, refl) refl refl
              (skip_space refl
                (take_word (cc, refl) refl refl (skip_space refl (skip_comment refl))))))
          no_line))

tokenize_lem_example : (tokenize source ≡ ok (end_lines source_tokens ++ eof ∷ [])) ↔ (
    (tss : List TokenList) × AllRead (get_lines source) tss
    × (end_lines source_tokens ++ eof ∷ [] ≡ end_lines tss ++ eof ∷ []))
tokenize_lem_example = tokenize_lem source (end_lines source_tokens ++ eof ∷ [])

-- The tokens of the program are those that this equivalence gives.
source_run : tokenize source ≡ ok (end_lines source_tokens ++ eof ∷ [])
source_run =
    (tokenize_lem source (end_lines source_tokens ++ eof ∷ [])).1
      (source_tokens, source-AllRead, refl)

abbrev source_nodes : Nodes
source_nodes = cons (directive DirectiveType.section (codes "text" ∷ [])) (
    cons (instruction0 InstructionType.nop)
      (cons (instruction1 InstructionType.push (dregister b'h' b'l')) nil))

source-Program : Program source_tokens source_nodes
unfolding find_instruction is_dregister is_newline
source-Program =
    line (section refl) (line (alone refl refl) (line (with_one refl refl (pair refl)) end))

parse-Program_example : parse (end_lines source_tokens ++ eof ∷ []) ≡ ok (root source_nodes)
parse-Program_example = parse-Program source-Program

abbrev source_bytes : List Placed
source_bytes = record { place = 5; byte = 0x00 } ∷ record { place = 5; byte = 0xe5 } ∷ []

source-Emits : Emits 0 source_tokens source_bytes
source-Emits = switch IsByteSection.text (
    emit IsByteSection.text (plain IsPlainOp.nop)
      (emit IsByteSection.text (on_stack IsStackOp.push hl) Emits.done))

main-Emits_example :
    (bytes : List ℕ) × (main no_options one_file arguments ≡ created bytes)
    × (length bytes ≡ 481)
    × Contains bytes 6 (0x00 ∷ 0xe5 ∷ [])
main-Emits_example =
    main-Emits no_options one_file arguments (codes "a.s") source source_tokens source_bytes
      (codes "text") 5 refl refl refl refl refl source-AllRead source-Emits IsByteSection.text
      (omega arith)
