-- ===== src/Tests/Machine.antt =====
-- The theorems on whole programs and on the command line, at small inputs.
use gbas.Compile.Output.{Written, compile-Written}
use gbas.Prelude.{
  ◌↔◌, arith, ℕ, ◌≡◌, ◌↔◌, refl, false, List, [], ◌∷◌, ◌++◌, Option, none, some, Text, codes,
}
use gbas.Result.{ok, Post}
use gbas.Ast.{Nodes, root, nil, cons, instruction1, InstructionType, dregister}
use gbas.Tokenizer.{TokenList, tokenize, eol, eof}
use gbas.Parser.Classes.{is_newline, is_comma, is_eof, is_register, is_dregister}
use gbas.Parser.Expression.{operand, register_, dregister_}
use gbas.Parser.Program.{parse}
use gbas.Parser.Listing.{Listing}
use gbas.Parser.Exact.{parse-Listing}
use gbas.Elf.Names.{section_names}
use gbas.Elf.Places.{Holds}
use gbas.Elf.Valid.{IsValid}
use gbas.Assembler.{assemble}
use gbas.Assembler.Safe.{IsRefusal, assemble-Fills}
use gbas.Assembler.Image.{image}
use gbas.Assembler.Refines.{assemble-Holds}
use gbas.Writer.{write}
use gbas.Compile.{compile}
use gbas.Compile.Ends.{IsRejection, compile-Compiles, new_elf-IsValid}
use gbas.Compile.Image.{new_names, text, new_elf-Holds}
use gbas.Compile.Exact.{IsCompiled, compile-IsCompiled}
use gbas.Main.{Parsed, Flags, created, read_options, main}
use gbas.Main.Options.{read_options_lem}
use gbas.Main.Created.{Accepted, main-created}
use gbas.Tests.Objects.{
  new_file, new_file_run, small_program, assembled, assembled_run, source, compiled, compiled_run,
  compiled_size,
}

compile-Written_example :
    (tokens : TokenList) × (ns : Nodes) × (tokenize source ≡ ok tokens)
    × (parse tokens ≡ ok (root ns))
    × Written compiled 5 (image new_names 0 ns 5)
compile-Written_example = compile-Written source 5 compiled_run text (omega (arith, compiled_size))

compile-Compiles_example : Post IsValid IsRejection (compile source)
compile-Compiles_example = compile-Compiles source

assemble-Fills_example : Post IsValid IsRefusal (assemble small_program new_file)
assemble-Fills_example =
    assemble-Fills small_program new_file (tt, (tt, (tt, (tt, tt))))
      (new_elf-IsValid new_file new_file_run)

assemble-Holds_example :
    Holds assembled 5
      ([] ++ image (section_names new_file.sections) new_file.curr_section small_program 5)
assemble-Holds_example =
    assemble-Holds small_program new_file 5 [] (tt, (tt, (tt, (tt, tt))))
      (new_elf-IsValid new_file new_file_run) assembled_run
      (new_elf-Holds new_file 5 new_file_run text)

-- The line `push hl`.
abbrev push_hl : TokenList
push_hl = codes "push" ∷ codes "hl" ∷ eol ∷ eof ∷ []

abbrev push_nodes : Nodes
push_nodes = cons (instruction1 InstructionType.push (dregister b'h' b'l')) nil

parse-Listing_example : (parse push_hl ≡ ok (root push_nodes)) ↔ Listing push_hl push_nodes
parse-Listing_example = parse-Listing push_hl push_nodes

-- The line is parsed so.
push_run : parse push_hl ≡ ok (root push_nodes)
unfolding parse is_newline is_eof is_comma is_register is_dregister operand register_ dregister_
push_run = refl

compile-IsCompiled_example : (compile source ≡ ok compiled) ↔ IsCompiled source compiled
compile-IsCompiled_example = compile-IsCompiled source compiled

abbrev no_flags : Flags
no_flags = record { tokenize_only = false; parse_only = false }

-- `-t --parse`.
abbrev both_options : List (ℕ × ℕ)
both_options = (b't', 0) ∷ (0, 1) ∷ []

read_options_example : read_options both_options no_flags ≡ none
read_options_example = read_options_lem both_options no_flags refl

-- `gbas a.s`.
abbrev pub arguments : List Text
arguments = codes "gbas" ∷ codes "a.s" ∷ []

abbrev pub no_options : List Text → Parsed
no_options argv = record { options = []; operand = some (codes "a.s") }

abbrev pub one_file : Text → Option Text
one_file name = some source

main-created_example :
    (main no_options one_file arguments ≡ created (write compiled))
    ↔ Accepted (no_options arguments) one_file arguments (write compiled)
main-created_example = main-created no_options one_file arguments (write compiled)

-- The run exists: the file is written.
main_run : main no_options one_file arguments ≡ created (write compiled)
main_run =
    (main-created no_options one_file arguments (write compiled)).1
      (refl, refl, refl, (codes "a.s", source, refl, refl, (compiled, compiled_run, refl)))
