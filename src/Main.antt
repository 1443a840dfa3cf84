-- ===== src/Main.antt =====
-- src/main.cpp: `main`. `getopt_long` and the files are parameters.
pub mod Options
pub mod Created
pub mod Machine
use gbas.Prelude.{
  ℕ, ◌==◌, ltb, length, Bool, true, false, ◌&&◌, if◌then◌else◌, List, [], ◌∷◌, Option, none, some,
  Text,
}
use gbas.Result.{Error, Result, ok, err, ◌>>=◌}
use gbas.Ast.{Node}
use gbas.Tokenizer.{TokenList, tokenize}
use gbas.Parser.Program.{parse}
use gbas.Elf.{Elf}
use gbas.Elf.New.{new_elf}
use gbas.Writer.{write}
use gbas.Compile.{assemble_root}

-- What the calls of `getopt_long` return before the -1, each a character or 0 with the index of a
-- long option, and then `argv[optind]`, which is `none` for the null pointer at the end of `argv`.
pub record Parsed : Type 0 where
  pub options : List (ℕ × ℕ)
  pub operand : Option Text

pub record Flags : Type 0 where
  pub tokenize_only : Bool
  pub parse_only : Bool

-- How `main` ends. It returns -1 for `usage` and `no_file`, 1 for `conflict`, and 0 for `printed`,
-- `parsed` and `created`, which wrote the bytes of `a.out`. `terminated` is an exception that is
-- not caught; a null pointer for the name of the file is `undefined`.
pub data Outcome : Type 0 where
  usage conflict undefined no_file parsed : Outcome
  printed : TokenList → Outcome
  created : List ℕ → Outcome
  terminated : Error → Outcome

-- The switch on a result of `getopt_long`.
unfoldable pub read_option : ℕ → ℕ → Flags → Flags
read_option c option_index flags =
    if c == 0
    then if option_index == 0
      then record flags { tokenize_only = true }
      else if option_index == 1
      then record flags { parse_only = true }
      else flags
    else if c == b't'
    then record flags { tokenize_only = true }
    else if c == b'p'
    then record flags { parse_only = true }
    else flags

-- The loop: `none` is the early return.
unfoldable pub read_options : List (ℕ × ℕ) → Flags → Option Flags
unfolding read_option
read_options [] flags = some flags
read_options (o ∷ os) flags =
    let next = read_option o.0 o.1 flags in
    let rest = read_options os next in if next.tokenize_only && next.parse_only then none else rest

abbrev assemble_file : Result Elf → Outcome
assemble_file (ok elf) = created (write elf)
assemble_file (err x) = terminated x

abbrev parse_file : Flags → Result Node → Outcome
parse_file flags (ok tree) =
    if flags.parse_only then parsed else assemble_file (new_elf >>= assemble_root tree)
parse_file flags (err x) = terminated x

abbrev tokenize_file : Flags → Result TokenList → Outcome
tokenize_file flags (ok tokens) =
    if flags.tokenize_only then printed tokens else parse_file flags (parse tokens)
tokenize_file flags (err x) = terminated x

-- The passes over the text of the file.
unfoldable pub run_passes : Flags → Text → Outcome
unfolding tokenize parse new_elf assemble_root write
run_passes flags input = tokenize_file flags (tokenize input)

abbrev open_file : Flags → Option Text → Outcome
open_file flags (some input) = run_passes flags input
open_file flags none = no_file

abbrev name_file : Flags → (Text → Option Text) → Option Text → Outcome
name_file flags files (some name) = open_file flags (files name)
name_file flags files none = undefined

abbrev read_arguments : Option Flags → (Text → Option Text) → Option Text → Outcome
read_arguments (some flags) files operand = name_file flags files operand
read_arguments none files operand = conflict

-- `main`: `files` are the texts of the files that can be opened.
unfoldable pub main : (List Text → Parsed) → (Text → Option Text) → List Text → Outcome
unfolding read_options run_passes
main getopt_long files argv =
    let arguments = getopt_long argv in
    let start : Flags = record { tokenize_only = false; parse_only = false } in
    if ltb (length argv) 2
    then usage
    else read_arguments (read_options arguments.options start) files arguments.operand
