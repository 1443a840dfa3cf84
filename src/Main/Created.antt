-- ===== src/Main/Created.antt =====
-- src/main.cpp: when `main` writes a file.
use gbas.Prelude.{
  ℕ, ◌≡◌, ◌↔◌, refl, ◌∙◌, ap, Bool, Bool-cases, inl, inr, true, false, ltb, length, List, any,
  Option, none, some, Text, if◌then◌else◌,
}
use gbas.Result.{Result, ok, err, ◌>>=◌, bind-eq-ok}
use gbas.Ast.{Node}
use gbas.Tokenizer.{TokenList, tokenize}
use gbas.Parser.Program.{parse}
use gbas.Elf.{Elf}
use gbas.Elf.New.{new_elf}
use gbas.Writer.{write}
use gbas.Compile.{compile, assemble_root}
use gbas.Main.Options.{asks_tokens, asks_tree, settled, read_options_lem}
use gbas.Main.{
  Parsed, usage, Flags, created, assemble_file, parse_file, tokenize_file, run_passes, open_file,
  name_file, read_arguments, read_options, main,
}

-- All passes accept the text, and the file they make is written as `bytes`.
abbrev pub CompilesTo : Text → List ℕ → Type 0
CompilesTo input bytes = (e : Elf) × (compile input ≡ ok e) × (write e ≡ bytes)

abbrev pub Off : Flags → Type 0
Off flags = (flags.tokenize_only ≡ false) × (flags.parse_only ≡ false)

abbrev off : Flags
off = record { tokenize_only = false; parse_only = false }

created-injective : {a b : List ℕ} → created a ≡ created b → a ≡ b
created-injective h = cc

assembled :
    (r : Result Elf) {bytes : List ℕ}
    → assemble_file r ≡ created bytes
    → (e : Elf) × (r ≡ ok e) × (write e ≡ bytes)
assembled (ok e) h = (e, refl, created-injective h)
assembled (err x) h = cc

parsed_tree :
    (flags : Flags) (r : Result Node) {bytes : List ℕ}
    → parse_file flags r ≡ created bytes
    → (flags.parse_only ≡ false)
      × (tree : Node) × (e : Elf) × (r ≡ ok tree)
      × ((new_elf >>= assemble_root tree) ≡ ok e)
      × (write e ≡ bytes)
parsed_tree flags (err x) h = cc
parsed_tree flags (ok tree) h = elim (Bool-cases flags.parse_only) [
  | inl k ↦ cc (rw k at h)
  | inr k ↦
      let (e, p, q) = assembled (new_elf >>= assemble_root tree) (rw k at h) in
      (k, tree, e, refl, p, q)
]

tokenized :
    (flags : Flags) (r : Result TokenList) {bytes : List ℕ}
    → tokenize_file flags r ≡ created bytes
    → Off flags
      × (e : Elf) × ((r >>= λ ts. parse ts >>= λ tree. new_elf >>= assemble_root tree) ≡ ok e)
      × (write e ≡ bytes)
tokenized flags (err x) h = cc
tokenized flags (ok tokens) h = elim (Bool-cases flags.tokenize_only) [
  | inl k ↦ cc (rw k at h)
  | inr k ↦
      let (no_tree, tree, e, p, q, w) = parsed_tree flags (parse tokens) (rw k at h) in
      ((k, no_tree), e, ap (λ r. r >>= λ tree. new_elf >>= assemble_root tree) p ∙ q, w)
]

run_passes_created :
    (flags : Flags) (input : Text) (bytes : List ℕ)
    → run_passes flags input ≡ created bytes
    → Off flags × CompilesTo input bytes
unfolding run_passes compile
run_passes_created flags input bytes h =
    let (k, e, p, w) = tokenized flags (tokenize input) h in (k, (e, p, w))

created_run_passes :
    (flags : Flags) (input : Text) (bytes : List ℕ)
    → Off flags
    → CompilesTo input bytes
    → run_passes flags input ≡ created bytes
unfolding run_passes compile
created_run_passes flags input bytes (k, l) (e, h, w) =
    let (tokens, o, h1) =
      bind-eq-ok (tokenize input) (λ ts. parse ts >>= λ tree. new_elf >>= assemble_root tree) h in
    let (tree, p, h2) = bind-eq-ok (parse tokens) (λ tree. new_elf >>= assemble_root tree) h1 in
    rw (o, k, p, l, h2, w) refl

-- The arguments name a file that compiles to `bytes`.
abbrev pub Names : (Text → Option Text) → Option Text → List ℕ → Type 0
Names files operand bytes =
    (name : Text) × (input : Text) × (operand ≡ some name)
    × (files name ≡ some input)
    × CompilesTo input bytes

named :
    (flags : Flags) (files : Text → Option Text) (operand : Option Text) (bytes : List ℕ)
    → name_file flags files operand ≡ created bytes
    → Off flags × Names files operand bytes
named flags files none bytes h = cc
named flags files (some name) bytes h = opened (files name) refl h
  where
    opened :
        (text : Option Text)
        → files name ≡ text
        → open_file flags text ≡ created bytes
        → Off flags × Names files (some name) bytes
    opened none p h = cc
    opened (some input) p h =
        let (k, c) = run_passes_created flags input bytes h in (k, (name, input, refl, p, c))

after_options :
    (t p : Bool) (files : Text → Option Text) (operand : Option Text) (bytes : List ℕ)
    → read_arguments (settled t p) files operand ≡ created bytes
    → (t ≡ false) × (p ≡ false) × Names files operand bytes
after_options true true files operand bytes h = cc
after_options true false files operand bytes h =
    let (k, _) =
      named (record { tokenize_only = true; parse_only = false }) files operand bytes h in
    cc
after_options false true files operand bytes h =
    let (k, _) =
      named (record { tokenize_only = false; parse_only = true }) files operand bytes h in
    cc
after_options false false files operand bytes h = (refl, refl, (named off files operand bytes h).1)

run_options :
    (os : List (ℕ × ℕ)) → read_options os off ≡ settled (any asks_tokens os) (any asks_tree os)
run_options os = read_options_lem os off refl

main_lem :
    (getopt_long : List Text → Parsed) (files : Text → Option Text) (argv : List Text)
    → main getopt_long files argv ≡ (
        if ltb (length argv) 2
        then usage
        else read_arguments
            (read_options (getopt_long argv).options off)
            files
            (getopt_long argv).operand)
unfolding main
main_lem getopt_long files argv = refl

-- There is an argument, no option asks for the tokens or the tree, and the operand names a file
-- that compiles to `bytes`.
abbrev pub Accepted : Parsed → (Text → Option Text) → List Text → List ℕ → Type 0
Accepted parsed files argv bytes =
    (ltb (length argv) 2 ≡ false)
    × (any asks_tokens parsed.options ≡ false)
    × (any asks_tree parsed.options ≡ false)
    × Names files parsed.operand bytes

-- For all results of `getopt_long` and all files, `main` writes a file with given bytes exactly
-- if there are two arguments or more, no option asks for the tokens or the tree, and the operand
-- names a file whose text all passes accept, where those are the bytes that the writer makes of
-- the object file.
pub main-created :
    (getopt_long : List Text → Parsed) (files : Text → Option Text) (argv : List Text)
    (bytes : List ℕ)
    → (main getopt_long files argv ≡ created bytes) ↔ Accepted (getopt_long argv) files argv bytes
main-created getopt_long files argv bytes = (forth, back)
  where
    forth :
        main getopt_long files argv ≡ created bytes → Accepted (getopt_long argv) files argv bytes
    forth h = elim (Bool-cases (ltb (length argv) 2)) [
      | inl k ↦ cc (rw (main_lem getopt_long files argv, k) at h)
      | inr k ↦
          let (t, p, names) =
            after_options (any asks_tokens (getopt_long argv).options)
              (any asks_tree (getopt_long argv).options) files (getopt_long argv).operand bytes
              (rw (main_lem getopt_long files argv, k, run_options (getopt_long argv).options) at
                h) in
          (k, t, p, names)
    ]

    back :
        Accepted (getopt_long argv) files argv bytes → main getopt_long files argv ≡ created bytes
    back (k, t, p, (name, input, o, f, c)) =
        rw (main_lem getopt_long files argv, k, run_options (getopt_long argv).options, t, p, o, f)
          (created_run_passes off input bytes (refl, refl) c)
