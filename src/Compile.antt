-- ===== src/Compile.antt =====
-- src/main.cpp: the passes from the text of a program to the object file, up to `ELFWriter::write`.
pub mod Ends
pub mod Adds
pub mod Image
pub mod Output
pub mod Machine
pub mod Lines
pub mod Runs
pub mod Size
pub mod Accepts
pub mod Exact
use gbas.Prelude.{◌≡◌, refl, sym, ◌∙◌, ap, [], List, Text}
use gbas.Result.{
  Error, Post, raises, returns, tokenizer_exception, parser_exception, assembler_exception,
  elf_exception, out_of_range, undefined, Result, ok, err, ◌>>=◌, bind-eq-ok, ok-injective,
  bad_cast,
}
use gbas.Ast.{Node, Nodes, DirectiveType, directive, root, nil, cons, label}
use gbas.Tokenizer.{TokenList, tokenize}
use gbas.Parser.Program.{parse}
use gbas.Parser.Shape.{parse-AllLines, AllLines, IsLine}
use gbas.Elf.{Elf}
use gbas.Elf.New.{new_elf}
use gbas.Elf.Extends.{Kept}
use gbas.Assembler.{assemble}
use gbas.Assembler.Appends.{assemble-Kept, assemble-Distinct, labels_onto, node_labels}

-- `parse` returns a root, whose children `assemble` walks over.
unfoldable pub assemble_root : Node → Elf → Result Elf
unfolding assemble
assemble_root (root ns) e = assemble ns e
assemble_root _ e = err bad_cast

unfoldable pub compile : Text → Result Elf
unfolding tokenize parse assemble_root new_elf
compile input = do
  tokens ← tokenize input
  tree ← parse tokens
  elf ← new_elf
  assemble_root tree elf

node_labels-IsLine : (n : Node) (names : List Text) → IsLine n → node_labels n names ≡ names
node_labels-IsLine (label _) names h = absurd h
node_labels-IsLine _ names h = refl

labels_onto-AllLines : (ns : Nodes) (names : List Text) → AllLines ns → labels_onto ns names ≡ names
labels_onto-AllLines nil names h = refl
labels_onto-AllLines (cons n ns) names (h, k) =
    rw (node_labels-IsLine n names h) (labels_onto-AllLines ns names k)

-- The names of a new file's symbols.
new_elf-names : (e : Elf) → new_elf ≡ ok e → e.symbol_names ≡ []
unfolding new_elf
new_elf-names e h = ap (λ x. x.symbol_names) (sym (ok-injective h))

-- What the passes return, if all accept.
pub compile_passes :
    (input : Text) {e : Elf}
    → compile input ≡ ok e
    → (tokens : TokenList) × (ns : Nodes) × (new : Elf) × (tokenize input ≡ ok tokens)
      × (parse tokens ≡ ok (root ns))
      × AllLines ns
      × (new_elf ≡ ok new)
      × (assemble ns new ≡ ok e)
unfolding compile assemble_root
compile_passes input h =
    let (tokens, o, h1) = bind-eq-ok (tokenize input) _ h in
    let (tree, p, h2) = bind-eq-ok (parse tokens) _ h1 in
    let (new, q, h3) = bind-eq-ok new_elf (assemble_root tree) h2 in
    let (ns, r, lines) = parse-AllLines tokens p in
    (tokens, ns, new, o, rw r at p, lines, q, rw r at h3)

pub compile-Kept :
    (input : Text) {e : Elf}
    → compile input ≡ ok e
    → (new : Elf) × (new_elf ≡ ok new) × Kept new e × (e.symbol_names ≡ [])
compile-Kept input h =
    let (_, ns, new, _, _, lines, q, run) = compile_passes input h in
    let none = new_elf-names new q in
    let named = assemble-Distinct ns new (rw none tt) run in
    (
      new,
      q,
      assemble-Kept ns new run,
      named.0 ∙ labels_onto-AllLines ns new.symbol_names lines ∙ none,
    )
