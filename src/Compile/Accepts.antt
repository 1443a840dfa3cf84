-- ===== src/Compile/Accepts.antt =====
-- src/main.cpp: every program of machine code compiles, and its code stands in the object file.
use gbas.Prelude.{
  ℕ, ◌+◌, length, arith, ◌≡◌, refl, sym, ◌∙◌, ap, ap₂, subst, Bool, true, false, ◌==◌, List, [],
  ◌∷◌, ◌++◌, if◌then◌else◌, Text,
}
use gbas.Result.{Result, ok, ◌>>=◌, ok-injective}
use gbas.Ast.{Node, Nodes, DirectiveType, directive, root, nil, cons}
use gbas.Tokenizer.{TokenList, eof, get_lines, tokenize}
use gbas.Tokenizer.Lines.{AllRead, end_lines, tokenize_lem}
use gbas.Parser.Classes.{is_newline}
use gbas.Parser.Manual.{Program, end, blank, line, section}
use gbas.Parser.Program.{parse}
use gbas.Parser.Reading.{parse-Program}
use gbas.Elf.{Elf}
use gbas.Elf.New.{new_elf, new_elf-ok}
use gbas.Elf.Places.{Holds, here, index}
use gbas.Assembler.{assemble_node, assemble}
use gbas.Assembler.Image.{code, select, image}
use gbas.Compile.{compile, assemble_root}
use gbas.Compile.Ends.{new_elf-IsValid}
use gbas.Compile.Image.{IsBytes, new_names, new_elf-Starts, new_elf-Holds, compile-Holds}
use gbas.Compile.Machine.{
  IsByteSection, data_, rodata, bss, text, init, Placed, Emits, done, skip, switch, emit, bytes_at,
}
use gbas.Compile.Lines.{Encoded-Reading}
use gbas.Assembler.Refines.{here-nil}
use gbas.Writer.{bodies_bytes, section_bytes, strings_bytes, symbols_bytes}
use gbas.Compile.Size.{size, set_section-size, add_progbits-size}
use gbas.Compile.Runs.{index-new_names, Ready, set_section-Ready, add_progbits-Ready}

-- The nodes of the lines, the images they have and how they are assembled.
abbrev Accepts : ℕ → List TokenList → List Placed → Type 0
Accepts cur tss out =
    (ns : Nodes) × Program tss ns
    × ((i : ℕ) → image new_names cur ns i ≡ bytes_at i out)
    × ((e : Elf)
        → Ready e cur
        → (e' : Elf) × (assemble ns e ≡ ok e') × (size e' ≡ size e + length out))

next_node :
    (n : Node) (ns : Nodes) (e d : Elf) {e' : Elf}
    → assemble_node n e ≡ ok d
    → assemble ns d ≡ ok e'
    → assemble (cons n ns) e ≡ ok e'
unfolding assemble
next_node n ns e d p q = rw p q

switch-image :
    (cur i j : ℕ) (name : Text) (ns : Nodes)
    → IsByteSection name i
    → image new_names cur (cons (directive DirectiveType.section (name ∷ [])) ns) j
      ≡ image new_names i ns j
switch-image cur i j name ns b =
    ap (λ front. front ++ image new_names (index new_names name) ns j) (here-nil cur j)
    ∙ ap (λ k. image new_names k ns j) (index-new_names b).0

emit-image :
    (i j b : ℕ) (n : Node) (ns : Nodes)
    → code n ≡ b ∷ []
    → select new_names i n ≡ i
    → image new_names i (cons n ns) j
      ≡ (if i == j then b ∷ image new_names i ns j else image new_names i ns j)
emit-image i j b n ns c k =
    ap₂ (λ bytes cur. here i j bytes ++ image new_names cur ns j) c k ∙ both (i == j)
  where
    both :
        (t : Bool)
        → (if t then b ∷ [] else []) ++ image new_names i ns j
          ≡ (if t then b ∷ image new_names i ns j else image new_names i ns j)
    both true = refl
    both false = refl

section_line : {name : Text} {i : ℕ} → IsByteSection name i → is_newline name ≡ false
unfolding is_newline
section_line data_ = refl
section_line rodata = refl
section_line bss = refl
section_line text = refl
section_line init = refl

Emits-Accepts :
    {cur : ℕ} {tss : List TokenList} {out : List Placed} → Emits cur tss out → Accepts cur tss out
unfolding assemble assemble_node
Emits-Accepts done = (nil, end, (λ i. refl), (λ e r. (e, refl, omega arith)))
Emits-Accepts (skip m) = let (ns, p, same, runs) = Emits-Accepts m in (ns, blank p, same, runs)
Emits-Accepts (switch {cur} {i} {name} b m) =
    let (ns, p, same, runs) = Emits-Accepts m in
    let n : Node = directive DirectiveType.section (name ∷ []) in
    (
      cons n ns,
      line (section (section_line b)) p,
      (λ j. switch-image cur i j name ns b ∙ same j),
      (λ e r.
          let (d, run, ready) = set_section-Ready e name cur i b r in
          let (e', rest, grown) = runs d ready in
          let same : (size d ≡ size e) = set_section-size name e run in
          (e', next_node n ns e d run rest, omega arith)),
    )
Emits-Accepts (emit {i} {b} {name} s l m) =
    let (ns, p, same, runs) = Emits-Accepts m in
    let (n, read, (made, stays, makes)) = Encoded-Reading l in
    (
      cons n ns,
      line read p,
      (λ j.
          emit-image i j b n ns made (stays new_names i)
          ∙ ap (λ rest. if i == j then b ∷ rest else rest) (same j)),
      (λ e r.
          let (d, run, ready) = add_progbits-Ready (b ∷ []) e name i s r in
          let (e', rest, grown) = runs d ready in
          let more : (size d ≡ size e + 1) = add_progbits-size (b ∷ []) e run in
          (e', next_node n ns e d (makes e ∙ run) rest, omega arith)),
    )

IsByteSection-IsBytes : {name : Text} {i : ℕ} → IsByteSection name i → IsBytes i
IsByteSection-IsBytes data_ = IsBytes.data_
IsByteSection-IsBytes rodata = IsBytes.rodata
IsByteSection-IsBytes bss = IsBytes.bss
IsByteSection-IsBytes text = IsBytes.text
IsByteSection-IsBytes init = IsBytes.init

new_elf-Ready : (e : Elf) → new_elf ≡ ok e → Ready e 0
new_elf-Ready e h =
    let (names, current) = new_elf-Starts e h in
    record {
      valid = new_elf-IsValid e h;
      names = names;
      current = current;
      held = λ name i b. ([], new_elf-Holds e i h (IsByteSection-IsBytes b));
    }

chained :
    (o : Result TokenList) (q : Result Elf) (tokens : TokenList) (ns : Nodes) (new : Elf) {e : Elf}
    → o ≡ ok tokens
    → parse tokens ≡ ok (root ns)
    → q ≡ ok new
    → assemble ns new ≡ ok e
    → (o >>= λ tokens. parse tokens >>= λ tree. q >>= λ elf. assemble_root tree elf) ≡ ok e
unfolding assemble_root
chained o q tokens ns new h p k run = rw (h, p, k) run

pub compile_runs :
    (input : Text) (tokens : TokenList) (ns : Nodes) (new : Elf) {e : Elf}
    → tokenize input ≡ ok tokens
    → parse tokens ≡ ok (root ns)
    → new_elf ≡ ok new
    → assemble ns new ≡ ok e
    → compile input ≡ ok e
unfolding compile
compile_runs input tokens ns new o p q run =
    chained (tokenize input) new_elf tokens ns new o p q run

root-injective : {ms ns : Nodes} → ◌≡◌ {A = Node} (root ms) (root ns) → ms ≡ ns
root-injective h = cc

-- The files that a program of machine code is compiled to.
abbrev pub Filled : Text → List Placed → Elf → Type 0
Filled input out e =
    (compile input ≡ ok e)
    × ((name : Text) (i : ℕ) → IsByteSection name i → Holds e i (bytes_at i out))
    × (size e ≡ 67 + length out)

new_elf-size : (e : Elf) → new_elf ≡ ok e → size e ≡ 67
unfolding new_elf bodies_bytes section_bytes strings_bytes symbols_bytes
new_elf-size e h = subst (λ x. size x ≡ 67) (ok-injective h) refl

pub Emits-Filled :
    (input : Text) (tss : List TokenList) (out : List Placed)
    → AllRead (get_lines input) tss
    → Emits 0 tss out
    → (e : Elf) × Filled input out e
Emits-Filled input tss out all m =
    let tokens = end_lines tss ++ eof ∷ [] in
    let (ns, program, same, runs) = Emits-Accepts m in
    let (new, q) = new_elf-ok in
    let (e, run, grown) = runs new (new_elf-Ready new q) in
    let o : (tokenize input ≡ ok tokens) = (tokenize_lem input tokens).1 (tss, all, refl) in
    let p = parse-Program program in
    let compiles = compile_runs input tokens ns new o p q run in
    (
      e,
      (
        compiles,
        (λ name i b.
            let (tokens', ns', o', p', held) =
              compile-Holds input i compiles (IsByteSection-IsBytes b) in
            let same_tokens : (tokens' ≡ tokens) = ok-injective (sym o' ∙ o) in
            let same_nodes : (ns' ≡ ns) =
              root-injective (ok-injective (sym p' ∙ ap parse same_tokens ∙ p)) in
            subst (Holds e i) (ap (λ ns. image new_names 0 ns i) same_nodes ∙ same i) held),
        grown ∙ ap (λ n. n + length out) (new_elf-size new q),
      ),
    )
