-- ===== src/Parser/Listed.antt =====
-- src/parser.cpp: what `parse` returns is what the grammar of programs gives its tokens.
use gbas.Prelude.{
  ◌⊎◌, ◌<◌, arith, ℕ, zero, suc, ◌≡◌, refl, sym, ◌∙◌, ap, subst, Bool-cases, inl, inr, true, false,
  ◌||◌, List, [], ◌∷◌, Option, none, some, length, ◌==◌, if◌then◌else◌, codes, text_eq,
  eq_of_text_eq,
}
use gbas.Result.{Result, ok, err, ◌>>=◌, bind-eq-ok, ok-injective, passed}
use gbas.Ast.{Node, Nodes, DirectiveType, directive, root, nil, cons}
use gbas.Tokenizer.{Token, TokenList, eol, eof}
use gbas.Parser.Classes.{
  InstructionProps, section_props, find_instruction, find_directive, is_instruction, is_newline,
  is_eof, is_label, is_directive,
}
use gbas.Parser.Expression.{pure, next, peek, peek_next, label_}
use gbas.Parser.Program.{
  directive_operands, directive_with, directive_, operands_loop, make_instruction, with_props,
  instruction_, instruction_line, line_, program, parse,
}
use gbas.Parser.Sound.{then_ok}
use gbas.Parser.Shape.{program_colon}
use gbas.Parser.Operands.{next_ok, operands_loop_sound}
use gbas.Parser.Listing.{Operands, Line, instruction, section, Listing, end, blank, line}

with_props_ok :
    (o : Option InstructionProps) (ns : List Node) {n : Node}
    → with_props o ns ≡ ok n
    → (p : InstructionProps) × (o ≡ some p)
      × ((length ns == p.args1 || length ns == p.args2) ≡ true)
      × (make_instruction p ns ≡ ok n)
unfolding with_props
with_props_ok none ns h = cc
with_props_ok (some p) ns h =
    let (k, q) =
      passed (length ns == p.args1 || length ns == p.args2) (make_instruction p ns) _ h in
    (p, refl, k, q)

-- No instruction has three operands.
pub make_instruction-few :
    (p : InstructionProps) (ns : List Node) {n : Node}
    → make_instruction p ns ≡ ok n
    → length ns < 3
unfolding make_instruction
make_instruction-few p [] h = omega arith
make_instruction-few p (_ ∷ []) h = omega arith
make_instruction-few p (_ ∷ _ ∷ []) h = omega arith
make_instruction-few p (_ ∷ _ ∷ _ ∷ _) h = cc

instruction-Line :
    (f : ℕ) (ts : TokenList) (tok : Token) (mid rest : TokenList) (ns : List Node) {n : Node}
    → ts ≡ tok ∷ mid
    → operands_loop f [] mid ≡ ok (ns, rest)
    → with_props (find_instruction tok) ns ≡ ok n
    → Line ts n rest
instruction-Line f ts tok mid rest ns at_tok read h =
    let (p, q, k, m) = with_props_ok (find_instruction tok) ns h in
    let (more, e, o) = operands_loop_sound f [] mid (make_instruction-few p ns m) read in
    rw at_tok (instruction q (subst (λ xs. Operands mid xs rest) (sym e) o) k m)

pure-Line :
    (ts mid : TokenList) {n m : Node} {rest : TokenList}
    → pure m mid ≡ pure n rest
    → Line ts m mid
    → Line ts n rest
pure-Line ts mid e l = let q = ok-injective e in subst (λ z. Line ts z.0 z.1) q l

instruction_sound :
    (f : ℕ) (ts : TokenList) {n : Node} {rest : TokenList}
    → instruction_ f ts ≡ ok (n, rest)
    → Line ts n rest
unfolding instruction_
instruction_sound f ts h =
    let (tok, mid, p, h') = then_ok (next ts) _ h in
    let (ns, mid', q, e) = then_ok (operands_loop f [] mid) _ h' in
    let (n, r, e') = bind-eq-ok (with_props (find_instruction tok) ns) (λ n. pure n mid') e in
    pure-Line ts mid' e' (instruction-Line f ts tok mid mid' ns (next_ok ts p) q r)

instruction_line_sound :
    (f : ℕ) (ts : TokenList) {n : Node} {rest : TokenList}
    → instruction_line f ts ≡ ok (n, rest)
    → Line ts n rest
unfolding instruction_line
instruction_line_sound f ts h =
    let (_, p) = passed (is_instruction (peek ts)) (instruction_ f ts) _ h in
    instruction_sound f ts p

one_argument :
    (mid : TokenList) {args rest : TokenList}
    → directive_operands 1 mid ≡ ok (args, rest)
    → (name : Token) × (mid ≡ name ∷ rest) × (args ≡ name ∷ []) × (is_newline name ≡ false)
unfolding directive_operands is_newline
one_argument [] h = cc
one_argument (name ∷ mid) h = elim (Bool-cases (is_newline name)) [
  | inl k ↦ cc (rw k at h)
  | inr k ↦
      let e = ok-injective (rw k at h) in (name, ap (λ z. name ∷ z.1) e, ap (λ z. z.0) (sym e), k)
]

section-Line :
    (ts mid mid' : TokenList) (tok name : Token) (args : TokenList)
    → ts ≡ tok ∷ mid
    → tok ≡ codes ".section"
    → mid ≡ name ∷ mid'
    → args ≡ name ∷ []
    → is_newline name ≡ false
    → Line ts (directive DirectiveType.section args) mid'
section-Line ts mid mid' tok name args at_tok p split q k = rw (at_tok, p, split, q) (section k)

directive_with_sound :
    (ts : TokenList) (tok : Token) (mid : TokenList) {n : Node} {rest : TokenList}
    → ts ≡ tok ∷ mid
    → directive_with (find_directive tok) mid ≡ ok (n, rest)
    → Line ts n rest
unfolding directive_with find_directive
directive_with_sound ts tok mid at_tok h = elim (Bool-cases (text_eq section_props.lexeme tok)) [
  | inl k ↦
      let (args, mid', p, e) =
        then_ok (directive_operands 1 mid) (λ toks. pure (directive DirectiveType.section toks))
          (rw k at h) in
      let (name, split, q, no_newline) = one_argument mid p in
      pure-Line ts mid' e (
        section-Line ts mid mid' tok name args at_tok
          (sym (eq_of_text_eq section_props.lexeme tok k)) split q no_newline)
  | inr k ↦ cc (rw k at h)
]

directive_sound :
    (ts : TokenList) {n : Node} {rest : TokenList} → directive_ ts ≡ ok (n, rest) → Line ts n rest
unfolding directive_
directive_sound ts h =
    let (tok, mid, p, e) = then_ok (next ts) (λ tok. directive_with (find_directive tok)) h in
    directive_with_sound ts tok mid (next_ok ts p) e

-- A line is as the grammar has it, or a label before a colon.
abbrev LineOrLabel : TokenList → Node → TokenList → Type 0
LineOrLabel ts n rest = Line ts n rest ⊎ ((more : TokenList) × (rest ≡ codes ":" ∷ more))

label_or_instruction :
    (f : ℕ) (ts : TokenList) {n : Node} {rest : TokenList}
    → (peek_next ts >>= λ tok. if text_eq tok (codes ":") then label_ ts else instruction_line f ts)
      ≡ ok (n, rest)
    → LineOrLabel ts n rest
unfolding label_
label_or_instruction f [] h = cc
label_or_instruction f (_ ∷ []) h = cc
label_or_instruction f (name ∷ tok ∷ ts) h = elim (Bool-cases (text_eq tok (codes ":"))) [
  | inl k ↦
      let e = ap (λ z. z.1) (ok-injective (rw k at h)) in
      inr (ts, sym e ∙ ap (λ t. t ∷ ts) (eq_of_text_eq tok (codes ":") k))
  | inr k ↦ inl (instruction_line_sound f (name ∷ tok ∷ ts) (rw k at h))
]

line_sound :
    (f : ℕ) (ts : TokenList) {n : Node} {rest : TokenList}
    → line_ f ts ≡ ok (n, rest)
    → LineOrLabel ts n rest
unfolding line_
line_sound f ts h = elim (Bool-cases (is_directive (peek ts))) [
  | inl k ↦ inl (directive_sound ts (rw k at h))
  | inr k ↦ elim (Bool-cases (is_label (peek ts))) [
    | inl l ↦ label_or_instruction f ts (rw (k, l) at h)
    | inr l ↦ inl (instruction_line_sound f ts (rw (k, l) at h))
  ]
]

at_end : (ts : TokenList) → is_eof (peek ts) ≡ true → Listing ts nil
unfolding is_eof
at_end [] h = cc
at_end (tok ∷ ts) h = rw (eq_of_text_eq tok eof h) end

behind_newline :
    (ts : TokenList) (tok : Token) (mid : TokenList) {ns : Nodes}
    → ts ≡ tok ∷ mid
    → is_newline (peek ts) ≡ true
    → Listing mid ns
    → Listing ts ns
unfolding is_newline
behind_newline ts tok mid at_tok k l =
    let is_tok : (tok ≡ eol) = eq_of_text_eq tok eol (rw at_tok at k) in
    rw (at_tok, is_tok) (blank l)

-- No line begins with the colon that a label would leave.
behind_line :
    (f : ℕ) (ts mid : TokenList) {n : Node} {ns : Nodes} {rest : TokenList}
    → LineOrLabel ts n mid
    → program f mid ≡ ok (ns, rest)
    → Listing mid ns
    → Listing ts (cons n ns)
behind_line f ts mid (inl l) h k = line l k
behind_line f ts mid (inr (more, split)) h k = absurd (program_colon f more (rw split at h))

program_sound :
    (f : ℕ) (ts : TokenList) {ns : Nodes} {rest : TokenList}
    → program f ts ≡ ok (ns, rest)
    → Listing ts ns
unfolding program
program_sound zero ts h = cc
program_sound (suc f) ts {ns} h = elim (Bool-cases (is_eof (peek ts))) [
  | inl k ↦ subst (Listing ts) (ap (λ z. z.0) (ok-injective (rw k at h))) (at_end ts k)
  | inr k ↦ elim (Bool-cases (is_newline (peek ts))) [
    | inl l ↦
        let (tok, mid, p, e) = then_ok (next ts) (λ _. program f) (rw (k, l) at h) in
        behind_newline ts tok mid (next_ok ts p) l (program_sound f mid e)
    | inr l ↦
        let (n, mid, p, h') = then_ok (line_ (suc f) ts) _ (rw (k, l) at h) in
        let (ms, mid', q, e) = then_ok (program f mid) _ h' in
        subst (Listing ts) (ap (λ z. z.0) (ok-injective e))
          (behind_line f ts mid (line_sound (suc f) ts p) q (program_sound f mid q))
  ]
]

parse_root :
    (r : Result (Nodes × TokenList)) {tree : Node}
    → (r >>= λ (ns, _). ok (root ns)) ≡ ok tree
    → (ns : Nodes) × (rest : TokenList) × (r ≡ ok (ns, rest)) × (tree ≡ root ns)
parse_root (ok (ns, rest)) h = (ns, rest, refl, sym (ok-injective h))
parse_root (err x) h = cc

pub parse_sound :
    (tokens : TokenList) {tree : Node}
    → parse tokens ≡ ok tree
    → (ns : Nodes) × (tree ≡ root ns) × Listing tokens ns
unfolding parse
parse_sound tokens h =
    let (ns, _, p, e) = parse_root (program (suc (length tokens)) tokens) h in
    (ns, e, program_sound (suc (length tokens)) tokens p)
