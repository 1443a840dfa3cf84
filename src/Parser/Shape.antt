-- ===== src/Parser/Shape.antt =====
-- What stands in a tree that the parser returns.
use gbas.Prelude.{
  ℕ, zero, suc, ◌≡◌, refl, sym, ◌∙◌, ap, Bool-cases, true, ◌||◌, ◌⊎◌, inl, inr, List, [], ◌∷◌,
  Option, none, some, ◌==◌, if◌then◌else◌, length, subst, codes, text_eq, eq_of_text_eq,
}
use gbas.Result.{ok, ◌>>=◌, bind-eq-ok, ok-injective}
use gbas.Ast.{
  InstructionType, DirectiveType, Node, Nodes, instruction0, instruction1, instruction2, directive,
  root, nil, cons,
}
use gbas.Tokenizer.{Token, TokenList}
use gbas.Parser.Classes.{
  InstructionProps, find_instruction, find_directive, section_props, is_instruction, is_newline,
  is_eof, is_label, is_directive,
}
use gbas.Parser.Expression.{pure, next, peek, peek_next, label_}
use gbas.Parser.Sound.{then_ok}
use gbas.Parser.Program.{
  directive_operands, directive_with, directive_, operands_loop, make_instruction, with_props,
  instruction_, instruction_line, line_, program, parse,
}

-- A row of the table admits a type of instruction with `n` operands.
abbrev pub Admits : InstructionType → ℕ → Type 0
Admits t n =
    (tok : Token) × (p : InstructionProps) × (find_instruction tok ≡ some p)
    × (p.type ≡ t)
    × ((n == p.args1 || n == p.args2) ≡ true)

-- The lines of a program: instructions with a number of operands that the table admits, and
-- `.section` with one operand. No labels.
abbrev pub IsLine : Node → Type 0
IsLine (instruction0 t) = Admits t 0
IsLine (instruction1 t _) = Admits t 1
IsLine (instruction2 t _ _) = Admits t 2
IsLine (directive t args) = (t ≡ DirectiveType.section) × (length args ≡ 1)
IsLine _ = ⊥

abbrev pub AllLines : Nodes → Type 0
AllLines nil = Unit
AllLines (cons n ns) = IsLine n × AllLines ns

make_instruction-IsLine :
    (tok : Token) (p : InstructionProps) (operands : List Node) {n : Node}
    → find_instruction tok ≡ some p
    → (length operands == p.args1 || length operands == p.args2) ≡ true
    → make_instruction p operands ≡ ok n
    → IsLine n
unfolding make_instruction
make_instruction-IsLine tok p [] q k h = subst IsLine (ok-injective h) (tok, p, q, refl, k)
make_instruction-IsLine tok p (a ∷ []) q k h = subst IsLine (ok-injective h) (tok, p, q, refl, k)
make_instruction-IsLine tok p (a ∷ b ∷ []) q k h =
    subst IsLine (ok-injective h) (tok, p, q, refl, k)
make_instruction-IsLine tok p (_ ∷ _ ∷ _ ∷ _) q k h = cc

with_props-IsLine :
    (tok : Token) (o : Option InstructionProps) (operands : List Node) {n : Node}
    → find_instruction tok ≡ o
    → with_props o operands ≡ ok n
    → IsLine n
unfolding with_props
with_props-IsLine tok none operands q h = cc
with_props-IsLine tok (some p) operands q h =
    elim (Bool-cases (length operands == p.args1 || length operands == p.args2)) [
      | inl k ↦ make_instruction-IsLine tok p operands q k (rw k at h)
      | inr k ↦ cc (rw k at h)
    ]

instruction-IsLine :
    (f : ℕ) (ts : TokenList) {n : Node} {rest : TokenList}
    → instruction_ f ts ≡ ok (n, rest)
    → IsLine n
unfolding instruction_
instruction-IsLine f ts h =
    let (inst, mid, p, h') = then_ok (next ts) _ h in
    let (operands, mid', q, e) = then_ok (operands_loop f [] mid) _ h' in
    let (n, r, e') =
      bind-eq-ok (with_props (find_instruction inst) operands) (λ n. pure n mid') e in
    subst IsLine (ap (λ p. p.0) (ok-injective e'))
      (with_props-IsLine inst (find_instruction inst) operands refl r)

instruction_line-IsLine :
    (f : ℕ) (ts : TokenList) {n : Node} {rest : TokenList}
    → instruction_line f ts ≡ ok (n, rest)
    → IsLine n
unfolding instruction_line
instruction_line-IsLine f ts h = elim (Bool-cases (is_instruction (peek ts))) [
  | inl k ↦ instruction-IsLine f ts (rw k at h)
  | inr k ↦ cc (rw k at h)
]

length-directive_operands :
    (n : ℕ) (ts : TokenList) {args rest : TokenList}
    → directive_operands n ts ≡ ok (args, rest)
    → length args ≡ n
unfolding directive_operands
length-directive_operands zero ts h = ap length (ap (λ p. p.0) (sym (ok-injective h)))
length-directive_operands (suc n) ts h = elim (Bool-cases (is_newline (peek ts))) [
  | inl k ↦ cc (rw k at h)
  | inr k ↦
      let (tok, mid, p, h') = then_ok (next ts) _ (rw k at h) in
      let (toks, mid', q, e) = then_ok (directive_operands n mid) _ h' in
      ap length (ap (λ p. p.0) (sym (ok-injective e))) ∙ ap suc (length-directive_operands n mid q)
]

directive_with-IsLine :
    (tok : Token) (ts : TokenList) {n : Node} {rest : TokenList}
    → directive_with (find_directive tok) ts ≡ ok (n, rest)
    → IsLine n
unfolding directive_with find_directive
directive_with-IsLine tok ts h = elim (Bool-cases (text_eq section_props.lexeme tok)) [
  | inl k ↦
      let (args, mid, p, e) = then_ok (directive_operands 1 ts) _ (rw k at h) in
      subst IsLine (ap (λ p. p.0) (ok-injective e)) (refl, length-directive_operands 1 ts p)
  | inr k ↦ cc (rw k at h)
]

directive-IsLine :
    (ts : TokenList) {n : Node} {rest : TokenList} → directive_ ts ≡ ok (n, rest) → IsLine n
unfolding directive_
directive-IsLine ts h =
    let (tok, mid, p, e) = then_ok (next ts) _ h in directive_with-IsLine tok mid e

-- A line is as above, or a label before a colon.
abbrev Line : Node → TokenList → Type 0
Line n rest = IsLine n ⊎ ((more : TokenList) × (rest ≡ codes ":" ∷ more))

after_label :
    (f : ℕ) (ts : TokenList) {n : Node} {rest : TokenList}
    → (peek_next ts >>= λ tok. if text_eq tok (codes ":") then label_ ts else instruction_line f ts)
      ≡ ok (n, rest)
    → Line n rest
unfolding label_
after_label f [] h = cc
after_label f (_ ∷ []) h = cc
after_label f (name ∷ tok ∷ ts) h = elim (Bool-cases (text_eq tok (codes ":"))) [
  | inl k ↦
      let e = ap (λ p. p.1) (ok-injective (rw k at h)) in
      inr (ts, sym e ∙ ap (λ t. t ∷ ts) (eq_of_text_eq tok (codes ":") k))
  | inr k ↦ inl (instruction_line-IsLine f (name ∷ tok ∷ ts) (rw k at h))
]

line_lem :
    (f : ℕ) (ts : TokenList) {n : Node} {rest : TokenList} → line_ f ts ≡ ok (n, rest) → Line n rest
unfolding line_
line_lem f ts h = elim (Bool-cases (is_directive (peek ts))) [
  | inl k ↦ inl (directive-IsLine ts (rw k at h))
  | inr k ↦ elim (Bool-cases (is_label (peek ts))) [
    | inl l ↦ after_label f ts (rw (k, l) at h)
    | inr l ↦ inl (instruction_line-IsLine f ts (rw (k, l) at h))
  ]
]

-- No line begins with a colon.
pub program_colon :
    (f : ℕ) (more : TokenList) {r : Nodes × TokenList} → program f (codes ":" ∷ more) ≡ ok r → ⊥
unfolding program line_ instruction_line is_eof is_newline is_directive is_label is_instruction
program_colon zero more h = cc
program_colon (suc f) more h = cc

is_line :
    (f : ℕ) (n : Node) {rest : TokenList} {r : Nodes × TokenList}
    → Line n rest
    → program f rest ≡ ok r
    → IsLine n
is_line f n (inl h) e = h
is_line f n (inr (more, split)) e = absurd (program_colon f more (rw split at e))

program-AllLines :
    (f : ℕ) (ts : TokenList) {ns : Nodes} {rest : TokenList}
    → program f ts ≡ ok (ns, rest)
    → AllLines ns
unfolding program
program-AllLines zero ts h = cc
program-AllLines (suc f) ts h = elim (Bool-cases (is_eof (peek ts))) [
  | inl k ↦ subst AllLines (ap (λ p. p.0) (ok-injective (rw k at h))) tt
  | inr k ↦ elim (Bool-cases (is_newline (peek ts))) [
    | inl l ↦
        let (tok, mid, p, e) = then_ok (next ts) (λ _. program f) (rw (k, l) at h) in
        program-AllLines f mid e
    | inr l ↦
        let (n, mid, p, h') = then_ok (line_ (suc f) ts) _ (rw (k, l) at h) in
        let (ns, mid', q, e) = then_ok (program f mid) _ h' in
        subst AllLines (ap (λ p. p.0) (ok-injective e))
          (is_line f n (line_lem (suc f) ts p) q, program-AllLines f mid q)
  ]
]

-- If `parse` returns a tree, it is a root whose children are instructions with a number of
-- operands that the table admits, and `.section` directives with one operand. None is a label.
pub parse-AllLines :
    (tokens : TokenList) {n : Node}
    → parse tokens ≡ ok n
    → (ns : Nodes) × (n ≡ root ns) × AllLines ns
unfolding parse
parse-AllLines tokens h =
    let (p, q, e) = bind-eq-ok (program (suc (length tokens)) tokens) _ h in
    (p.0, sym (ok-injective e), program-AllLines (suc (length tokens)) tokens q)
