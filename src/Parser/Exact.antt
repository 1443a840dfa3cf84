-- ===== src/Parser/Exact.antt =====
-- src/parser.cpp: the parser reads every program of its grammar, and so exactly those.
use gbas.Prelude.{
  ℕ, zero, suc, ◌+◌, ◌<◌, ◌≤◌, ◌≡◌, ◌↔◌, refl, sym, ◌∙◌, ap, subst, false, List, [], ◌∷◌, ◌++◌,
  append_assoc, append-nil, length, length-append, lt→ltb, arith,
}
use gbas.Result.{Result, ok, ◌>>=◌}
use gbas.Ast.{Node, Nodes, root}
use gbas.Tokenizer.{TokenList, eol, eof}
use gbas.Parser.Classes.{is_register, is_newline, is_comma, is_eof}
use gbas.Parser.Expression.{peek, operand, register_, dregister_}
use gbas.Parser.Grammar.{Unary, name, numeral, negated, factors, Sum, terms}
use gbas.Parser.Longest.{addition_lem}
use gbas.Parser.Program.{operands_loop, line_, program, parse}
use gbas.Parser.Listing.{
  Operand, single, pair, sum, Operands, newline, comma, with_operand, Line, instruction, section,
  Listing, end, blank, line,
}
use gbas.Parser.Listed.{make_instruction-few, parse_sound}
use gbas.Parser.Accepts.{register_of-single, dregister_of-pair, loop_stops, loop_passes}
use gbas.Parser.Reading.{found_no_end, instruction_complete, section_complete}

pair_no_register : (r s : ℕ) → is_register (r ∷ s ∷ []) ≡ false
unfolding is_register
pair_no_register r s = ground arith

Operand-runs :
    (f : ℕ) {ts : TokenList} {n : Node} {rest : TokenList}
    → Operand ts n rest
    → length ts < f
    → operand f ts ≡ ok (n, rest)
unfolding operand register_ dregister_
Operand-runs f (single {c} k) room = rw (k, register_of-single c k) refl
Operand-runs f (pair {r} {s} k) room = rw (pair_no_register r s, k, dregister_of-pair r s k) refl
Operand-runs f {ts} {n} {rest} (sum {us = us} k l split s ends) room =
    rw (k, l) ((addition_lem f ts n rest room).1 (us, split, s, ends))

longer : (xs ys : TokenList) {all : TokenList} → all ≡ xs ++ ys → length all ≡ length xs + length ys
longer xs ys e = ap (λ zs. length zs) e ∙ length-append xs ys

Unary-nonempty : {us : TokenList} {n : Node} → Unary us n → 0 < length us
Unary-nonempty (name _) = omega arith
Unary-nonempty (numeral _ _ _) = omega arith
Unary-nonempty (negated _ _) = omega arith

Sum-nonempty : {us : TokenList} {n : Node} → Sum us n → 0 < length us
Sum-nonempty (terms {us = vs} {ts = ws} (factors {us = us} {ts = ts} u _ e) _ e') =
    omega (arith, Unary-nonempty u, longer us ts e, longer vs ws e')

Operand-shorter :
    {ts : TokenList} {n : Node} {rest : TokenList} → Operand ts n rest → length rest < length ts
Operand-shorter (single _) = omega arith
Operand-shorter (pair _) = omega arith
Operand-shorter (sum {us = us} {rest = rest} _ _ split s _) =
    omega (arith, Sum-nonempty s, longer us rest split)

Operands-shorter :
    {ts : TokenList} {ns : List Node} {rest : TokenList}
    → Operands ts ns rest
    → length rest ≤ length ts
Operands-shorter newline = omega arith
Operands-shorter (comma o) = omega (arith, Operands-shorter o)
Operands-shorter (with_operand _ _ u o) = omega (arith, Operand-shorter u, Operands-shorter o)

operand_first :
    (f : ℕ) (acc ns : List Node) (ts mid : TokenList) {n : Node} {rest : TokenList}
    → is_newline (peek ts) ≡ false
    → is_comma (peek ts) ≡ false
    → length acc < 3
    → operand (suc f) ts ≡ ok (n, mid)
    → operands_loop f (acc ++ n ∷ []) mid ≡ ok ((acc ++ n ∷ []) ++ ns, rest)
    → operands_loop (suc f) acc ts ≡ ok (acc ++ n ∷ ns, rest)
unfolding operands_loop
operand_first f acc ns ts mid {n} {rest} k c few read more =
    rw (k, lt→ltb (length acc) 3 few, c, read)
      (more
        ∙ ap {B = Result (List Node × TokenList)} (λ xs. ok (xs, rest))
            (append_assoc acc (n ∷ []) ns))

Operands-runs :
    (f : ℕ) (acc : List Node) {ts : TokenList} {ns : List Node} {rest : TokenList}
    → Operands ts ns rest
    → length acc + length ns < 3
    → length ts < f
    → operands_loop f acc ts ≡ ok (acc ++ ns, rest)
Operands-runs zero acc o few room = absurd (omega arith)
Operands-runs (suc f) acc (newline {ts}) few room =
    loop_stops f acc ts
    ∙ ap {B = Result (List Node × TokenList)} (λ xs. ok (xs, eol ∷ ts)) (sym (append-nil acc))
Operands-runs (suc f) acc (comma {ts} o) few room =
    loop_passes f acc ts (omega arith) ∙ Operands-runs f acc o few (omega arith)
Operands-runs (suc f) acc (with_operand {ts} {mid} {rest} {n} {ns} k c u o) few room =
    operand_first f acc ns ts mid k c (omega arith) (Operand-runs (suc f) u room) (
      Operands-runs f (acc ++ n ∷ []) o (omega (arith, length-append acc (n ∷ [])))
        (omega (arith, Operand-shorter u)))

Line-runs :
    (f : ℕ) {ts : TokenList} {n : Node} {rest : TokenList}
    → Line ts n rest
    → length ts < f
    → line_ f ts ≡ ok (n, rest)
Line-runs f (instruction {tok} {p} {ts} {rest} {ns} found o count made) room =
    instruction_complete f tok p ts rest ns found
      (Operands-runs f [] o (omega (arith, make_instruction-few p ns made)) (omega arith)) count
      made
Line-runs f (section {name} {rest} k) room = section_complete f name rest k

Line-shorter :
    {ts : TokenList} {n : Node} {rest : TokenList} → Line ts n rest → length rest < length ts
Line-shorter (instruction _ o _ _) = omega (arith, Operands-shorter o)
Line-shorter (section _) = omega arith

Line-opens :
    {ts : TokenList} {n : Node} {rest : TokenList}
    → Line ts n rest
    → (is_eof (peek ts) ≡ false) × (is_newline (peek ts) ≡ false)
unfolding is_eof is_newline
Line-opens (instruction {tok} found _ _ _) = found_no_end tok found
Line-opens (section _) = (refl, refl)

Listing-runs :
    (f : ℕ) {ts : TokenList} {ns : Nodes}
    → Listing ts ns
    → length ts < f
    → (rest : TokenList) × (program f ts ≡ ok (ns, rest))
unfolding program is_eof is_newline
Listing-runs zero l room = absurd (omega arith)
Listing-runs (suc f) (end {ts}) room = (eof ∷ ts, refl)
Listing-runs (suc f) (blank l) room = Listing-runs f l (omega arith)
Listing-runs (suc f) (line x l) room =
    let (no_end, no_newline) = Line-opens x in
    let (rest, more) = Listing-runs f l (omega (arith, Line-shorter x)) in
    (rest, rw (no_end, no_newline, Line-runs (suc f) x room, more) refl)

parsed :
    (r : Result (Nodes × TokenList)) (ns : Nodes) (rest : TokenList)
    → r ≡ ok (ns, rest)
    → ◌≡◌ {A = Result Node} (r >>= λ (ns, _). ok (root ns)) (ok (root ns))
parsed r ns rest h = rw h refl

root-injective : {ms ns : Nodes} → ◌≡◌ {A = Node} (root ms) (root ns) → ms ≡ ns
root-injective h = cc

-- `parse` returns a root with some children exactly if they are a reading, by the grammar of
-- programs, of the tokens that it was given up to an end of the file where a line may begin.
pub parse-Listing :
    (tokens : TokenList) (ns : Nodes) → (parse tokens ≡ ok (root ns)) ↔ Listing tokens ns
unfolding parse
parse-Listing tokens ns = (forth, back)
  where
    forth : parse tokens ≡ ok (root ns) → Listing tokens ns
    forth h =
        let (ms, e, l) = parse_sound tokens h in subst (Listing tokens) (sym (root-injective e)) l

    back : Listing tokens ns → parse tokens ≡ ok (root ns)
    back l =
        let (rest, p) = Listing-runs (suc (length tokens)) l (omega arith) in
        parsed (program (suc (length tokens)) tokens) ns rest p
