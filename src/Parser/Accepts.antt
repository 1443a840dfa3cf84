-- ===== src/Parser/Accepts.antt =====
-- src/parser.cpp: every operand, instruction and directive of the grammar is parsed to its tree.
use gbas.Prelude.{
  ℕ, suc, ◌<◌, ◌≡◌, refl, subst, Bool-cases, inl, inr, ◌⊎◌, true, false, List, [], ◌∷◌, ◌++◌,
  length, codes, lt→ltb, eq_of_text_eq, arith,
}
use gbas.Result.{ok}
use gbas.CharUtils.{is_number}
use gbas.Ast.{Node, register, dregister}
use gbas.Tokenizer.{Token, TokenList, eol}
use gbas.Parser.Classes.{
  find_instruction, is_instruction, is_register, is_dregister, is_newline, is_comma, is_label,
  is_addition, is_multiplication,
}
use gbas.Parser.Expression.{peek, begins, register_of, dregister_of, register_, dregister_, operand}
use gbas.Parser.Grammar.{Unary, name, numeral, negated, factors, Sum, terms}
use gbas.Parser.Complete.{addition_complete}
use gbas.Parser.Manual.{Operand, single, pair, sum}
use gbas.Parser.Program.{operands_loop}

-- The first token of an expression.
abbrev Starts : Token → Type 0
Starts tok = (is_label tok ≡ true) ⊎ ((is_number tok ≡ true) ⊎ (begins b'-' tok ≡ true))

Unary-Starts :
    {us : TokenList} {n : Node}
    → Unary us n
    → (tok : Token) × (more : TokenList) × (us ≡ tok ∷ more) × Starts tok
Unary-Starts (name {tok} k) = (tok, [], refl, inl k)
Unary-Starts (numeral {tok} l k small) = (tok, [], refl, inr (inl k))
Unary-Starts (negated {tok} {ts} k u) = (tok, ts, refl, inr (inr k))

same_start :
    {tok x : Token} {ts us vs more : TokenList} (ws fs : TokenList)
    → vs ≡ x ∷ more
    → us ≡ vs ++ fs
    → tok ∷ ts ≡ us ++ ws
    → x ≡ tok
same_start ws fs h e e' = head_eq (rw (e, h) at e')
  where
    head_eq : {a b : Token} {as' bs : TokenList} → a ∷ as' ≡ b ∷ bs → b ≡ a
    head_eq h = cc

Sum-Starts : {tok : Token} {ts : TokenList} {n : Node} → Sum (tok ∷ ts) n → Starts tok
Sum-Starts (terms (factors u _ e) _ e') =
    let (x, more, split, s) = Unary-Starts u in subst Starts (same_start _ _ split e e') s

comma-Starts : Starts (codes ",") → ⊥
unfolding is_label is_number is_instruction find_instruction
comma-Starts (inl k) = cc
comma-Starts (inr (inl k)) = cc
comma-Starts (inr (inr k)) = cc

no_comma : (tok : Token) → Starts tok → is_comma tok ≡ false
unfolding is_comma
no_comma tok s = elim (Bool-cases (is_comma tok)) [
  | inl k ↦ absurd (comma-Starts (subst Starts (eq_of_text_eq tok (codes ",") k) s))
  | inr k ↦ k
]

-- The parts of the parser on the operands.
pub register_of-single :
    (c : ℕ) → is_register (c ∷ []) ≡ true → register_of (c ∷ []) ≡ ok (register c)
unfolding is_register register_of
register_of-single c h = ground arith

pub dregister_of-pair :
    (r s : ℕ) → is_dregister (r ∷ s ∷ []) ≡ true → dregister_of (r ∷ s ∷ []) ≡ ok (dregister r s)
unfolding is_dregister dregister_of
dregister_of-pair r s h = ground arith

-- A register or an expression is at the front, and its tokens are read.
operand_complete :
    (f : ℕ) (rest : TokenList) {ts : TokenList} {n : Node}
    → Operand ts n
    → is_addition (peek rest) ≡ false
    → is_multiplication (peek rest) ≡ false
    → length (ts ++ rest) < f
    → operand f (ts ++ rest) ≡ ok (n, rest)
unfolding operand register_ dregister_ is_register
operand_complete f rest (single {c} k) h j room = rw (k, register_of-single c k)
operand_complete f rest (pair {r} {s} k) h j room = rw (not_single r s, k, dregister_of-pair r s k)
  where
    not_single : (r s : ℕ) → is_register (r ∷ s ∷ []) ≡ false
    not_single r s = ground arith
operand_complete f rest (sum k l _ s) h j room = rw (k, l) (addition_complete f rest s h j room)

-- The first token of an operand is neither a comma nor a newline.
abbrev Opens : Token → Type 0
Opens tok = (is_comma tok ≡ false) × (is_newline tok ≡ false)

pub Operand-Opens :
    (rest : TokenList) {ts : TokenList} {n : Node}
    → Operand ts n
    → Opens (peek (ts ++ rest)) × (0 < length ts)
unfolding is_comma is_newline is_register
Operand-Opens rest (single {c} k) = ((letter c k, ground arith), omega arith)
  where
    letter : (c : ℕ) → is_register (c ∷ []) ≡ true → is_comma (c ∷ []) ≡ false
    letter c k = ground arith
Operand-Opens rest (pair {r} {s} k) = ((ground arith, ground arith), omega arith)
Operand-Opens rest (sum {tok} {ts} k l m s) = ((no_comma tok (Sum-Starts s), m), omega arith)

-- The loop over the operands stops at the end of the line, passes a comma and takes an operand.
pub loop_stops :
    (f : ℕ) (acc : List Node) (rest : TokenList)
    → operands_loop (suc f) acc (eol ∷ rest) ≡ ok (acc, eol ∷ rest)
unfolding operands_loop is_newline
loop_stops f acc rest = refl

pub loop_passes :
    (f : ℕ) (acc : List Node) (rest : TokenList)
    → length acc < 3
    → operands_loop (suc f) acc (codes "," ∷ rest) ≡ operands_loop f acc rest
unfolding operands_loop is_newline is_comma
loop_passes f acc rest few = rw (lt→ltb _ _ few) refl

pub loop_takes :
    (f : ℕ) (acc : List Node) (rest : TokenList) {ts : TokenList} {n : Node}
    → Operand ts n
    → is_addition (peek rest) ≡ false
    → is_multiplication (peek rest) ≡ false
    → length acc < 3
    → length (ts ++ rest) < suc f
    → operands_loop (suc f) acc (ts ++ rest) ≡ operands_loop f (acc ++ n ∷ []) rest
unfolding operands_loop
loop_takes f acc rest {ts} o h j few room =
    let ((comma, newline), _) = Operand-Opens rest o in
    rw (newline, lt→ltb _ _ few, comma, operand_complete (suc f) rest o h j room) refl
