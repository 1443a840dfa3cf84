-- ===== src/Parser/Complete.antt =====
-- Every run of tokens of the grammar is parsed as the grammar reads it.
use gbas.Prelude.{
  ℕ, zero, suc, ◌<◌, ◌≡◌, refl, Bool, true, false, not, ◌||◌, and-cases, [], ◌∷◌, ◌++◌, ◌==◌,
  if◌then◌else◌, length, all, codes, arith, append_assoc, length-append,
}
use gbas.CharUtils.{is_number, is_digit, is_alpha_numeric}
use gbas.Result.{ok}
use gbas.Ast.{Node}
use gbas.Tokenizer.{Token, TokenList}
use gbas.Parser.Classes.{is_label, is_addition, is_multiplication, is_instruction}
use gbas.Parser.Expression.{
  peek, begins, is_empty, label_, number_, primary, unary, multiplication_loop, multiplication,
  addition_loop, addition,
}
use gbas.Parser.Numerals.{parse_number-decimal}
use gbas.Parser.Grammar.{
  Unary, name, numeral, negated, Factors, no_factor, times, over, Product, factors, Terms, no_term,
  plus, minus, Sum, terms,
}

-- A label or a number is not empty and does not begin with a sign.
abbrev Unsigned : Token → Type 0
Unsigned tok = (is_empty tok ≡ false) × (begins b'-' tok ≡ false)

word_char : (c : ℕ) → (is_alpha_numeric c || c == b'_') ≡ true → (c == b'-') ≡ false
unfolding is_alpha_numeric
word_char c h = ground arith

word_of_label :
    (a b d e : Bool)
    → (if a then false else if b then false else if not d then false else e) ≡ true
    → d ≡ true
word_of_label a b d e h = ground arith

label-Unsigned : (tok : Token) → is_label tok ≡ true → Unsigned tok
unfolding is_label
label-Unsigned [] h = cc
label-Unsigned (c ∷ cs) h = (
  refl,
  word_char c
      (and-cases (
        word_of_label (is_digit c) (c == b'.') (all (λ d. is_alpha_numeric d || d == b'_') (c ∷ cs))
          (not (is_instruction (c ∷ cs))) h)).0,
)

number-Unsigned : (tok : Token) → is_number tok ≡ true → Unsigned tok
unfolding is_number
number-Unsigned [] h = cc
number-Unsigned (c ∷ cs) h = (refl, digit_char c (and-cases h).0)
  where
    digit_char : (c : ℕ) → is_digit c ≡ true → (c == b'-') ≡ false
    digit_char c h = ground arith

signed-nonempty : (tok : Token) → begins b'-' tok ≡ true → is_empty tok ≡ false
signed-nonempty [] h = cc
signed-nonempty (_ ∷ _) h = refl

unary_complete :
    (f : ℕ) (rest : TokenList) {us : TokenList} {n : Node}
    → Unary us n
    → length (us ++ rest) < f
    → unary f (us ++ rest) ≡ ok (n, rest)
unfolding unary
unary_complete zero rest u h = absurd (omega arith)
unary_complete (suc f) rest (name {tok} k) h =
    let (full, plain) = label-Unsigned tok k in rw (full, plain) (unfold primary label_ in rw k)
unary_complete (suc f) rest (numeral {tok} l k small) h =
    let (full, plain) = number-Unsigned tok k in
    rw (full, plain) (unfold primary number_ in rw (l, k, parse_number-decimal tok k small) refl)
unary_complete (suc f) rest (negated {tok} k u) h =
    rw (signed-nonempty tok k, k, unary_complete f rest u (omega arith))

-- The tokens behind an operator are fewer.
fits :
    (op : Token) (us ts rest : TokenList) (f : ℕ) {all : TokenList}
    → all ≡ op ∷ (us ++ ts)
    → length (all ++ rest) < suc f
    → length (us ++ (ts ++ rest)) < f
fits op us ts rest f e h =
    let k : suc (length (us ++ (ts ++ rest))) < suc f = rw (e, append_assoc) at h in omega arith

fits_behind : (us vs : TokenList) (f : ℕ) → length (us ++ vs) < f → length vs < f
fits_behind us vs f h = omega (arith, length-append us vs)

multiplication_loop_complete :
    (f : ℕ) (rest : TokenList) {left n : Node} {ts : TokenList}
    → Factors left ts n
    → is_multiplication (peek rest) ≡ false
    → length (ts ++ rest) < f
    → multiplication_loop f left (ts ++ rest) ≡ ok (n, rest)
unfolding multiplication_loop is_multiplication
multiplication_loop_complete zero rest t k h = absurd (omega arith)
multiplication_loop_complete (suc f) rest no_factor k h = rw k
multiplication_loop_complete (suc f) rest (times {us} {ts} u t e) k h =
    let room = fits (codes "*") us ts rest f e h in
    rw (e, append_assoc, unary_complete f (ts ++ rest) u room)
      (multiplication_loop_complete f rest t k (fits_behind us (ts ++ rest) f room))
multiplication_loop_complete (suc f) rest (over {us} {ts} u t e) k h =
    let room = fits (codes "/") us ts rest f e h in
    rw (e, append_assoc, unary_complete f (ts ++ rest) u room)
      (multiplication_loop_complete f rest t k (fits_behind us (ts ++ rest) f room))

multiplication_complete :
    (f : ℕ) (rest : TokenList) {ts : TokenList} {n : Node}
    → Product ts n
    → is_multiplication (peek rest) ≡ false
    → length (ts ++ rest) < f
    → multiplication f (ts ++ rest) ≡ ok (n, rest)
unfolding multiplication
multiplication_complete f rest (factors {us} {ts} u t e) k h =
    let room : length (us ++ (ts ++ rest)) < f = rw (e, append_assoc) at h in
    rw (e, append_assoc, unary_complete f (ts ++ rest) u room)
      (multiplication_loop_complete f rest t k (fits_behind us (ts ++ rest) f room))

-- Behind a product stands no factor.
no_factor_next :
    (rest : TokenList) {left n : Node} {ts : TokenList}
    → Terms left ts n
    → is_multiplication (peek rest) ≡ false
    → is_multiplication (peek (ts ++ rest)) ≡ false
unfolding is_multiplication
no_factor_next rest no_term k = k
no_factor_next rest (plus u t e) k = rw e
no_factor_next rest (minus u t e) k = rw e

addition_loop_complete :
    (f : ℕ) (rest : TokenList) {left n : Node} {ts : TokenList}
    → Terms left ts n
    → is_addition (peek rest) ≡ false
    → is_multiplication (peek rest) ≡ false
    → length (ts ++ rest) < f
    → addition_loop f left (ts ++ rest) ≡ ok (n, rest)
unfolding addition_loop is_addition
addition_loop_complete zero rest t k j h = absurd (omega arith)
addition_loop_complete (suc f) rest no_term k j h = rw k
addition_loop_complete (suc f) rest (plus {us} {ts} u t e) k j h =
    let room = fits (codes "+") us ts rest f e h in
    rw (e, append_assoc, multiplication_complete f (ts ++ rest) u (no_factor_next rest t j) room)
      (addition_loop_complete f rest t k j (fits_behind us (ts ++ rest) f room))
addition_loop_complete (suc f) rest (minus {us} {ts} u t e) k j h =
    let room = fits (codes "-") us ts rest f e h in
    rw (e, append_assoc, multiplication_complete f (ts ++ rest) u (no_factor_next rest t j) room)
      (addition_loop_complete f rest t k j (fits_behind us (ts ++ rest) f room))

-- Let some tokens be an expression of the grammar, the tokens behind them not begin with an
-- operator, and the fuel exceed the number of them all. Then the parser takes the expression's
-- tokens, returns its tree and leaves the others.
pub addition_complete :
    (f : ℕ) (rest : TokenList) {ts : TokenList} {n : Node}
    → Sum ts n
    → is_addition (peek rest) ≡ false
    → is_multiplication (peek rest) ≡ false
    → length (ts ++ rest) < f
    → addition f (ts ++ rest) ≡ ok (n, rest)
unfolding addition
addition_complete f rest (terms {us} {ts} u t e) k j h =
    let room : length (us ++ (ts ++ rest)) < f = rw (e, append_assoc) at h in
    rw (e, append_assoc, multiplication_complete f (ts ++ rest) u (no_factor_next rest t j) room)
      (addition_loop_complete f rest t k j (fits_behind us (ts ++ rest) f room))
