-- ===== src/Parser/Numerals.antt =====
-- src/parser.cpp: `std::atoi` on the tokens that `Parser::parseNumber` is given, which are all digits.
use gbas.Prelude.{
  ℕ, ◌+◌, ◌*◌, ◌-◌, ◌^◌, ◌<◌, ◌≡◌, refl, sym, ◌∙◌, ap, Bool, Bool-cases, inl, inr, true, false,
  ◌&&◌, [], ◌∷◌, ltb, lt→ltb, ltb→lt, ◌==◌, all, Text, arith,
}
use gbas.CharUtils.{is_digit, is_number}
use gbas.Result.{ok, ok-injective}
use gbas.Ast.{Node, number}
use gbas.Evaluate.{byte}
use gbas.Tokenizer.{Token}
use gbas.Parser.Grammar.{decimal}
use gbas.Parser.Expression.{is_space, read_digits, read_sign, atoi, parse_number}

both : (a b : Bool) → (a && b) ≡ true → (a ≡ true) × (b ≡ true)
both true true h = (refl, refl)
both true false h = cc
both false b h = cc

read_digits-decimal :
    (acc : ℕ) (cs : Text) → all is_digit cs ≡ true → read_digits acc cs ≡ decimal acc cs
unfolding read_digits decimal
read_digits-decimal acc [] h = refl
read_digits-decimal acc (c ∷ cs) h =
    let (here, rest) = both (is_digit c) (all is_digit cs) h in
    rw here (read_digits-decimal (acc * 10 + (c - b'0')) cs rest)

no_sign :
    (c : ℕ)
    → is_digit c ≡ true
    → ((c == b'-') ≡ false) × ((c == b'+') ≡ false) × (is_space c ≡ false)
unfolding is_digit
no_sign c h = (ground arith, ground arith, ground arith)

atoi-decimal : (tok : Token) → is_number tok ≡ true → atoi tok ≡ (false, decimal 0 tok)
unfolding atoi read_sign is_number
atoi-decimal [] h = cc
atoi-decimal (c ∷ cs) h =
    let (here, rest) = both (is_digit c) (all is_digit cs) h in
    let (minus, plus, space) = no_sign c here in
    rw (space, minus, plus) (ap {B = Bool × ℕ} (λ n. (false, n)) (read_digits-decimal 0 (c ∷ cs) h))

pub parse_number-decimal :
    (tok : Token)
    → is_number tok ≡ true
    → decimal 0 tok < 2 ^ 31
    → parse_number tok ≡ ok (number (byte (decimal 0 tok)))
unfolding parse_number
parse_number-decimal tok h small = rw (atoi-decimal tok h, lt→ltb _ _ small) refl

pub parse_number_ok :
    (tok : Token) {n : Node}
    → is_number tok ≡ true
    → parse_number tok ≡ ok n
    → (decimal 0 tok < 2 ^ 31) × (n ≡ number (byte (decimal 0 tok)))
unfolding parse_number
parse_number_ok tok k h = elim (Bool-cases (ltb (decimal 0 tok) (2 ^ 31))) [
  | inl small ↦
      let below = ltb→lt _ _ small in
      (
        below,
        sym (ok-injective (sym (parse_number-decimal tok k below) ∙ unfold parse_number in h)),
      )
  | inr large ↦ cc (rw (atoi-decimal tok k, large) at h)
]
