-- ===== src/Parser/Expression.antt =====
-- The recursive descent through an operand: registers, and expressions of two levels of operators.
-- Each round of a loop and each call of `unary` costs a unit of fuel.
use gbas.Prelude.{
  ℕ, zero, suc, ◌+◌, ◌-◌, ◌*◌, ◌^◌, Bool, true, false, [], ◌∷◌, ◌==◌, ltb, leb, ◌||◌, ◌&&◌,
  if◌then◌else◌, Text, codes, text_eq,
}
use gbas.CharUtils.{is_digit, is_number}
use gbas.Result.{Result, ok, err, ◌>>=◌, parser_exception, out_of_range, undefined, out_of_fuel}
use gbas.Ast.{
  BinaryOpType, UnaryOpType, Node, register, dregister, label, number, binary_op, unary_op,
}
use gbas.Evaluate.{byte}
use gbas.Tokenizer.{Token, TokenList}
use gbas.Parser.Classes.{is_label, is_register, is_dregister, is_addition, is_multiplication}

abbrev pub Parser : Type 0 → Type 0
Parser A = TokenList → Result (A × TokenList)

abbrev pub pure : {A : Type 0} → A → Parser A
pure a ts = ok (a, ts)

abbrev pub throw : {A : Type 0} → Text → Parser A
throw msg ts = err (parser_exception msg)

infixl 1 ◌>>>=◌
abbrev pub ◌>>>=◌ :
    {A B : Type 0} → Result (A × TokenList) → (A → Parser B) → Result (B × TokenList)
r >>>= f = r >>= λ (a, ts). f a ts

-- `mTokens.at(mPos++)`, `peek` with its token of a space past the end, and `mTokens.at(mPos + 1)`.
abbrev pub next : Parser Token
next [] = err out_of_range
next (tok ∷ ts) = ok (tok, ts)

abbrev pub peek : TokenList → Token
peek [] = codes " "
peek (tok ∷ _) = tok

abbrev pub peek_next : TokenList → Result Token
peek_next (_ ∷ tok ∷ _) = ok tok
peek_next _ = err out_of_range

-- `std::atoi`: white space, a sign, and digits up to the first other character. What it returns is a
-- sign, `true` for a minus, and a magnitude.
abbrev pub is_space : ℕ → Bool
is_space c = c == b' ' || (leb 9 c && leb c 13)

unfoldable pub read_digits : ℕ → Text → ℕ
unfolding is_digit
read_digits acc [] = acc
read_digits acc (c ∷ cs) =
    let rest = read_digits (acc * 10 + (c - b'0')) cs in if is_digit c then rest else acc

unfoldable pub read_sign : Text → Bool × ℕ
unfolding read_digits
read_sign [] = (false, 0)
read_sign (c ∷ cs) =
    if c == b'-'
    then (true, read_digits 0 cs)
    else if c == b'+'
    then (false, read_digits 0 cs)
    else (false, read_digits 0 (c ∷ cs))

unfoldable pub atoi : Text → Bool × ℕ
unfolding read_sign
atoi [] = (false, 0)
atoi (c ∷ cs) = let rest = atoi cs in if is_space c then rest else read_sign (c ∷ cs)

-- The conversion of an `int` to a `uint8_t`; a value that is no `int` is undefined behaviour.
abbrev pub int_byte : Bool → ℕ → Result ℕ
int_byte false n = if ltb n (2 ^ 31) then ok (byte n) else err undefined
int_byte true n = if leb n (2 ^ 31) then ok (byte (256 - byte n)) else err undefined

unfoldable pub parse_number : Token → Result Node
unfolding atoi
parse_number tok = let n = atoi tok in int_byte n.0 n.1 >>= λ v. ok (number v)

unfoldable pub parse_label : Token → Node
parse_label tok = label tok

-- `label` and `number`, which take the next token.
unfoldable pub label_ : Parser Node
unfolding parse_label
label_ ts = next ts >>>= λ tok. pure (parse_label tok)

unfoldable pub number_ : Parser Node
unfolding parse_number
number_ ts = next ts >>>= λ tok rest. parse_number tok >>= λ n. ok (n, rest)

unfoldable pub primary : Parser Node
unfolding label_ number_ is_label is_number
primary ts =
    if is_label (peek ts)
    then label_ ts
    else if is_number (peek ts)
    then number_ ts
    else throw (codes "Unrecognized primary expression") ts

-- Does the token begin with this character?
abbrev pub begins : ℕ → Token → Bool
begins c [] = false
begins c (d ∷ _) = d == c

abbrev pub is_empty : Token → Bool
is_empty [] = true
is_empty (_ ∷ _) = false

unfoldable pub unary : ℕ → Parser Node
unary zero ts = err out_of_fuel
unary (suc f) ts =
    let negated = next ts >>>= λ _ rest. unary f rest >>>= λ n. pure (unary_op UnaryOpType.neg n) in
    if is_empty (peek ts)
    then throw (codes "Invalid unary op") ts
    else if begins b'-' (peek ts)
    then negated
    else primary ts

unfoldable pub multiplication_loop : ℕ → Node → Parser Node
multiplication_loop zero left ts = err out_of_fuel
multiplication_loop (suc f) left ts =
    let more = next ts >>>= λ op rest. unary f rest >>>= λ right.
    multiplication_loop f
      (binary_op (if begins b'*' op then BinaryOpType.mult else BinaryOpType.div) left right) in
    if is_multiplication (peek ts) then more else ok (left, ts)

unfoldable pub multiplication : ℕ → Parser Node
multiplication f ts = unary f ts >>>= multiplication_loop f

unfoldable pub addition_loop : ℕ → Node → Parser Node
addition_loop zero left ts = err out_of_fuel
addition_loop (suc f) left ts =
    let more = next ts >>>= λ op rest. multiplication f rest >>>= λ right.
    addition_loop f
      (binary_op (if begins b'+' op then BinaryOpType.add else BinaryOpType.sub) left right) in
    if is_addition (peek ts) then more else ok (left, ts)

unfoldable pub addition : ℕ → Parser Node
addition f ts = multiplication f ts >>>= addition_loop f

-- The registers by their letters.
unfoldable pub register_of : Token → Result Node
register_of (c ∷ []) =
    if c == b'a'
      || c == b'f'
      || c == b'b'
      || c == b'c'
      || c == b'd'
      || c == b'e'
      || c == b'h'
      || c == b'l'
    then ok (register c)
    else err (parser_exception (codes "Unrecognized Register"))
register_of _ = err (parser_exception (codes "Unrecognized Register"))

unfoldable pub dregister_of : Token → Result Node
unfolding text_eq
dregister_of tok =
    if text_eq tok (codes "af")
    then ok (dregister b'a' b'f')
    else if text_eq tok (codes "bc")
    then ok (dregister b'b' b'c')
    else if text_eq tok (codes "de")
    then ok (dregister b'd' b'e')
    else if text_eq tok (codes "hl")
    then ok (dregister b'h' b'l')
    else if text_eq tok (codes "sp")
    then ok (dregister b's' b'p')
    else if text_eq tok (codes "pc")
    then ok (dregister b'p' b'c')
    else err (parser_exception (codes "Unrecognized DRegister"))

unfoldable pub register_ : Parser Node
unfolding register_of
register_ ts = next ts >>>= λ tok rest. register_of tok >>= λ n. ok (n, rest)

unfoldable pub dregister_ : Parser Node
unfolding dregister_of
dregister_ ts = next ts >>>= λ tok rest. dregister_of tok >>= λ n. ok (n, rest)

unfoldable pub operand : ℕ → Parser Node
operand f ts =
    if is_register (peek ts)
    then register_ ts
    else if is_dregister (peek ts)
    then dregister_ ts
    else addition f ts
