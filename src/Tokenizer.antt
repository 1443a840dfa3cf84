-- ===== src/Tokenizer.antt =====
-- src/tokenizer.cpp, include/tokenizer.hpp: the state machine of `Tokenizer::tokenize`.
pub mod Lex
pub mod Refine
pub mod Ends
pub mod Language
pub mod Complete
pub mod Output
pub mod Lines
pub mod Reports
use gbas.Prelude.{
  ℕ, zero, suc, ◌+◌, ◌*◌, ◌≡◌, refl, Bool, true, false, ◌&&◌, ◌||◌, not, List, [], ◌∷◌, ◌++◌, leb,
  ltb, ◌==◌, if◌then◌else◌, length, get_or, any, Text, codes, text_eq,
}
use gbas.Result.{Result, ok, err, ◌>>=◌, tokenizer_exception, out_of_fuel}
use gbas.CharUtils.{is_alpha_numeric, is_numeric_op}

abbrev pub Token : Type 0
Token = Text

abbrev pub TokenList : Type 0
TokenList = List Token

abbrev pub eol : Token
eol = codes "EOL"

abbrev pub eof : Token
eof = codes "EOF"

unfoldable pub is_reserved : Token → Bool
unfolding text_eq
is_reserved tok = any (text_eq tok) (eol ∷ eof ∷ [])

pub data State : Type 0 where
  start_line start_token string_token token end_token end_line : State

-- The variables of the loop over a line.
pub record Scanner : Type 0 where
  pub state : State
  pub pos : ℕ
  pub tokbuf : Text
  pub tokens : TokenList
  pub lineno : ℕ

-- The characters of a regular token, and the tokens of one symbol.
unfoldable pub is_word : ℕ → Bool
unfolding is_alpha_numeric
is_word c = is_alpha_numeric c || c == b'.' || c == b'_' || c == b'\\'

unfoldable pub is_symbol : ℕ → Bool
unfolding is_numeric_op
is_symbol c = (c == b'(' || c == b')' || c == b',') || is_numeric_op c

abbrev pub push : ℕ → State → Scanner → Scanner
push c st s = record s { state = st; pos = suc s.pos; tokbuf = s.tokbuf ++ c ∷ [] }

abbrev pub invalid_token : Text → Text → ℕ → ℕ → Result Scanner
invalid_token msg line lineno pos = err (tokenizer_exception (msg ++ line) lineno pos)

-- One round of `while (state != State::END_LINE)`, by the case of the switch. `at_end` is
-- `pos >= line.size()` and `curr` is `line[pos]`.
unfoldable pub step_in : State → Text → Bool → ℕ → Scanner → Result Scanner
step_in start_line line at_end curr s =
    if at_end
    then ok (record s { lineno = s.lineno + 1; state = end_line })
    else if curr == b' '
    then ok (record s { pos = suc s.pos })
    else ok (record s { state = start_token })
step_in start_token line at_end curr s =
    let t : Scanner = record s { tokbuf = [] } in
    if at_end || curr == b';'
    then ok (record t { lineno = s.lineno + 1; state = end_line })
    else if curr == b' '
    then ok (record t { pos = suc s.pos })
    else if is_word curr
    then ok (record t { state = token })
    else if curr == b'"'
    then ok (push curr string_token t)
    else if is_symbol curr
    then ok (push curr end_token t)
    else invalid_token (codes "Invalid token") line s.lineno s.pos
step_in string_token line at_end curr s =
    if at_end
    then err (tokenizer_exception (codes "Unterminated string") s.lineno s.pos)
    else if curr == b'"'
    then ok (push curr end_token s)
    else ok (push curr string_token s)
step_in token line at_end curr s =
    if at_end
    then ok (record s { state = end_token })
    else if curr == b' '
    then ok (record s { pos = suc s.pos; state = end_token })
    else if is_numeric_op curr
    then ok (record s { state = end_token })
    else if curr == b',' || curr == b')'
    then ok (record s { state = end_token })
    else if is_word curr
    then ok (push curr token s)
    else invalid_token (codes "Invalid token ") line s.lineno s.pos
step_in end_token line at_end curr s =
    ok (record s { tokens = s.tokens ++ s.tokbuf ∷ []; tokbuf = []; state = start_token })
step_in end_line line at_end curr s = ok s

unfoldable pub step : Text → Scanner → Result Scanner
unfolding step_in
step line s = step_in s.state line (leb (length line) s.pos) (get_or line s.pos 0) s

abbrev pub is_end_line : State → Bool
is_end_line end_line = true
is_end_line _ = false

-- The loop, on fuel.
unfoldable pub scan : ℕ → Text → Scanner → Result Scanner
unfolding step
scan zero line s = err out_of_fuel
scan (suc f) line s = elim (is_end_line s.state) [
  | true ↦ ok s
  | false ↦ elim (step line s) [ ok t ↦ scan f line t | err e ↦ err e ]
]

abbrev pub scan_fuel : Text → ℕ
scan_fuel line = 4 * length line + 5

-- The body of the loop over the lines: its token buffer, tokens and line number.
unfoldable pub tokenize_line : Text → Scanner → Result Scanner
unfolding scan is_word is_symbol is_numeric_op
tokenize_line line s = do
  t ← scan (scan_fuel line) line (record s { state = start_line; pos = 0 })
  ok (record t { tokens = t.tokens ++ eol ∷ [] })

unfoldable pub tokenize_lines : List Text → Scanner → Result Scanner
unfolding tokenize_line
tokenize_lines [] s = ok s
tokenize_lines (line ∷ lines) s = tokenize_line line s >>= tokenize_lines lines

-- What `std::getline` reads from a stream: its lines, without their newlines.
abbrev cons_line : ℕ → List Text → List Text
cons_line c [] = (c ∷ []) ∷ []
cons_line c (line ∷ lines) = (c ∷ line) ∷ lines

unfoldable pub get_lines : Text → List Text
get_lines [] = []
get_lines (c ∷ cs) = let rest = get_lines cs in if c == b'\n' then [] ∷ rest else cons_line c rest

abbrev pub initial : Scanner
initial = record { state = start_line; pos = 0; tokbuf = []; tokens = []; lineno = 0 }

unfoldable pub tokenize : Text → Result TokenList
unfolding get_lines tokenize_lines
tokenize input = do s ← tokenize_lines (get_lines input) initial; ok (s.tokens ++ eof ∷ [])
