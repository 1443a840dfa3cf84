-- ===== src/Tokenizer/Reports.antt =====
-- src/tokenizer.cpp, `Tokenizer::logError`: the text that is printed before an exception is thrown.
-- How a stream prints an `int` is a parameter. No other definition uses what is printed.
use gbas.Prelude.{ℕ, zero, suc, ◌≡◌, ap, refl, [], ◌∷◌, ◌++◌, set, Text, codes}

-- The constructor `std::string(n, c)`.
abbrev repeat : ℕ → ℕ → Text
repeat zero c = []
repeat (suc n) c = c ∷ repeat n c

unfoldable pub arrow : ℕ → Text
arrow col = set (repeat (suc col) b'-') col b'^'

unfoldable pub log_error : (ℕ → Text) → Text → Text → ℕ → ℕ → Text
unfolding arrow
log_error show msg line lineno col =
    (codes "Line " ++ show lineno ++ codes ": " ++ msg ++ b'\n' ∷ [])
    ++ (line ++ b'\n' ∷ [])
    ++ (arrow col ++ b'\n' ∷ [])

-- The arrow has a dash for each column before that of the error, and ends there.
arrow_lem : (col : ℕ) → arrow col ≡ repeat col b'-' ++ b'^' ∷ []
unfolding arrow
arrow_lem zero = refl
arrow_lem (suc col) = ap (λ rest. b'-' ∷ rest) (arrow_lem col)
