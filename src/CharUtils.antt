-- ===== src/CharUtils.antt =====
-- include/char_utils.hpp: the classes of characters. A `char` is its byte. The bytes from 128 on,
-- which are negative where `char` is signed, lie outside every range that is tested here.
use gbas.Prelude.{ℕ, Bool, false, ◌&&◌, ◌||◌, not, [], ◌∷◌, leb, ◌==◌, all, if◌then◌else◌, Text}

unfoldable pub is_alpha : ℕ → Bool
is_alpha c = (leb b'A' c && leb c b'Z') || (leb b'a' c && leb c b'z')

unfoldable pub is_digit : ℕ → Bool
is_digit c = leb b'0' c && leb c b'9'

unfoldable pub is_alpha_numeric : ℕ → Bool
unfolding is_alpha is_digit
is_alpha_numeric c = is_alpha c || is_digit c

unfoldable pub is_number : Text → Bool
unfolding is_digit
is_number [] = false
is_number (c ∷ cs) = all is_digit (c ∷ cs)

unfoldable pub is_numeric_op : ℕ → Bool
is_numeric_op c = c == b'+' || c == b'-' || c == b'*' || c == b'/'

unfoldable pub is_maybe_section : Text → Bool
unfolding is_alpha is_alpha_numeric
is_maybe_section [] = false
is_maybe_section (c ∷ cs) =
    if not (is_alpha c) then false else all (λ d. is_alpha_numeric d || d == b'_' || d == b'.') cs
