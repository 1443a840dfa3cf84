-- ===== src/Words.antt =====
-- include/swap_helpers.hpp, and how a number lies in memory: the machine is little-endian.
use gbas.Prelude.{ℕ, ◌+◌, ◌*◌, ◌/◌, ◌%◌, ◌<◌, ◌≡◌, List, [], ◌∷◌, get_or, arith}

abbrev pub le16 : ℕ → List ℕ
le16 n = n % 256 ∷ n / 256 % 256 ∷ []

abbrev pub le32 : ℕ → List ℕ
le32 n = n % 256 ∷ n / 256 % 256 ∷ n / 65536 % 256 ∷ n / 16777216 % 256 ∷ []

-- The numbers at a place in memory.
abbrev pub word16 : List ℕ → ℕ → ℕ
word16 bytes i = get_or bytes i 0 + 256 * get_or bytes (1 + i) 0

abbrev pub word32 : List ℕ → ℕ → ℕ
word32 bytes i = word16 bytes i + 65536 * word16 bytes (2 + i)

-- `__builtin_bswap16` and `__builtin_bswap32`.
unfoldable pub swap16 : ℕ → ℕ
swap16 n = n / 256 % 256 + 256 * (n % 256)

unfoldable pub swap32 : ℕ → ℕ
swap32 n =
    n / 16777216 % 256 + 256 * (n / 65536 % 256) + 65536 * (n / 256 % 256) + 16777216 * (n % 256)

pub swap16-swap16 : (n : ℕ) → n < 65536 → swap16 (swap16 n) ≡ n
unfolding swap16
swap16-swap16 n h = omega arith

pub swap32-swap32 : (n : ℕ) → n < 4294967296 → swap32 (swap32 n) ≡ n
unfolding swap32
swap32-swap32 n h = omega arith

pub word16-le16 : (n : ℕ) → n < 65536 → n % 256 + 256 * (n / 256 % 256) ≡ n
word16-le16 n h = omega arith

pub word32-le32 :
    (n : ℕ)
    → n < 4294967296
    → n % 256 + 256 * (n / 256 % 256) + 65536 * (n / 65536 % 256 + 256 * (n / 16777216 % 256)) ≡ n
word32-le32 n h = omega arith

-- A swapped number lies in memory with its high byte first.
pub le32-swap32 :
    (n : ℕ) → le32 (swap32 n) ≡ n / 16777216 % 256 ∷ n / 65536 % 256 ∷ n / 256 % 256 ∷ n % 256 ∷ []
unfolding swap32
le32-swap32 n = cc (b0, b1, b2, b3)
  where
    b0 : swap32 n % 256 ≡ n / 16777216 % 256
    b0 = omega arith

    b1 : swap32 n / 256 % 256 ≡ n / 65536 % 256
    b1 = omega arith

    b2 : swap32 n / 65536 % 256 ≡ n / 256 % 256
    b2 = omega arith

    b3 : swap32 n / 16777216 % 256 ≡ n % 256
    b3 = omega arith
