-- ===== src/Parser/Newlines.antt =====
-- src/parser.cpp: `Parser::expectNewline`, which nothing calls.
use gbas.Prelude.{
  none, refl, subst, sym, if◌then◌else◌, ℤ, pos, negsuc, ltb, Bool, ℕ, zero, suc, ◌+◌, ◌-◌, ◌<◌,
  ◌≡◌, ◌↔◌, ◌∙◌, ap, Bool-cases, inl, inr, true, false, [], ◌∷◌, ◌++◌, Option, some, length, drop,
  eq_of_text_eq, arith,
}
use gbas.Result.{Result, ok, err, out_of_range, ok-injective}
use gbas.Tokenizer.{Token, TokenList, eol}
use gbas.Parser.Classes.{is_newline}
use gbas.Parser.Program.{expect_from, expect_newline}

-- No token is the end of a line.
abbrev pub NoNewline : TokenList → Type 0
NoNewline [] = Unit
NoNewline (tok ∷ ts) = (is_newline tok ≡ false) × NoNewline ts

newline-first : (tok : Token) (ts : TokenList) → is_newline tok ≡ true → tok ∷ ts ≡ eol ∷ ts
unfolding is_newline
newline-first tok ts k = ap (λ t. t ∷ ts) (eq_of_text_eq tok eol k)

-- The tokens before the first end of a line.
abbrev pub FirstLine : TokenList → TokenList → Type 0
FirstLine ts before = (rest : TokenList) × (ts ≡ before ++ eol ∷ rest) × NoNewline before

FirstLine-cons :
    (tok : Token) (ts before : TokenList)
    → is_newline tok ≡ false
    → FirstLine ts before
    → FirstLine (tok ∷ ts) (tok ∷ before)
FirstLine-cons tok ts before k (rest, split, none_in) = (rest, ap (◌∷◌ tok) split, (k, none_in))

-- The reading of a line and the search, which go on behind other tokens.
from_sound :
    (n i : ℕ) (ts : TokenList) {j : ℕ}
    → expect_from n i ts ≡ ok (some j)
    → (before : TokenList) × FirstLine ts before × (j ≡ i + length before) × (length before < n)
unfolding expect_from
from_sound zero i ts h = cc
from_sound (suc n) i [] h = cc
from_sound (suc n) i (tok ∷ ts) {j} h = elim (Bool-cases (is_newline tok)) [
  | inl k ↦
      let e : (i ≡ j) = some-injective (ok-injective (rw k at h)) in
      ([], (ts, newline-first tok ts k, tt), omega arith, omega arith)
  | inr k ↦
      let (before, first, e, small) = from_sound n (suc i) ts (rw k at h) in
      (tok ∷ before, FirstLine-cons tok ts before k first, omega arith, omega arith)
]
  where
    some-injective : {a b : ℕ} → some a ≡ some b → a ≡ b
    some-injective h = cc

from_complete :
    (n i : ℕ) (before rest : TokenList)
    → NoNewline before
    → length before < n
    → expect_from n i (before ++ eol ∷ rest) ≡ ok (some (i + length before))
unfolding expect_from is_newline
from_complete zero i before rest none_in small = absurd (omega arith)
from_complete (suc n) i [] rest none_in small =
    ap {B = Result (Option ℕ)} (λ k. ok (some k)) (omega arith)
from_complete (suc n) i (tok ∷ before) rest (k, none_in) small = rw k (
    from_complete n (suc i) before rest none_in (omega arith) ∙ ap (λ k. ok (some k)) (omega arith))

range_lem :
    (list : TokenList) (start max i : ℕ)
    → (expect_from (max - start) start (drop start list) ≡ ok (some i)) ↔ (
        (before : TokenList) × FirstLine (drop start list) before
        × (i ≡ start + length before)
        × (i < max))
range_lem list start max i = (forth, back)
  where
    forth :
        expect_from (max - start) start (drop start list) ≡ ok (some i)
        → (before : TokenList) × FirstLine (drop start list) before
          × (i ≡ start + length before)
          × (i < max)
    forth h =
        let (before, first, e, small) = from_sound (max - start) start (drop start list) h in
        (before, first, e, omega arith)

    back :
        (before : TokenList) × FirstLine (drop start list) before
          × (i ≡ start + length before)
          × (i < max)
        → expect_from (max - start) start (drop start list) ≡ ok (some i)
    back (before, (rest, split, none_in), e, small) =
        rw (split, e) (from_complete (max - start) start before rest none_in (omega arith))

pos-injective : {m n : ℕ} → pos m ≡ pos n → m ≡ n
pos-injective h = cc

-- The place of the first end of a line from `start` on, where it is below `max`.
abbrev pub IsNewlineAt : TokenList → ℤ → ℤ → ℕ → Type 0
IsNewlineAt list start max i =
    (s : ℕ) × (m : ℕ) × (before : TokenList) × (start ≡ pos s)
    × (max ≡ pos m)
    × FirstLine (drop s list) before
    × (i ≡ s + length before)
    × (i < m)

refused : (b : Bool) (i : ℕ) → (if b then err out_of_range else ok none) ≡ ok (some i) → ⊥
refused true i h = cc
refused false i h = cc

-- `expectNewline` returns a place exactly if `start` and `max` are not negative, the place is
-- below `max`, the token there is the first end of a line from `start` on, and it is as far
-- behind `start` as the number of tokens before it.
pub expect_newline_lem :
    (list : TokenList) (start max : ℤ) (i : ℕ)
    → (expect_newline list start max ≡ ok (some i)) ↔ IsNewlineAt list start max i
unfolding expect_newline
expect_newline_lem list (pos s) (pos m) i = (
  (λ h.
      let (before, first, e, small) = (range_lem list s m i).0 h in
      (s, m, before, refl, refl, first, e, small)),
  (λ (s', m', before, p, q, first, e, small).
      let same : (s' ≡ s) = sym (pos-injective p) in
      let bound : (m' ≡ m) = sym (pos-injective q) in
      (range_lem list s m i).1 (
        before,
        subst (λ x. FirstLine (drop x list) before) same first,
        omega (arith, same),
        omega (arith, bound),
      )),
)
expect_newline_lem list (pos s) (negsuc m) i = ((λ h. cc), (λ (_, _, _, _, q, _, _, _). cc q))
expect_newline_lem list (negsuc s) (pos m) i = ((λ h. cc), (λ (_, _, _, p, _, _, _, _). cc p))
expect_newline_lem list (negsuc s) (negsuc m) i =
    ((λ h. absurd (refused (ltb m s) i h)), (λ (_, _, _, p, _, _, _, _). cc p))
