-- ===== src/Tokenizer/Complete.antt =====
-- Every text of the token language is read as its tokens.
use gbas.Prelude.{
  ℕ, suc, ◌≡◌, inl, inr, refl, sym, ◌∙◌, ap, Bool-cases, true, false, ◌||◌, and-cases, [], ◌∷◌,
  ◌++◌, ◌==◌, all, Text, arith, append_assoc, append-nil,
}
use gbas.Result.{ok, ok-injective}
use gbas.CharUtils.{is_numeric_op}
use gbas.Tokenizer.{TokenList, is_word, is_symbol}
use gbas.Tokenizer.Lex.{gap, word, quoted, emit, lex}
use gbas.Tokenizer.Refine.{is_word-excludes, lex-symbol}
use gbas.Tokenizer.Language.{
  is_plain, Delimited, Reads, done, skip_comment, skip_space, take_symbol, take_string, take_word,
}

single-excludes :
    (c : ℕ)
    → is_symbol c ≡ true
    → ((c == b';') ≡ false) × ((c == b' ') ≡ false) × (is_word c ≡ false) × ((c == b'"') ≡ false)
unfolding is_symbol is_word is_numeric_op
single-excludes c h = ground arith

is_word-no_comment : (c : ℕ) → is_word c ≡ true → (c == b';') ≡ false
unfolding is_word
is_word-no_comment c h = ground arith

quote-excludes : is_word b'"' ≡ false
unfolding is_word
quote-excludes = refl

-- A word ends where what follows delimits it.
word_end :
    (line : Text) (n : ℕ) (rest : Text) {ts : TokenList}
    → ((p : ℕ) → lex line n gap p rest ≡ ok ts)
    → (buf : Text) (p : ℕ) → Delimited rest
    → lex line n (word buf) p rest ≡ ok (buf ∷ ts)
unfolding lex
word_end line n [] after buf p d = ap (λ ts. ok (buf ∷ ts)) (ok-injective (after p))
word_end line n (c ∷ cs) after buf p d = elim (Bool-cases (c == b' ')) [
  | inl k ↦
      let comment : (c == b';') ≡ false = ground arith in
      rw k (ap (emit buf) (rw (comment, k) at (after p)))
  | inr space ↦
      let ends : (is_numeric_op c || c == b',' || c == b')') ≡ true = rw space at d in
      rw (space, ends) (ap (emit buf) (sym (lex-symbol line n p c cs ends) ∙ after p))
]

module _ (line : Text) (n : ℕ) (rest : Text) {ts : TokenList}
    (after : (p : ℕ) → lex line n gap p rest ≡ ok ts) where
  lex-word_run :
      (w buf : Text) (p : ℕ)
      → all is_word w ≡ true
      → Delimited rest
      → lex line n (word buf) p (w ++ rest) ≡ ok ((buf ++ w) ∷ ts)
  unfolding lex
  lex-word_run [] buf p h d = rw append-nil (word_end line n rest after buf p d)
  lex-word_run (c ∷ w) buf p h d =
      let (k, more) = and-cases h in
      let (space, other) = is_word-excludes c k in
      rw (space, other, k) (rw append_assoc at (lex-word_run w (buf ++ c ∷ []) (suc p) more d))

  lex-string_run :
      (body buf : Text) (p : ℕ)
      → all is_plain body ≡ true
      → lex line n (quoted buf) p (body ++ b'"' ∷ rest) ≡ ok ((buf ++ (body ++ b'"' ∷ [])) ∷ ts)
  unfolding lex
  lex-string_run [] buf p h = rw (after (suc p))
  lex-string_run (c ∷ body) buf p h =
      let (k, more) = and-cases h in
      let plain : (c == b'"') ≡ false = ground arith in
      rw plain (rw append_assoc at (lex-string_run body (buf ++ c ∷ []) (suc p) more))

module _ (line : Text) (n : ℕ) where
  pub Reads-lex : {cs : Text} {ts : TokenList} → Reads cs ts → (p : ℕ) → lex line n gap p cs ≡ ok ts
  unfolding lex
  Reads-lex done p = refl
  Reads-lex (skip_comment h) p = rw h
  Reads-lex (skip_space h r) p = rw h (Reads-lex r (suc p))
  Reads-lex (take_symbol {c} h r) p =
      let (comment, space, other, plain) = single-excludes c h in
      rw (comment, space, other, plain, h) (rw (Reads-lex r (suc p)))
  Reads-lex (take_string {cs} (body, plain, e) split r) p =
      rw (split, e)
        (rw (quote-excludes, append_assoc)
          (lex-string_run line n cs (Reads-lex r) body (b'"' ∷ []) (suc p) plain))
  Reads-lex (take_word {tok = c ∷ w} {cs} h split d r) p =
      let (k, more) = and-cases h.1 in
      rw split (
        rw (is_word-no_comment c k, (is_word-excludes c k).0, k)
          (lex-word_run line n cs (Reads-lex r) w (c ∷ []) (suc p) more d))
  Reads-lex (take_word {tok = []} h split d r) p = absurd (h.0 refl)
