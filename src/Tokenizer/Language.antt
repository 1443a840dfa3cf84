-- ===== src/Tokenizer/Language.antt =====
-- The token language, as a relation between a line and the tokens that it reads as.
use gbas.Prelude.{
  ℕ, suc, ◌≡◌, ◌≢◌, inl, inr, refl, sym, ◌∙◌, ap, Bool, Bool-cases, ==_iff, true, not, ◌||◌, [],
  ◌∷◌, ◌++◌, ◌==◌, all, Text, append_assoc, append-nil,
}
use gbas.Result.{Result, ok, err, ok-injective}
use gbas.CharUtils.{is_numeric_op}
use gbas.Tokenizer.{Token, TokenList, is_word, is_symbol}
use gbas.Tokenizer.Lex.{Mode, gap, word, quoted, emit, lex}
use gbas.Tokenizer.Refine.{symbol-excludes}

abbrev pub IsWord : Token → Type 0
IsWord tok = (tok ≢ []) × (all is_word tok ≡ true)

-- A quote, characters other than a quote, and a quote. No escapes.
abbrev pub is_plain : ℕ → Bool
is_plain c = not (c == b'"')

abbrev pub IsString : Token → Type 0
IsString tok = (body : Text) × (all is_plain body ≡ true) × (tok ≡ b'"' ∷ (body ++ b'"' ∷ []))

-- What may stand behind a word.
abbrev pub Delimited : Text → Type 0
Delimited [] = Unit
Delimited (c ∷ _) = (c == b' ' || (is_numeric_op c || c == b',' || c == b')')) ≡ true

pub data Reads : Text → TokenList → Type 0 where
  done : Reads [] []
  skip_comment : {c : ℕ} {cs : Text} → c ≡ b';' → Reads (c ∷ cs) []
  skip_space : {c : ℕ} {cs : Text} {ts : TokenList} → c ≡ b' ' → Reads cs ts → Reads (c ∷ cs) ts
  take_symbol :
      {c : ℕ} {cs : Text} {ts : TokenList}
      → is_symbol c ≡ true
      → Reads cs ts
      → Reads (c ∷ cs) ((c ∷ []) ∷ ts)
  take_string :
      {text : Text} {tok : Token} {cs : Text} {ts : TokenList}
      → IsString tok
      → text ≡ tok ++ cs
      → Reads cs ts
      → Reads text (tok ∷ ts)
  take_word :
      {text : Text} {tok : Token} {cs : Text} {ts : TokenList}
      → IsWord tok
      → text ≡ tok ++ cs
      → Delimited cs
      → Reads cs ts
      → Reads text (tok ∷ ts)

-- What each mode has still to read.
abbrev ReadsFrom : Mode → Text → TokenList → Type 0
ReadsFrom gap cs ts = Reads cs ts
ReadsFrom (word buf) cs ts =
    (w : Text) × (rest : Text) × (more : TokenList) × (cs ≡ w ++ rest)
    × (all is_word w ≡ true)
    × Delimited rest
    × (ts ≡ (buf ++ w) ∷ more)
    × Reads rest more
ReadsFrom (quoted buf) cs ts =
    (body : Text) × (rest : Text) × (more : TokenList) × (cs ≡ body ++ b'"' ∷ rest)
    × (all is_plain body ≡ true)
    × (ts ≡ (buf ++ (body ++ b'"' ∷ [])) ∷ more)
    × Reads rest more

-- A word or a string that some mode has finished is the first token.
word-Reads :
    (c : ℕ) (cs : Text) {ts : TokenList}
    → is_word c ≡ true
    → ReadsFrom (word (c ∷ [])) cs ts
    → Reads (c ∷ cs) ts
word-Reads c cs h (w, rest, more, split, plain, stop, e, r) =
    rw e (take_word (cc, rw h plain) (ap (◌∷◌ c) split) stop r)

string-Reads :
    (c : ℕ) (cs : Text) {ts : TokenList}
    → c ≡ b'"'
    → ReadsFrom (quoted (c ∷ [])) cs ts
    → Reads (c ∷ cs) ts
string-Reads c cs k (body, rest, more, split, plain, e, r) = rw e (
    take_string (body, plain, ap (λ d. d ∷ (body ++ b'"' ∷ [])) k)
      (ap (◌∷◌ c) (split ∙ sym (append_assoc body _ rest))) r)

emit-eq-ok :
    (tok : Token) (q : Result TokenList) {ts : TokenList}
    → emit tok q ≡ ok ts
    → (more : TokenList) × (q ≡ ok more) × (ts ≡ tok ∷ more)
emit-eq-ok tok (ok more) h = (more, refl, cc)
emit-eq-ok tok (err _) h = cc

pub lex-Reads :
    (line : Text) (n : ℕ) (m : Mode) (p : ℕ) (cs : Text) {ts : TokenList}
    → lex line n m p cs ≡ ok ts
    → ReadsFrom m cs ts
unfolding lex
lex-Reads line n gap p [] h = rw (← ok-injective h) done
lex-Reads line n gap p (c ∷ cs) h = elim (Bool-cases (c == b';')) [
  | inl k ↦ rw (← ok-injective (rw k at h)) (skip_comment ((==_iff c _).0 k))
  | inr comment ↦ elim (Bool-cases (c == b' ')) [
    | inl k ↦ skip_space ((==_iff c _).0 k) (lex-Reads line n gap (suc p) cs (rw (comment, k) at h))
    | inr space ↦ elim (Bool-cases (is_word c)) [
      | inl k ↦
          word-Reads c cs k
            (lex-Reads line n (word (c ∷ [])) (suc p) cs (rw (comment, space, k) at h))
      | inr other ↦ elim (Bool-cases (c == b'"')) [
        | inl k ↦
            string-Reads c cs ((==_iff c _).0 k)
              (lex-Reads line n (quoted (c ∷ [])) (suc p) cs (rw (comment, space, other, k) at h))
        | inr plain ↦ elim (Bool-cases (is_symbol c)) [
          | inl k ↦
              let (more, q, e) =
                emit-eq-ok (c ∷ []) (lex line n gap (suc p) cs)
                  (rw (comment, space, other, plain, k) at h) in
              rw e (take_symbol k (lex-Reads line n gap (suc p) cs q))
          | inr k ↦ let e = rw (comment, space, other, plain, k) at h in cc e
        ]
      ]
    ]
  ]
]
lex-Reads line n (word buf) p [] h = (
  [],
  [],
  [],
  refl,
  refl,
  tt,
  sym (ok-injective h) ∙ ap (λ b. b ∷ []) (sym (append-nil buf)),
  done,
)
lex-Reads line n (word buf) p (c ∷ cs) h = elim (Bool-cases (c == b' ')) [
  | inl k ↦
      let (more, q, e) = emit-eq-ok buf (lex line n gap (suc p) cs) (rw k at h) in
      (
        [],
        c ∷ cs,
        more,
        refl,
        refl,
        rw k,
        rw append-nil e,
        skip_space ((==_iff c _).0 k) (lex-Reads line n gap (suc p) cs q),
      )
  | inr space ↦ elim (Bool-cases (is_numeric_op c || c == b',' || c == b')')) [
    | inl k ↦
        let (tail, q, e) =
          emit-eq-ok buf (emit (c ∷ []) (lex line n gap (suc p) cs)) (rw (space, k) at h) in
        let (more, q', e') = emit-eq-ok (c ∷ []) (lex line n gap (suc p) cs) q in
        (
          [],
          c ∷ cs,
          tail,
          refl,
          refl,
          rw (space, k),
          rw append-nil e,
          rw e' (take_symbol (symbol-excludes c k).4 (lex-Reads line n gap (suc p) cs q')),
        )
    | inr other ↦ elim (Bool-cases (is_word c)) [
      | inl k ↦
          let (w, rest, more, split, words, stop, e, r) =
            lex-Reads line n (word (buf ++ c ∷ [])) (suc p) cs (rw (space, other, k) at h) in
          (c ∷ w, rest, more, ap (◌∷◌ c) split, rw k words, stop, rw append_assoc at e, r)
      | inr k ↦ let e = rw (space, other, k) at h in cc e
    ]
  ]
]
lex-Reads line n (quoted buf) p [] h = cc
lex-Reads line n (quoted buf) p (c ∷ cs) h = elim (Bool-cases (c == b'"')) [
  | inl k ↦
      let (more, q, e) = emit-eq-ok (buf ++ c ∷ []) (lex line n gap (suc p) cs) (rw k at h) in
      (
        [],
        cs,
        more,
        ap (λ d. d ∷ cs) ((==_iff c _).0 k),
        refl,
        e ∙ ap (λ d. (buf ++ d ∷ []) ∷ more) ((==_iff c _).0 k),
        lex-Reads line n gap (suc p) cs q,
      )
  | inr k ↦
      let (body, rest, more, split, plain, e, r) =
        lex-Reads line n (quoted (buf ++ c ∷ [])) (suc p) cs (rw k at h) in
      (c ∷ body, rest, more, ap (◌∷◌ c) split, rw k plain, rw append_assoc at e, r)
]
