-- ===== src/Tokenizer/Lex.antt =====
-- A lexer by recursion on the characters of a line, with no state machine, no positions to index
-- by, and no token buffer that is kept across rounds: what the loop of `tokenize` is to do.
use gbas.Prelude.{ℕ, suc, ◌||◌, [], ◌∷◌, ◌++◌, ◌==◌, if◌then◌else◌, Text, codes}
use gbas.Result.{Result, ok, err, ◌>>=◌, tokenizer_exception}
use gbas.CharUtils.{is_numeric_op}
use gbas.Tokenizer.{Token, TokenList, is_word, is_symbol}

-- Between tokens, or inside a word or a string of which some has been read.
pub data Mode : Type 0 where
  gap : Mode
  word quoted : Text → Mode

abbrev pub emit : Token → Result TokenList → Result TokenList
emit tok r = r >>= λ ts. ok (tok ∷ ts)

module _ (line : Text) (n : ℕ) where
  abbrev pub invalid : Text → ℕ → Result TokenList
  invalid msg p = err (tokenizer_exception (msg ++ line) n p)

  -- `p` is the column of the first character.
  unfoldable pub lex : Mode → ℕ → Text → Result TokenList
  lex gap p [] = ok []
  lex gap p (c ∷ cs) =
      let skip = lex gap (suc p) cs in
      let in_word = lex (word (c ∷ [])) (suc p) cs in
      let in_string = lex (quoted (c ∷ [])) (suc p) cs in
      let single = emit (c ∷ []) (lex gap (suc p) cs) in
      if c == b';'
      then ok []
      else if c == b' '
      then skip
      else if is_word c
      then in_word
      else if c == b'"'
      then in_string
      else if is_symbol c
      then single
      else invalid (codes "Invalid token") p
  lex (word buf) p [] = ok (buf ∷ [])
  lex (word buf) p (c ∷ cs) =
      let over = emit buf (lex gap (suc p) cs) in
      let over_symbol = emit buf (emit (c ∷ []) (lex gap (suc p) cs)) in
      let more = lex (word (buf ++ c ∷ [])) (suc p) cs in
      if c == b' '
      then over
      else if is_numeric_op c || c == b',' || c == b')'
      then over_symbol
      else if is_word c
      then more
      else invalid (codes "Invalid token ") p
  lex (quoted buf) p [] = err (tokenizer_exception (codes "Unterminated string") n p)
  lex (quoted buf) p (c ∷ cs) =
      let over = emit (buf ++ c ∷ []) (lex gap (suc p) cs) in
      let more = lex (quoted (buf ++ c ∷ [])) (suc p) cs in if c == b'"' then over else more
