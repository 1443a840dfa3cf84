-- ===== src/Tokenizer/Lines.antt =====
-- The tokens of a whole input, line by line.
use gbas.Prelude.{ℕ, ◌+◌, ◌≡◌, ◌↔◌, refl, sym, ◌∙◌, ap, List, [], ◌∷◌, ◌++◌, Text}
use gbas.Result.{ok, ◌>>=◌, bind-eq-ok, ok-injective}
use gbas.Tokenizer.{TokenList, eol, eof, get_lines, tokenize}
use gbas.Tokenizer.Lex.{gap, lex}
use gbas.Tokenizer.Ends.{lex_lines, tokenize-lex}
use gbas.Tokenizer.Language.{Reads, lex-Reads}
use gbas.Tokenizer.Complete.{Reads-lex}

-- The lines read as these tokens, one list for each.
pub data AllRead : List Text → List TokenList → Type 0 where
  no_line : AllRead [] []
  one_more :
      {line : Text} {lines : List Text} {ts : TokenList} {tss : List TokenList}
      → Reads line ts
      → AllRead lines tss
      → AllRead (line ∷ lines) (ts ∷ tss)

-- The tokens of some lines, with "EOL" behind those of each.
abbrev pub end_lines : List TokenList → TokenList
end_lines [] = []
end_lines (ts ∷ tss) = ts ++ eol ∷ end_lines tss

lex_lines-AllRead :
    (lines : List Text) (n : ℕ) {ts : TokenList}
    → lex_lines n lines ≡ ok ts
    → (tss : List TokenList) × AllRead lines tss × (ts ≡ end_lines tss)
unfolding lex_lines
lex_lines-AllRead [] n h = ([], no_line, sym (ok-injective h))
lex_lines-AllRead (line ∷ lines) n h =
    let (ts, p, h1) =
      bind-eq-ok (lex line n gap 0 line)
        (λ ts. lex_lines (n + 1) lines >>= λ more. ok (ts ++ eol ∷ more)) h in
    let (more, q, e) = bind-eq-ok (lex_lines (n + 1) lines) (λ more. ok (ts ++ eol ∷ more)) h1 in
    let (tss, all, split) = lex_lines-AllRead lines (n + 1) q in
    (
      ts ∷ tss,
      one_more (lex-Reads line n gap 0 line p) all,
      sym (ok-injective e) ∙ ap (λ more. ts ++ eol ∷ more) split,
    )

AllRead-lex_lines :
    (n : ℕ) {lines : List Text} {tss : List TokenList}
    → AllRead lines tss
    → lex_lines n lines ≡ ok (end_lines tss)
unfolding lex_lines
AllRead-lex_lines n no_line = refl
AllRead-lex_lines n (one_more {line} r all) =
    rw (Reads-lex line n r 0, AllRead-lex_lines (n + 1) all) refl

-- `tokenize` returns the tokens `ts` exactly if each line of the input reads as some tokens of
-- the token language, and `ts` are those of the lines with "EOL" behind each line's, and "EOF".
pub tokenize_lem :
    (input : Text) (ts : TokenList)
    → (tokenize input ≡ ok ts)
      ↔ ((tss : List TokenList) × AllRead (get_lines input) tss × (ts ≡ end_lines tss ++ eof ∷ []))
tokenize_lem input ts = (forth, back)
  where
    forth :
        tokenize input ≡ ok ts
        → (tss : List TokenList) × AllRead (get_lines input) tss × (ts ≡ end_lines tss ++ eof ∷ [])
    forth h =
        let (before, q, e) =
          bind-eq-ok (lex_lines 0 (get_lines input)) (λ ts. ok (ts ++ eof ∷ []))
            (sym (tokenize-lex input) ∙ h) in
        let (tss, all, split) = lex_lines-AllRead (get_lines input) 0 q in
        (tss, all, sym (ok-injective e) ∙ ap (λ x. x ++ eof ∷ []) split)

    back :
        (tss : List TokenList) × AllRead (get_lines input) tss × (ts ≡ end_lines tss ++ eof ∷ [])
        → tokenize input ≡ ok ts
    back (tss, all, e) = tokenize-lex input ∙ (rw (AllRead-lex_lines 0 all) (ap ok (sym e)))
