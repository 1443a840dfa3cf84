-- ===== src/Elf/Relocations.antt =====
-- src/elf.cpp: symbols that are relocatable.
use gbas.Prelude.{
  ℕ, ◌+◌, ◌*◌, ◌≡◌, ◌≢◌, refl, sym, ◌∙◌, ap, true, false, any, List, [], ◌∷◌, ◌++◌, length, Text,
  text_eq,
}
use gbas.Result.{ok, ok-injective}
use gbas.Elf.Sections.{Sym, Rel, Section, Body, strtab, symtab, rel, at, u32}
use gbas.Elf.{
  Elf, add_symbol, insert_symbol, add_string, grow_strings, push_symbol, push_relocation, relocate,
  new_symbol,
}
use gbas.Elf.Update.{
  HasBody, modify_at-Updated, grow_strings_lem, push_symbol_lem, string_count_lem, symbol_count_lem,
}

push_relocation_lem :
    (r : Rel) (other : Text) (relocations : List Rel) (s : Section)
    → s.body ≡ rel other relocations
    → push_relocation r s ≡ ok (record s { body = rel other (relocations ++ r ∷ []) })
unfolding push_relocation
push_relocation_lem r other relocations s p = rw p refl

-- The entry of a table of relocations for the symbol at an index, of the type `R_386_32`.
abbrev pub entry_for : ℕ → ℕ → Rel
entry_for idx value = record { r_offset = value; r_info = u32 (u32 idx * 256 + 1) }

-- The file `e'` is `e` with the symbol `symbol` named `name` and its relocation, where the tables
-- held `strings`, `symbols`, and `relocations` for the section `other`.
pub record IsRelocated (name other : Text) (symbol : Sym) (value : ℕ) (strings : List Text)
    (symbols : List Sym) (relocations : List Rel) (e e' : Elf) : Type 0 where
  pub symbol_names : e'.symbol_names ≡ name ∷ e.symbol_names
  pub names : HasBody e'.sections e.strtab_idx (strtab (strings ++ name ∷ []))
  pub table : HasBody e'.sections e.curr_symtab_idx (symtab (symbols ++ symbol ∷ []))
  pub relocated :
      HasBody e'.sections e.curr_rel_idx
        (rel other (relocations ++ entry_for (length symbols) value ∷ []))
  pub others :
      (j : ℕ)
      → j ≢ e.strtab_idx
      → j ≢ e.curr_symtab_idx
      → j ≢ e.curr_rel_idx
      → at e'.sections j ≡ at e.sections j

HasBody-apart :
    (ss : List Section) (i j : ℕ) {a b : Body} → HasBody ss i a → HasBody ss j b → a ≢ b → i ≢ j
HasBody-apart ss i j (s, p, q) (t, p', q') n e =
    n (sym q ∙ ap (λ x. x.body) (ok-injective (sym p ∙ ap (at ss) e ∙ p')) ∙ q')

-- Let the table of strings hold `strings`, the table of symbols `symbols`, and the section for
-- the relocations of the current one `relocations`. Then a relocatable symbol whose name is new
-- is added: its name behind the strings, its record behind the symbols, and behind the
-- relocations an entry with its value and its index in the table of symbols. The other sections
-- are as they were.
pub add_symbol-IsRelocated :
    (name other : Text) (value size type bind visibility : ℕ) (e : Elf) (strings : List Text)
    (symbols : List Sym) (relocations : List Rel)
    → any (text_eq name) e.symbol_names ≡ false
    → HasBody e.sections e.strtab_idx (strtab strings)
    → HasBody e.sections e.curr_symtab_idx (symtab symbols)
    → HasBody e.sections e.curr_rel_idx (rel other relocations)
    → (e' : Elf) × (add_symbol name value size type bind visibility true e ≡ ok e')
      × IsRelocated name other
          (new_symbol (u32 (length strings)) value size type bind visibility e)
          value
          strings
          symbols
          relocations
          e
          e'
unfolding add_symbol insert_symbol add_string relocate
add_symbol-IsRelocated name other value size type bind visibility e strings symbols relocations new
      in_names in_table in_relocations =
    let (names, h, p) = in_names in
    let (table, k, q) = in_table in
    let (relocs, l, r) = in_relocations in
    let apart =
      HasBody-apart e.sections e.strtab_idx e.curr_symtab_idx in_names in_table (λ z. cc) in
    let off_names =
      HasBody-apart e.sections e.curr_rel_idx e.strtab_idx in_relocations in_names (λ z. cc) in
    let off_table =
      HasBody-apart e.sections e.curr_rel_idx e.curr_symtab_idx in_relocations in_table (λ z. cc) in
    let (names', g, b) = grow_strings_lem name strings names p in
    let (ts, m, u) = modify_at-Updated (grow_strings name) e.sections e.strtab_idx h g in
    let symbol = new_symbol (u32 (length strings)) value size type bind visibility e in
    let k' = u.1 e.curr_symtab_idx (λ x. apart (sym x)) ∙ k in
    let (us, n, w) =
      modify_at-Updated (push_symbol symbol) ts e.curr_symtab_idx k'
        (push_symbol_lem symbol symbols table q) in
    let entry = entry_for (length symbols) value in
    let l' = w.1 e.curr_rel_idx off_table ∙ u.1 e.curr_rel_idx off_names ∙ l in
    let (vs, o, x) =
      modify_at-Updated (push_relocation entry) us e.curr_rel_idx l'
        (push_relocation_lem entry other relocations relocs r) in
    (
      record e { sections = vs; symbol_names = name ∷ e.symbol_names },
      rw (new, k, symbol_count_lem symbols table q, h, string_count_lem strings names p, m, n, o)
          refl,
      record {
        symbol_names = refl;
        names =
            (names', x.1 e.strtab_idx (λ z. off_names (sym z)) ∙ w.1 e.strtab_idx apart ∙ u.0, b);
        table = (_, x.1 e.curr_symtab_idx (λ z. off_table (sym z)) ∙ w.0, refl);
        relocated = (_, x.0, refl);
        others = λ j p q r. x.1 j r ∙ w.1 j q ∙ u.1 j p;
      },
    )
