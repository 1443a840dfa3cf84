-- ===== src/Elf/Update.antt =====
-- src/elf.cpp: what the operations put into the sections of a file, and that they succeed.
use gbas.Prelude.{
  ℕ, zero, suc, ◌<◌, ◌≡◌, ◌≢◌, refl, sym, ◌∙◌, ap, false, List, [], ◌∷◌, ◌++◌, length, any,
  Bool-cases, inl, inr, lt→ltb, Text, codes, text_eq, eq_of_text_eq, arith,
}
use gbas.Result.{Result, ok, ◌>>=◌, ok-injective}
use gbas.Elf.Sections.{
  Body, Sym, Section, progbits, strtab, symtab, at, modify_at, find_section, push_string, u32,
}
use gbas.Elf.{
  Elf, set_section, add_progbits, push_bytes, add_symbol, insert_symbol, add_string, grow_strings,
  string_count, symbol_count, push_symbol, relocate, new_symbol,
}

-- The sections `ts` are `ss`, but for `t` at `i`.
abbrev pub Updated : List Section → ℕ → Section → List Section → Type 0
Updated ss i t ts = (at ts i ≡ ok t) × ((j : ℕ) → j ≢ i → at ts j ≡ at ss j)

at-lt : (ss : List Section) (i : ℕ) {s : Section} → at ss i ≡ ok s → i < length ss
unfolding at
at-lt [] i h = cc
at-lt (_ ∷ ss) zero h = omega arith
at-lt (_ ∷ ss) (suc i) h = omega (arith, at-lt ss i h)

pub after_head : (s t : Section) (ss : List Section) (j : ℕ) → j ≢ 0 → at (t ∷ ss) j ≡ at (s ∷ ss) j
unfolding at
after_head s t ss zero n = absurd (n refl)
after_head s t ss (suc j) n = refl

pub behind_head :
    (s : Section) (ss ts : List Section) (i : ℕ)
    → ((j : ℕ) → j ≢ i → at ts j ≡ at ss j)
    → (j : ℕ) → j ≢ suc i
    → at (s ∷ ts) j ≡ at (s ∷ ss) j
unfolding at
behind_head s ss ts i there zero n = refl
behind_head s ss ts i there (suc j) n = there j (λ e. n (ap suc e))

pub modify_at-Updated :
    (f : Section → Result Section) (ss : List Section) (i : ℕ) {s t : Section}
    → at ss i ≡ ok s
    → f s ≡ ok t
    → (ts : List Section) × (modify_at f ss i ≡ ok ts) × Updated ss i t ts
unfolding modify_at at
modify_at-Updated f [] i h k = cc
modify_at-Updated f (x ∷ ss) zero {t = t} h k =
    (t ∷ ss, rw (ok-injective h, k) refl, (refl, after_head x t ss))
modify_at-Updated f (s ∷ ss) (suc i) h k =
    let (ts, p, (here, there)) = modify_at-Updated f ss i h k in
    (s ∷ ts, rw p refl, (here, behind_head s ss ts i there))

find_section-name :
    (ss : List Section) (name : Text) {s : Section}
    → at ss (find_section ss name) ≡ ok s
    → s.name ≡ name
unfolding at find_section
find_section-name [] name h = cc
find_section-name (s ∷ ss) name h = elim (Bool-cases (text_eq s.name name)) [
  | inl k ↦ sym (ap (λ x. x.name) (ok-injective (rw k at h))) ∙ eq_of_text_eq s.name name k
  | inr k ↦ find_section-name ss name (rw k at h)
]

pub push_bytes_lem :
    (bytes old : List ℕ) (s : Section)
    → s.body ≡ progbits old
    → push_bytes bytes s ≡ ok (record s { body = progbits (old ++ bytes) })
unfolding push_bytes
push_bytes_lem bytes old s p = rw p refl

-- Let a file have fewer than 2 ^ 32 sections, and its section found under `name` hold the bytes
-- `old`. Then selecting `name` and adding bytes succeeds: that section, which has the name,
-- holds `old` and the bytes, and the sections at other indices are as they were.
pub add_progbits-set_section :
    (name : Text) (bytes old : List ℕ) (e : Elf) (s : Section)
    → length e.sections < 4294967296
    → at e.sections (find_section e.sections name) ≡ ok s
    → s.body ≡ progbits old
    → (e' : Elf) × ((set_section name e >>= add_progbits bytes) ≡ ok e')
      × (s.name ≡ name)
      × Updated e.sections
          (find_section e.sections name)
          (record s { body = progbits (old ++ bytes) })
          e'.sections
unfolding set_section add_progbits
add_progbits-set_section name bytes old e s small h p =
    let i = find_section e.sections name in
    let below : (find_section e.sections name < length e.sections) = at-lt e.sections i h in
    let wraps : (u32 (find_section e.sections name) ≡ find_section e.sections name) = omega arith in
    let (ts, q, r) =
      modify_at-Updated (push_bytes bytes) e.sections i h (push_bytes_lem bytes old s p) in
    let e1 : Elf = record e {
      curr_section = u32 i;
      curr_rel_idx = u32 (find_section e.sections (codes "rel" ++ name));
    } in
    (
      record e1 { sections = ts },
      rw (lt→ltb i (length e.sections) below, wraps, q) refl,
      find_section-name e.sections name h,
      r,
    )

pub grow_strings_lem :
    (str : Text) (strings : List Text) (s : Section)
    → s.body ≡ strtab strings
    → (t : Section) × (grow_strings str s ≡ ok t) × (t.body ≡ strtab (strings ++ str ∷ []))
unfolding push_string
grow_strings_lem str strings s p = rw p (_, refl, refl)

pub push_symbol_lem :
    (sym : Sym) (symbols : List Sym) (s : Section)
    → s.body ≡ symtab symbols
    → push_symbol sym s ≡ ok (record s { body = symtab (symbols ++ sym ∷ []) })
unfolding push_symbol
push_symbol_lem sym symbols s p = rw p refl

pub string_count_lem :
    (strings : List Text) (s : Section)
    → s.body ≡ strtab strings
    → string_count s ≡ ok (length strings)
unfolding string_count
string_count_lem strings s p = rw p refl

pub symbol_count_lem :
    (symbols : List Sym) (s : Section)
    → s.body ≡ symtab symbols
    → symbol_count s ≡ ok (length symbols)
unfolding symbol_count
symbol_count_lem symbols s p = rw p refl

abbrev pub HasBody : List Section → ℕ → Body → Type 0
HasBody ss i b = (s : Section) × (at ss i ≡ ok s) × (s.body ≡ b)

-- The file `e'` is `e` with the symbol `entry` named `name`, where the tables held `strings` and
-- `symbols`.
pub record IsAdded (name : Text) (entry : Sym) (strings : List Text) (symbols : List Sym)
    (e e' : Elf) : Type 0 where
  pub symbol_names : e'.symbol_names ≡ name ∷ e.symbol_names
  pub names : HasBody e'.sections e.strtab_idx (strtab (strings ++ name ∷ []))
  pub table : HasBody e'.sections e.curr_symtab_idx (symtab (symbols ++ entry ∷ []))
  pub current : e'.curr_section ≡ e.curr_section
  pub header : e'.header ≡ e.header
  pub others :
      (j : ℕ) → j ≢ e.strtab_idx → j ≢ e.curr_symtab_idx → at e'.sections j ≡ at e.sections j

-- Let the table of strings hold `strings` and the table of symbols, another section, hold
-- `symbols`. Then a symbol that is not relocatable and whose name is new is added: its name
-- behind the strings, and its record behind the symbols, with the number of `strings` in place
-- of its name. The other sections and the current one are as they were.
pub add_symbol_lem :
    (name : Text) (value size type bind visibility : ℕ) (e : Elf) (names table : Section)
    (strings : List Text) (symbols : List Sym)
    → any (text_eq name) e.symbol_names ≡ false
    → e.strtab_idx ≢ e.curr_symtab_idx
    → at e.sections e.strtab_idx ≡ ok names
    → names.body ≡ strtab strings
    → at e.sections e.curr_symtab_idx ≡ ok table
    → table.body ≡ symtab symbols
    → (e' : Elf) × (add_symbol name value size type bind visibility false e ≡ ok e')
      × IsAdded name
          (new_symbol (u32 (length strings)) value size type bind visibility e)
          strings
          symbols
          e
          e'
unfolding add_symbol insert_symbol add_string relocate
add_symbol_lem name value size type bind visibility e names table strings symbols new apart h p k
      q =
    let (names', g, b) = grow_strings_lem name strings names p in
    let (ts, m, u) = modify_at-Updated (grow_strings name) e.sections e.strtab_idx h g in
    let entry = new_symbol (u32 (length strings)) value size type bind visibility e in
    let k' = u.1 e.curr_symtab_idx (λ x. apart (sym x)) ∙ k in
    let (us, n, w) =
      modify_at-Updated (push_symbol entry) ts e.curr_symtab_idx k'
        (push_symbol_lem entry symbols table q) in
    (
      record e { sections = us; symbol_names = name ∷ e.symbol_names },
      rw (new, k, symbol_count_lem symbols table q, h, string_count_lem strings names p, m, n) refl,
      record {
        symbol_names = refl;
        names = (names', w.1 e.strtab_idx apart ∙ u.0, b);
        table = (_, w.0, refl);
        current = refl;
        header = refl;
        others = λ j p q. w.1 j q ∙ u.1 j p;
      },
    )
