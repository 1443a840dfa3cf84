-- ===== src/Reader/Tables.antt =====
-- src/elf_reader.cpp: the table of headers and the table of names that are read lie in what is read.
use gbas.Prelude.{
  ℕ, zero, suc, ◌-◌, ◌*◌, ◌<◌, ◌≤◌, ◌≡◌, refl, sym, ◌∙◌, ap, Bool-cases, false, inl, inr, List, [],
  ◌∷◌, ◌++◌, Option, none, some, get_elem?, get_or, true, length, length-drop, drop-drop, take,
  drop, ltb, ◌==◌, Text, arith,
}
use gbas.Result.{ok, err, bind-eq-ok, ok-injective, passed, undefined}
use gbas.Elf.Sections.{Shdr}
use gbas.Reader.{decode_shdr, decode_table, read_names, read_strtab, header_at}

pub decode_table-length :
    (n : ℕ) (buf : List ℕ) {hs : List Shdr}
    → decode_table n buf ≡ ok hs
    → (length hs ≡ n) × (40 * n ≤ length buf)
unfolding decode_table
decode_table-length zero buf h = (ap length (sym (ok-injective h)), omega arith)
decode_table-length (suc n) buf h = elim (Bool-cases (ltb (length buf) 40)) [
  | inl k ↦ cc (rw k at h)
  | inr k ↦
      let (hs, p, e) = bind-eq-ok (decode_table n (drop 40 buf)) _ (rw k at h) in
      let (l, b) = decode_table-length n (drop 40 buf) p in
      (
        ap length (sym (ok-injective e)) ∙ ap suc l,
        enough n (length buf) (length (drop 40 buf)) k (length-drop 40 buf) b,
      )
]
  where
    enough : (n a d : ℕ) → ltb a 40 ≡ false → d ≡ a - 40 → 40 * n ≤ d → 40 * suc n ≤ a
    enough n a d h e b = ground arith

-- The `i`-th of the headers in a buffer.
abbrev pub entry : List ℕ → ℕ → Shdr
entry buf i = decode_shdr (take 40 (drop (40 * i) buf))

abbrev pub Found : ℕ → List ℕ → ℕ → Shdr → Type 0
Found n buf i h = (i < n) × (h ≡ entry buf i)

Found-cons :
    (n : ℕ) (buf : List ℕ) (i : ℕ) (hs : List Shdr) {h : Shdr}
    → ((j : ℕ) → get_elem? hs j ≡ some h → Found n (drop 40 buf) j h)
    → get_elem? (decode_shdr (take 40 buf) ∷ hs) i ≡ some h
    → Found (suc n) buf i h
Found-cons n buf zero hs ih q = (omega arith, cc)
Found-cons n buf (suc i) hs ih q =
    let (b, e) = ih i q in
    (
      omega arith,
      e
          ∙ ap (λ x. decode_shdr (take 40 x))
              (drop-drop (40 * i) 40 buf ∙ ap (λ k. drop k buf) (omega arith)),
    )

pub decode_table-get :
    (n : ℕ) (buf : List ℕ) (i : ℕ) {hs : List Shdr} {h : Shdr}
    → decode_table n buf ≡ ok hs
    → get_elem? hs i ≡ some h
    → Found n buf i h
unfolding decode_table
decode_table-get zero buf i p q = cc (rw (sym (ok-injective p)) at q)
decode_table-get (suc n) buf i p q = elim (Bool-cases (ltb (length buf) 40)) [
  | inl k ↦ cc (rw k at p)
  | inr k ↦
      let (hs, r, e) = bind-eq-ok (decode_table n (drop 40 buf)) _ (rw k at p) in
      Found-cons n buf i hs (λ j. decode_table-get n (drop 40 buf) j r)
        (rw (sym (ok-injective e)) at q)
]

read_names-length :
    (n : ℕ) (curr : Text) (bytes : List ℕ) {names : List Text}
    → read_names n curr bytes ≡ ok names
    → n ≤ length bytes
unfolding read_names
read_names-length zero curr bytes h = omega arith
read_names-length (suc n) curr [] h = cc
read_names-length (suc n) curr (c ∷ cs) h = elim (Bool-cases (c == 0)) [
  | inl k ↦
      let (names, p, e) = bind-eq-ok (read_names n [] cs) _ (rw k at h) in
      omega (arith, read_names-length n [] cs p)
  | inr k ↦ omega (arith, read_names-length n (curr ++ c ∷ []) cs (rw k at h))
]

pub read_strtab-length :
    (bytes : List ℕ) (n : ℕ) {names : List Text}
    → read_strtab bytes n ≡ ok names
    → suc n ≤ length bytes
unfolding read_strtab
read_strtab-length [] n h = cc
read_strtab-length (c ∷ cs) n h =
    omega (arith, read_names-length n [] cs ((passed (c == 0) (read_names n [] cs) _ h).1))

pub read_strtab-null :
    (bytes : List ℕ) (n : ℕ) {names : List Text}
    → read_strtab bytes n ≡ ok names
    → (get_or bytes 0 1 == 0) ≡ true
unfolding read_strtab
read_strtab-null [] n h = cc
read_strtab-null (c ∷ cs) n h = (passed (c == 0) (read_names n [] cs) _ h).0

pub header_at-ok :
    (shtab : List Shdr) (o : Option ℕ) {h : Shdr}
    → header_at shtab o ≡ ok h
    → (i : ℕ) × (o ≡ some i) × (get_elem? shtab i ≡ some h)
unfolding header_at
header_at-ok shtab none p = cc
header_at-ok shtab (some i) p = (i, refl, go (get_elem? shtab i) p)
  where
    go :
        (o : Option Shdr) {h : Shdr}
        → elim o [ none ↦ err undefined | some h ↦ ok h ] ≡ ok h
        → o ≡ some h
    go none p = cc
    go (some h) p = cc
