-- ===== src/Main/Options.antt =====
-- src/main.cpp: the options, whatever their order.
use gbas.Prelude.{
  ℕ, ◌==◌, ◌≡◌, refl, sym, ◌∙◌, Bool, Bool-cases, inl, inr, true, false, ◌&&◌, ◌||◌, if◌then◌else◌,
  List, [], ◌∷◌, Option, none, some, any, subst, arith, ap₂,
}
use gbas.Main.{Flags, read_option, read_options}

-- A result of `getopt_long` asks for the tokens or for the tree.
abbrev pub asks_tokens : ℕ × ℕ → Bool
asks_tokens (c, index) = (c == 0 && index == 0) || c == b't'

abbrev pub asks_tree : ℕ × ℕ → Bool
asks_tree (c, index) = (c == 0 && index == 1) || c == b'p'

-- The flags behind the loop, if they are not both set.
abbrev pub settled : Bool → Bool → Option Flags
settled t p = if t && p then none else some (record { tokenize_only = t; parse_only = p })

read_option_lem :
    (c index : ℕ) (flags : Flags)
    → read_option c index flags ≡ record {
      tokenize_only = flags.tokenize_only || asks_tokens (c, index);
      parse_only = flags.parse_only || asks_tree (c, index);
    }
unfolding read_option
read_option_lem c index flags = ground arith

or-false : (b : Bool) → (b || false) ≡ b
or-false true = refl
or-false false = refl

or_assoc : (a b c : Bool) → (a || (b || c)) ≡ ((a || b) || c)
or_assoc true b c = refl
or_assoc false b c = refl

both :
    (t a x p b y : Bool)
    → ((t || a) && (p || b)) ≡ true
    → ((t || (a || x)) && (p || (b || y))) ≡ true
both t a x p b y h = ground arith

-- The loop over the options does not depend on their order: if it begins with at most one flag
-- set, it leaves the program exactly if both flags are asked for, by the options together with
-- the flags it began with, and else returns what is asked for.
pub read_options_lem :
    (os : List (ℕ × ℕ)) (flags : Flags)
    → (flags.tokenize_only && flags.parse_only) ≡ false
    → read_options os flags
      ≡ settled (flags.tokenize_only || any asks_tokens os) (flags.parse_only || any asks_tree os)
unfolding read_options
read_options_lem [] flags h = rw (or-false flags.tokenize_only, or-false flags.parse_only, h) refl
read_options_lem ((c, index) ∷ os) flags h =
    subst
      (λ next.
        (if next.tokenize_only && next.parse_only then none else read_options os next)
        ≡ settled (flags.tokenize_only || any asks_tokens ((c, index) ∷ os))
            (flags.parse_only || any asks_tree ((c, index) ∷ os)))
      (sym (read_option_lem c index flags))
      (elim (Bool-cases (
        (flags.tokenize_only || asks_tokens (c, index))
        && (flags.parse_only || asks_tree (c, index)))) [
          | inl k ↦
              let both' =
                both flags.tokenize_only (asks_tokens (c, index)) (any asks_tokens os)
                  flags.parse_only (asks_tree (c, index)) (any asks_tree os) k in
              rw (k, both') refl
          | inr k ↦ rw k (
              read_options_lem os _ k
              ∙ ap₂ settled
                  (sym (or_assoc flags.tokenize_only (asks_tokens (c, index)) (any asks_tokens os)))
                  (sym (or_assoc flags.parse_only (asks_tree (c, index)) (any asks_tree os))))
        ])
