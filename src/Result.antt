-- ===== src/Result.antt =====
-- The outcome of a call: a value, or what it throws.
use gbas.Prelude.{ℕ, ◌≡◌, refl, Bool, true, false, if◌then◌else◌, Text}

-- One constructor for each exception class of the program, and the faults of what it calls.
-- `unexpected` is the error of a `tl::expected`.
-- `undefined` is behaviour that the C++ standard leaves undefined; `out_of_fuel` has no counterpart
-- in the program.
pub data Error : Type 0 where
  tokenizer_exception : Text → ℕ → ℕ → Error
  parser_exception : Text → Error
  assembler_exception : Text → Error
  elf_exception : Text → Error
  unexpected : Text → Error
  out_of_range bad_cast undefined out_of_fuel : Error

pub data Result {ℓ} (Value : Type ℓ) : Type ℓ where
  err : Error → Result Value
  ok : Value → Result Value

pub ok-injective {ℓ} : {A : Type ℓ} {a b : A} → ok a ≡ ok b → a ≡ b
ok-injective h = cc

-- What follows a call is skipped when the call throws.
module _ {ℓ κ} {A : Type ℓ} {B : Type κ} where
  infixl 5 ◌>>=◌
  abbrev pub ◌>>=◌ : Result A → (A → Result B) → Result B
  err thrown >>= rest = err thrown
  ok value >>= rest = rest value

  pub bind-eq-ok :
      (first : Result A) (rest : A → Result B) {last : B}
      → (first >>= rest) ≡ ok last
      → (value : A) × (first ≡ ok value) × (rest value ≡ ok last)
  bind-eq-ok (err e) f h = cc
  bind-eq-ok (ok a) f h = (a, refl, h)

-- What holds of the exception that is thrown, or else of the value that is returned.
pub data Post {ℓ κ} {Value : Type ℓ} (P : Value → Type κ) (E : Error → Type 0)
    : Result Value → Type (ℓ ⊔ κ) where
  raises : {thrown : Error} → E thrown → Post P E (err thrown)
  returns : {value : Value} → P value → Post P E (ok value)

module _ {ℓ κ} {A : Type ℓ} {P : A → Type κ} {E : Error → Type 0} where
  pub Post-ok : {a : A} → Post P E (ok a) → P a
  Post-ok (returns h) = h

  pub Post-err : {e : Error} → Post P E (err e) → E e
  Post-err (raises h) = h

  pub Post-bind {ℓ' κ'} :
      {Next : Type ℓ'} {Q : Next → Type κ'} {first : Result A} {rest : A → Result Next}
      → Post P E first
      → ((value : A) → P value → Post Q E (rest value))
      → Post Q E (first >>= rest)
  Post-bind (raises e) next = raises e
  Post-bind (returns p) next = next _ p

-- What follows a test that throws if it fails.
pub passed {ℓ} :
    {A : Type ℓ} (test : Bool) (rest : Result A) (thrown : Error) {value : A}
    → (if test then rest else err thrown) ≡ ok value
    → (test ≡ true) × (rest ≡ ok value)
passed true rest thrown h = (refl, h)
passed false rest thrown h = cc
