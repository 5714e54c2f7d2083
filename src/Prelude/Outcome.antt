-- ===== src/Prelude/Outcome.antt =====
-- `Result<A, E>` of the program, with a third outcome for a panic (an index out of range).
use mathlib.Core.Path.{◌≡◌, refl}

pub data Result {ℓ κ} (E : Type ℓ) (A : Type κ) : Type (ℓ ⊔ κ) where
  panic : Result E A
  ok : A → Result E A
  err : E → Result E A

module _ {ℓ κ ι} {E : Type ℓ} {A : Type κ} where
  -- `r.map_err(f)`
  abbrev pub map_err : {F : Type ι} → (E → F) → Result E A → Result F A
  map_err f panic = panic
  map_err f (err failure) = err (f failure)
  map_err f (ok value) = ok value

  -- The operator `?` of the source is the bind.
  infixl 5 ◌>>=◌
  abbrev pub ◌>>=◌ : {B : Type ι} → Result E A → (A → Result E B) → Result E B
  panic >>= k = panic
  err failure >>= k = err failure
  ok value >>= k = k value

  pub >>=-eq-ok :
      {B : Type ι} (r : Result E A) (k : A → Result E B) {b : B}
      → (r >>= k) ≡ ok b
      → (a : A) × (r ≡ ok a) × (k a ≡ ok b)
  >>=-eq-ok panic k h = cc
  >>=-eq-ok (err failure) k h = cc
  >>=-eq-ok (ok value) k h = (value, refl, h)

-- `check?; rest`
infixl 5 ◌>>◌
abbrev pub ◌>>◌ {ℓ κ} : {E : Type ℓ} {B : Type κ} → Result E (Unit {0}) → Result E B → Result E B
check >> rest = check >>= λ _. rest
