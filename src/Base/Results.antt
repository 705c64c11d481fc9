-- ===== src/Base/Results.antt =====
-- `Result`, and computations on a state of the outside world that may fail.
use mathlib.Core.Path.{◌≡◌, refl}
use mathlib.Core.Logic.{◌⊎◌, inl, inr}

pub data Result {ℓ κ} (E : Type κ) (A : Type ℓ) : Type (ℓ ⊔ κ) where
  ok : A → Result E A
  err : E → Result E A

pub Result-cases {ℓ κ} :
    {E : Type κ} {A : Type ℓ} (r : Result E A) → ((e : E) × (r ≡ err e)) ⊎ ((a : A) × (r ≡ ok a))
Result-cases (ok a) = inr (a, refl)
Result-cases (err e) = inl (e, refl)

-- The value of a fallible step, with the state that it leaves.
abbrev pub Io : Type 0 → Type 0 → Type 0 → Type 0
Io W E A = W → Result E A × W

abbrev pub and_then : {W E A B : Type 0} → Result E A × W → (A → Io W E B) → Result E B × W
and_then (ok a, w) f = f a w
and_then (err e, w) f = (err e, w)

-- `?` on a step: an error ends the computation.
infixl 5 ◌>>=◌ ◌>>◌
abbrev pub ◌>>=◌ : {W E A B : Type 0} → Io W E A → (A → Io W E B) → Io W E B
◌>>=◌ m f w = and_then (m w) f

abbrev pub ◌>>◌ : {W E A B : Type 0} → Io W E A → Io W E B → Io W E B
◌>>◌ m k w = and_then (m w) (λ _. k)

abbrev pub pure : {W E A : Type 0} → A → Io W E A
pure a w = (ok a, w)

abbrev pub throw : {W E A : Type 0} → E → Io W E A
throw e w = (err e, w)

-- `map_err`, and the `From` conversion that `?` makes.
abbrev pub map_err_result : {E F A : Type 0} → (E → F) → Result E A → Result F A
map_err_result f (ok a) = ok a
map_err_result f (err e) = err (f e)

abbrev pub map_err : {W E F A : Type 0} → (E → F) → Io W E A → Io W F A
map_err f m w = let (r, w') = m w in (map_err_result f r, w')
