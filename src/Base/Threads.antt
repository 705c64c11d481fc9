-- ===== src/Base/Threads.antt =====
-- The places where the threads of a model stand, by their numbers.
use Prim.Native.Nat.{ℕ}
use mathlib.Core.Path.{◌≡◌}
use mathlib.Core.Logic.{inl, inr}
use mathlib.Core.Bool.{true, false}
use arfw.Base.Tests.{◌==◌, ==_iff, Bool-cases}

abbrev pub set_at : {A : Type 0} → (ℕ → A) → ℕ → A → ℕ → A
set_at pc i p j = elim (j == i) [ true ↦ p | false ↦ pc j ]

-- What holds of the new place, and of every other thread's, holds of all.
pub set_at-all :
    {A : Type 0} (P : ℕ → A → Type 0) (pc : ℕ → A) (i : ℕ) (p : A)
    → P i p
    → ((j : ℕ) → (j == i) ≡ false → P j (pc j))
    → (j : ℕ) → P j (set_at pc i p j)
set_at-all P pc i p new old j = elim (Bool-cases (j == i)) [
  | inl same ↦ rw (same, set_at) (rw ((==_iff j i).0 same) new)
  | inr other ↦ rw (other, set_at) (old j other)
]
