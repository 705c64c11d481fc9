-- ===== src/Monitor/Letters.antt =====
-- The drive letters that src/device_monitor.rs finds free.
use arfw.Base.{
  ℕ, zero, suc, ◌+◌, ◌≤◌, ◌<◌, ◌≡◌, Option, none, some, List, [], ◌∷◌, ◌==◌, arith, Bool-cases, inl,
  inr, ==_iff,
}
use arfw.Disk.Api.{Win32}
use arfw.Monitor.Scan.{letters_loop, find_available_drive_letters}

-- `.first()`
abbrev pub first {ℓ} : {A : Type ℓ} → List A → Option A
first [] = none
first (x ∷ xs) = some x

-- `GetDriveTypeW` says of the letter's root that there is no such drive.
abbrev pub IsFree : (api : Win32) → api.World → ℕ → Type 0
IsFree api w letter = api.get_drive_type (letter ∷ b':' ∷ b'\\' ∷ 0 ∷ []) w ≡ 1

-- The first free letter of a range, or that it has none.
abbrev pub FirstFree : (api : Win32) → api.World → ℕ → ℕ → Option ℕ → Type 0
FirstFree api w from to none = (k : ℕ) → from ≤ k → k < to → ¬ IsFree api w k
FirstFree api w from to (some letter) =
    (from ≤ letter)
    × (letter < to)
    × IsFree api w letter
    × ((k : ℕ) → from ≤ k → k < letter → ¬ IsFree api w k)

module _ (api : Win32) (w : api.World) where
  -- A range whose first letter is taken.
  FirstFree-suc :
      (from to : ℕ) (o : Option ℕ)
      → ¬ IsFree api w from
      → FirstFree api w (from + 1) to o
      → FirstFree api w from to o
  FirstFree-suc from to none taken rest = λ k ge lt free. elim (Bool-cases (k == from)) [
    | inl e ↦ taken (let same : k ≡ from = ground arith in rw same at free)
    | inr ne ↦ rest k (ground arith) lt free
  ]
  FirstFree-suc from to (some letter) taken (ge, lt, free, least) = (
    omega arith,
    lt,
    free,
    λ k kge klt kfree. elim (Bool-cases (k == from)) [
      | inl e ↦ taken (let same : k ≡ from = ground arith in rw same at kfree)
      | inr ne ↦ least k (ground arith) klt kfree
    ],
  )

  letters_loop-FirstFree :
      (rounds letter : ℕ)
      → FirstFree api w letter (letter + rounds) (first (letters_loop api rounds letter w))
  unfolding letters_loop
  letters_loop-FirstFree zero letter = λ k ge lt. absurd (omega arith)
  letters_loop-FirstFree (suc rounds) letter =
      elim (Bool-cases (api.get_drive_type (letter ∷ b':' ∷ b'\\' ∷ 0 ∷ []) w == 1)) [
        | inl free ↦
            rw free (omega arith, omega arith, (==_iff _ 1).0 free, λ k ge lt. absurd (omega arith))
        | inr taken ↦
            let e : letter + suc rounds ≡ letter + 1 + rounds = omega arith in
            let not_free : ¬ IsFree api w letter = λ free. ground arith in
            rw (taken, e)
              (FirstFree-suc letter (letter + 1 + rounds) _ not_free
                (letters_loop-FirstFree rounds (letter + 1)))
      ]

  -- The letter that a mount takes is the first from `D` to `Z` that has no drive, and there is none exactly
  -- if all of these have one.
  pub find_available_drive_letters-FirstFree :
      FirstFree api w b'D' (b'Z' + 1) (first (find_available_drive_letters api w))
  unfolding find_available_drive_letters
  find_available_drive_letters-FirstFree = letters_loop-FirstFree 23 b'D'
