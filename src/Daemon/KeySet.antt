-- ===== src/Daemon/KeySet.antt =====
-- The `HashSet<(u32, u32)>` of src/main.rs, as a list.
use arfw.Base.{
  ℕ, ◌≡◌, refl, sym, Bool, true, false, not, ◌&&◌, ◌||◌, List, [], ◌∷◌, if◌then◌else◌, ◌==◌, arith,
  Bool-cases, inl, inr, ◌∙◌,
}

abbrev pub Key : Type 0
Key = ℕ × ℕ

abbrev pub key_eq : Key → Key → Bool
key_eq (d, p) (d', p') = d == d' && p == p'

unfoldable pub contains : Key → List Key → Bool
contains j [] = false
contains j (k ∷ keys) = key_eq k j || contains j keys

unfoldable pub insert : Key → List Key → List Key
unfolding contains
insert k keys = if contains k keys then keys else k ∷ keys

unfoldable pub remove : Key → List Key → List Key
remove k [] = []
remove k (j ∷ keys) = let rest = remove k keys in if key_eq j k then rest else j ∷ rest

unfoldable pub difference : List Key → List Key → List Key
unfolding contains
difference [] others = []
difference (k ∷ keys) others =
    let rest = difference keys others in if contains k others then rest else k ∷ rest

pub contains_same :
    (j k : Key) (keys : List Key) → key_eq k j ≡ true → contains k keys ≡ contains j keys
contains_same (d, p) (d', p') keys e =
    let e₁ : d' ≡ d = ground arith in
    let e₂ : p' ≡ p = ground arith in λ i. contains (e₁ i, e₂ i) keys

pub contains-insert :
    (j k : Key) (keys : List Key) → contains j (insert k keys) ≡ (key_eq k j || contains j keys)
unfolding insert
contains-insert j k keys = elim (Bool-cases (contains k keys)) [
  | inl old ↦ elim (Bool-cases (key_eq k j)) [
    | inl same ↦ rw (old, same) (sym (contains_same j k keys same) ∙ old)
    | inr other ↦ rw (old, other)
  ]
  | inr new ↦ rw new refl
]

pub contains-remove :
    (j k : Key) (keys : List Key)
    → contains j (remove k keys) ≡ (not (key_eq k j) && contains j keys)
unfolding contains remove
contains-remove (d, p) (d', p') [] = ground arith
contains-remove (d, p) (d', p') ((e, q) ∷ keys) =
    ground (arith, contains-remove (d, p) (d', p') keys)

pub contains-difference :
    (j : Key) (keys others : List Key)
    → contains j (difference keys others) ≡ (contains j keys && not (contains j others))
unfolding contains difference
contains-difference j [] others = refl
contains-difference j (k ∷ keys) others = elim (Bool-cases (key_eq k j)) [
  | inl same ↦ ground (arith, contains-difference j keys others, contains_same j k others same)
  | inr other ↦ ground (arith, contains-difference j keys others)
]
