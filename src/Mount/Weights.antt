-- ===== src/Mount/Weights.antt =====
-- The sum of a weight over the table of src/mount_manager.rs, which an insertion and a removal change by one
-- entry.
use arfw.Base.{
  ℕ, ◌+◌, ◌≡◌, refl, ap, Option, none, some, List, [], ◌∷◌, Bool-cases, inl, inr, arith,
}
use arfw.Base.Text.{text_eq, text_eq→eq, text_eq_self}
use arfw.Mount.Manager.{get, remove, insert}
use arfw.Mount.Keys.{get-remove}

-- No key stands twice in the table.
abbrev pub Distinct : {V : Type 0} → List (List ℕ × V) → Type 0
Distinct [] = Unit {0}
Distinct ((k, v) ∷ entries) = (get k entries ≡ none) × Distinct entries

-- A weight of the entries of a table, and of an entry that may be there.
abbrev pub weight : {V : Type 0} → (V → ℕ) → List (List ℕ × V) → ℕ
weight f [] = 0
weight f ((k, v) ∷ entries) = f v + weight f entries

abbrev pub weight_if : {V : Type 0} → (V → ℕ) → Option V → ℕ
weight_if f none = 0
weight_if f (some v) = f v

module _ {V : Type 0} where
  pub Distinct-remove :
      (k : List ℕ) (entries : List (List ℕ × V)) → Distinct entries → Distinct (remove k entries)
  unfolding remove
  Distinct-remove k [] distinct = tt
  Distinct-remove k ((j, v) ∷ entries) distinct = elim (Bool-cases (text_eq j k)) [
    | inl same ↦ rw same (Distinct-remove k entries distinct.1)
    | inr other ↦
        let gone : get j (remove k entries) ≡ none =
          ground (arith, get-remove k j entries, distinct.0) in
        rw other (gone, Distinct-remove k entries distinct.1)
  ]

  pub weight-remove :
      (f : V → ℕ) (k : List ℕ) (entries : List (List ℕ × V))
      → Distinct entries
      → weight f (remove k entries) + weight_if f (get k entries) ≡ weight f entries
  unfolding remove get
  weight-remove f k [] distinct = refl
  weight-remove f k ((j, v) ∷ entries) distinct =
      let rest = weight-remove f k entries distinct.1 in
      elim (Bool-cases (text_eq j k)) [
        | inl same ↦
            let at : j ≡ k = text_eq→eq j k same in
            let gone : get k entries ≡ none = rw (← at) distinct.0 in
            let counted : weight f (remove k entries) ≡ weight f entries =
              omega (arith, rest, ap (weight_if f) gone) in
            rw same (omega (arith, counted))
        | inr other ↦ rw other (omega (arith, rest))
      ]

  pub Distinct-insert :
      (k : List ℕ) (v : V) (entries : List (List ℕ × V))
      → Distinct entries
      → Distinct (insert k v entries)
  unfolding insert
  Distinct-insert k v entries distinct =
      let gone : get k (remove k entries) ≡ none =
        ground (arith, get-remove k k entries, text_eq_self k) in
      (gone, Distinct-remove k entries distinct)
