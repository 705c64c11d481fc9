-- ===== src/Disk/Search.antt =====
-- The search of src/disk.rs for a volume in the object map's root node.
use arfw.Base.{
  ℕ, zero, suc, ◌+◌, ◌*◌, ◌≤◌, ◌<◌, ◌≡◌, refl, ap, sym, ◌∙◌, ◌↔◌, ◌⊎◌, inl, inr, true, false, none,
  some, List, ok, err, arith, leb, length, Bool-cases, Option-cases, leb→le, le→leb,
}
use arfw.Error.{Error}
use arfw.Disk.Superblock.{u64_at, candidate, search_loop, search_btree_node, oid_not_found}

-- A key with the object's id at `offset`, and an address in the accepted range in the value that
-- follows it.
pub record EntryAt (node : List ℕ) (target_oid offset paddr : ℕ) : Type 0 where
  pub inside : offset + 32 ≤ length node
  pub oid : u64_at node offset ≡ target_oid
  pub address : u64_at node (offset + 16 + 8) ≡ paddr
  pub positive : 0 < paddr
  pub plausible : paddr < 1000000000

-- The entry that the scan meets first, `k` steps behind `offset`.
abbrev pub FirstFrom : List ℕ → ℕ → ℕ → ℕ → Type 0
FirstFrom node target_oid offset paddr =
    (k : ℕ) × EntryAt node target_oid (offset + 8 * k) paddr
    × ((j : ℕ) → j < k → (p : ℕ) → ¬ EntryAt node target_oid (offset + 8 * j) p)

module _ (node : List ℕ) (target_oid : ℕ) where
  candidate-EntryAt :
      (offset paddr : ℕ)
      → offset + 32 ≤ length node
      → candidate node target_oid offset ≡ some paddr
      → EntryAt node target_oid offset paddr
  unfolding candidate
  candidate-EntryAt offset paddr h e = ground arith

  candidate_of_EntryAt :
      (offset paddr : ℕ)
      → EntryAt node target_oid offset paddr
      → candidate node target_oid offset ≡ some paddr
  unfolding candidate
  candidate_of_EntryAt offset paddr e = ground arith

  -- The three ways in which a round goes.
  module _ (fuel offset : ℕ) where
    loop_past :
        leb (offset + 32) (length node) ≡ false
        → search_loop node target_oid (suc fuel) offset ≡ err oid_not_found
    unfolding search_loop
    loop_past past = rw (past, search_loop)

    loop_hit :
        leb (offset + 32) (length node) ≡ true
        → {paddr : ℕ} → candidate node target_oid offset ≡ some paddr
        → search_loop node target_oid (suc fuel) offset ≡ ok paddr
    unfolding search_loop
    loop_hit inside found = rw (inside, found, search_loop)

    loop_miss :
        leb (offset + 32) (length node) ≡ true
        → candidate node target_oid offset ≡ none
        → search_loop node target_oid (suc fuel) offset
          ≡ search_loop node target_oid fuel (offset + 8)
    unfolding search_loop
    loop_miss inside missed = rw (inside, missed, search_loop)

  search_loop-FirstFrom :
      (fuel offset paddr : ℕ)
      → search_loop node target_oid fuel offset ≡ ok paddr
      → FirstFrom node target_oid offset paddr
  unfolding search_loop
  search_loop-FirstFrom zero offset paddr h = absurd (cc)
  search_loop-FirstFrom (suc fuel) offset paddr h =
      elim (Bool-cases (leb (offset + 32) (length node))) [
        | inr past ↦ absurd (ground arith)
        | inl inside ↦ elim (Option-cases (candidate node target_oid offset)) [
          | inr (q, found) ↦
              let same : q ≡ paddr = ground arith in
              let here : EntryAt node target_oid offset paddr =
                candidate-EntryAt offset paddr (leb→le _ _ inside) (found ∙ ap some same) in
              let e : offset + 8 * 0 ≡ offset = omega arith in
              (0, rw e here, λ j lt. absurd (omega arith))
          | inl missed ↦
              let (k, entry, first) =
                search_loop-FirstFrom fuel (offset + 8) paddr (ground arith) in
              let e : offset + 8 * suc k ≡ offset + 8 + 8 * k = omega arith in
              (suc k, rw e entry, none_before offset k missed first)
        ]
      ]
    where
      none_before :
          (offset k : ℕ)
          → candidate node target_oid offset ≡ none
          → ((j : ℕ) → j < k → (p : ℕ) → ¬ EntryAt node target_oid (offset + 8 + 8 * j) p)
          → (j : ℕ) → j < suc k
          → (p : ℕ) → ¬ EntryAt node target_oid (offset + 8 * j) p
      none_before offset k missed first zero lt p entry =
          let e : offset + 8 * 0 ≡ offset = omega arith in
          let found = candidate_of_EntryAt offset p (rw e at entry) in cc
      none_before offset k missed first (suc j) lt p entry =
          let e : offset + 8 * suc j ≡ offset + 8 + 8 * j = omega arith in
          first j (omega arith) p (rw e at entry)

  search_loop_of_FirstFrom :
      (k fuel offset paddr : ℕ)
      → k < fuel
      → EntryAt node target_oid (offset + 8 * k) paddr
      → ((j : ℕ) → j < k → (p : ℕ) → ¬ EntryAt node target_oid (offset + 8 * j) p)
      → search_loop node target_oid fuel offset ≡ ok paddr
  unfolding search_loop
  search_loop_of_FirstFrom k zero offset paddr lt entry first = absurd (omega arith)
  search_loop_of_FirstFrom zero (suc fuel) offset paddr lt entry first =
      let e : offset + 8 * 0 ≡ offset = omega arith in
      let here : EntryAt node target_oid offset paddr = rw e at entry in
      loop_hit fuel offset (le→leb (offset + 32) (length node) here.inside)
        (candidate_of_EntryAt offset paddr here)
  search_loop_of_FirstFrom (suc k) (suc fuel) offset paddr lt entry first =
      let within : leb (offset + 32) (length node) ≡ true =
        le→leb (offset + 32) (length node) (omega (arith, entry.inside)) in
      let e : offset + 8 * suc k ≡ offset + 8 + 8 * k = omega arith in
      let e₀ : offset + 8 * 0 ≡ offset = omega arith in
      elim (Option-cases (candidate node target_oid offset)) [
        | inr (q, found) ↦
            absurd (
              first 0 (omega arith) q
                (rw e₀ (candidate-EntryAt offset q (leb→le _ _ within) found)))
        | inl missed ↦
            loop_miss fuel offset within missed
            ∙ (search_loop_of_FirstFrom k fuel (offset + 8) paddr (omega arith) (rw e at entry)
                (λ j jlt p x.
                  let e' : offset + 8 * suc j ≡ offset + 8 + 8 * j = omega arith in
                  first (suc j) (omega arith) p (rw e' x)))
      ]

  search_loop-err :
      (k fuel offset : ℕ) {e : Error}
      → length node < offset + 32 + 8 * fuel
      → search_loop node target_oid fuel offset ≡ err e
      → (p : ℕ) → ¬ EntryAt node target_oid (offset + 8 * k) p
  search_loop-err k zero offset enough h p entry = absurd (omega (arith, entry.inside))
  search_loop-err k (suc fuel) offset enough h p entry =
      let within : leb (offset + 32) (length node) ≡ true =
        le→leb (offset + 32) (length node) (omega (arith, entry.inside)) in
      elim (Option-cases (candidate node target_oid offset)) [
        | inr (q, found) ↦ cc (loop_hit fuel offset within found)
        | inl missed ↦ later k fuel offset missed p entry (λ j.
            search_loop-err j fuel (offset + 8) (omega arith)
              (sym (loop_miss fuel offset within missed) ∙ h) p)
      ]
    where
      later :
          (k fuel offset : ℕ)
          → candidate node target_oid offset ≡ none
          → (p : ℕ) → EntryAt node target_oid (offset + 8 * k) p
          → ((j : ℕ) → ¬ EntryAt node target_oid (offset + 8 + 8 * j) p)
          → ⊥
      later zero fuel offset missed p entry rest =
          let e : offset + 8 * 0 ≡ offset = omega arith in
          let found = candidate_of_EntryAt offset p (rw e at entry) in cc
      later (suc k) fuel offset missed p entry rest =
          let e : offset + 8 * suc k ≡ offset + 8 + 8 * k = omega arith in rest k (rw e at entry)

  search_loop-total :
      (fuel offset : ℕ)
      → (search_loop node target_oid fuel offset ≡ err oid_not_found)
        ⊎ ((paddr : ℕ) × (search_loop node target_oid fuel offset ≡ ok paddr))
  search_loop-total zero offset = inl (unfold search_loop in refl)
  search_loop-total (suc fuel) offset = elim (Bool-cases (leb (offset + 32) (length node))) [
    | inr past ↦ inl (loop_past fuel offset past)
    | inl inside ↦ elim (Option-cases (candidate node target_oid offset)) [
      | inr (q, found) ↦ inr (q, loop_hit fuel offset inside found)
      | inl missed ↦ rw (loop_miss fuel offset inside missed) (search_loop-total fuel (offset + 8))
    ]
  ]

  -- The search returns an address exactly when that is the address of the first entry for the object
  -- among the offsets 72, 80, 88 and so on, however long the node is.
  pub search_btree_node-ok_iff :
      (paddr : ℕ)
      → (search_btree_node node target_oid ≡ ok paddr) ↔ FirstFrom node target_oid 72 paddr
  unfolding search_btree_node
  search_btree_node-ok_iff paddr = (
    search_loop-FirstFrom (suc (length node)) 72 paddr,
    λ (k, entry, first).
        search_loop_of_FirstFrom k (suc (length node)) 72 paddr (omega (arith, entry.inside)) entry
          first,
  )

  -- The search fails exactly when no such offset has an entry for the object whose address is in the
  -- accepted range.
  pub search_btree_node-err_iff :
      (search_btree_node node target_oid ≡ err oid_not_found)
      ↔ ((k p : ℕ) → ¬ EntryAt node target_oid (72 + 8 * k) p)
  unfolding search_btree_node
  search_btree_node-err_iff = (
    λ failed k p. search_loop-err k (suc (length node)) 72 (omega arith) failed p,
    λ absent. elim (search_loop-total (suc (length node)) 72) [
      | inl failed ↦ failed
      | inr (paddr, found) ↦
          let (k, entry, first) = search_loop-FirstFrom (suc (length node)) 72 paddr found in
          absurd (absent k paddr entry)
    ],
  )
