-- ===== src/Driver/Locate.antt =====
-- Where the bytes of a file lie on the disk, by the extent map of src/driver.rs.
use arfw.Base.{
  ℕ, ◌+◌, ◌-◌, ◌≤◌, ◌<◌, ◌≡◌, refl, sym, ap, ◌∙◌, inl, inr, true, false, some, List, [], ◌∷◌, ◌++◌,
  ltb, length, take, drop, arith, i64_bound, add_u64, add_u64-eq_of_lt, length-take, length-drop,
  length-append, drop-append, drop-append_exact, drop-drop, drop-take, Bool-cases, ltb→lt,
}
use arfw.Disk.Sector.{slice}
use arfw.Driver.Extents.{ExtentEntry, covers, logical_to_physical, extent_remaining}

-- The extents follow one another in the file from `log`, none is empty, and each lies on the disk.
abbrev pub Contiguous : List ℕ → ℕ → ℕ → List ExtentEntry → Type 0
Contiguous bytes partition_offset log [] = log < i64_bound
Contiguous bytes partition_offset log ((log_start, phys_start, n) ∷ extent_map) =
    (log_start ≡ log)
    × (0 < n)
    × (partition_offset + phys_start + n ≤ length bytes)
    × Contiguous bytes partition_offset (log + n) extent_map

-- The bytes of the file: those of its extents, in order.
abbrev pub content : List ℕ → ℕ → List ExtentEntry → List ℕ
content bytes partition_offset [] = []
content bytes partition_offset ((log_start, phys_start, n) ∷ extent_map) =
    slice bytes (partition_offset + phys_start) n ++ content bytes partition_offset extent_map

pub length-slice : (bytes : List ℕ) (o n : ℕ) → o + n ≤ length bytes → length (slice bytes o n) ≡ n
length-slice bytes o n h = omega (arith, length-take n (drop o bytes), length-drop o bytes)

drop-slice :
    (bytes : List ℕ) (o k n : ℕ) → k ≤ n → drop k (slice bytes o n) ≡ slice bytes (o + k) (n - k)
drop-slice bytes o k n h =
    let e : n ≡ k + (n - k) = omega arith in
    ap (λ m. drop k (take m (drop o bytes))) e
    ∙ drop-take k (n - k) (drop o bytes)
    ∙ ap (take (n - k)) (drop-drop k o bytes)

module _ (bytes : List ℕ) (partition_offset : ℕ) (small : length bytes < i64_bound) where
  pub Contiguous-lt :
      (log : ℕ) (extent_map : List ExtentEntry)
      → Contiguous bytes partition_offset log extent_map
      → log + length (content bytes partition_offset extent_map) < i64_bound
  Contiguous-lt log [] h = omega arith
  Contiguous-lt log ((l, p, n) ∷ extent_map) h = omega (
    arith,
    Contiguous-lt (log + n) extent_map h.3,
    length-append (slice bytes (partition_offset + p) n)
        (content bytes partition_offset extent_map),
    length-slice bytes (partition_offset + p) n h.2,
  )

  -- What the two look-ups say of a position in the file: where its bytes lie, and how many do.
  pub record Located (extent_map : List ExtentEntry) (position ahead : ℕ) : Type 0 where
    pub phys : ℕ
    pub avail : ℕ
    pub rest : List ℕ
    pub found : logical_to_physical extent_map position ≡ some phys
    pub remains : extent_remaining extent_map position ≡ avail
    pub positive : 0 < avail
    pub on_disk : partition_offset + phys + avail ≤ length bytes
    pub data_there :
        drop ahead (content bytes partition_offset extent_map)
        ≡ slice bytes (partition_offset + phys) avail ++ rest

  pub locate :
      (log ahead : ℕ) (extent_map : List ExtentEntry)
      → Contiguous bytes partition_offset log extent_map
      → ahead < length (content bytes partition_offset extent_map)
      → Located extent_map (log + ahead) ahead
  unfolding logical_to_physical extent_remaining
  locate log ahead [] c h = elim h [ ]
  locate log ahead ((l, p, n) ∷ extent_map) c h =
      let chunk = slice bytes (partition_offset + p) n in
      let rest = content bytes partition_offset extent_map in
      let full : length chunk ≡ n = length-slice bytes (partition_offset + p) n c.2 in
      let bounded : log + n < i64_bound = omega (arith, Contiguous-lt (log + n) extent_map c.3) in
      let e : add_u64 l n ≡ l + n = add_u64-eq_of_lt l n (omega arith) in
      elim (Bool-cases (ltb ahead n)) [
        | inl within ↦
            let lt : ahead < n = ltb→lt ahead n within in
            let hit : covers (l, p, n) (log + ahead) ≡ true = rw e (ground arith) in
            let behind : log + ahead - l ≡ ahead = omega arith in
            let left : l + n - (log + ahead) ≡ n - ahead = omega arith in
            let start : partition_offset + p + ahead ≡ partition_offset + (p + ahead) =
              omega arith in
            record {
              phys = p + ahead;
              avail = n - ahead;
              rest = rest;
              found = rw (hit, behind, add_u64-eq_of_lt p ahead (omega arith), logical_to_physical);
              remains = rw (hit, e, left, extent_remaining);
              positive = omega arith;
              on_disk = omega arith;
              data_there =
                  drop-append ahead chunk rest (omega arith)
                  ∙ ap (λ k. k ++ rest)
                      (drop-slice bytes (partition_offset + p) ahead n (omega arith)
                        ∙ ap (λ k. slice bytes k (n - ahead)) start);
            }
        | inr beyond ↦
            let le : n ≤ ahead = ground arith in
            let miss : covers (l, p, n) (log + ahead) ≡ false = rw e (ground arith) in
            let there =
              locate (log + n) (ahead - n) extent_map c.3
                (omega (arith, length-append chunk rest)) in
            let same : log + n + (ahead - n) ≡ log + ahead = omega arith in
            let total : length chunk + (ahead - n) ≡ ahead = omega arith in
            record {
              phys = there.phys;
              avail = there.avail;
              rest = there.rest;
              found = rw (miss, logical_to_physical) (rw same at there.found);
              remains = rw (miss, extent_remaining) (rw same at there.remains);
              positive = there.positive;
              on_disk = there.on_disk;
              data_there =
                  ap (λ k. drop k (chunk ++ rest)) (sym total)
                  ∙ sym (drop-drop (ahead - n) (length chunk) (chunk ++ rest))
                  ∙ ap (drop (ahead - n)) (drop-append_exact (length chunk) chunk rest refl)
                  ∙ there.data_there;
            }
      ]
