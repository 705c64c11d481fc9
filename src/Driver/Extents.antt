-- ===== src/Driver/Extents.antt =====
-- src/driver.rs: extent maps, and the two look-ups in them.
use arfw.Base.{
  ℕ, ◌-◌, Bool, ◌&&◌, Option, none, some, List, [], ◌∷◌, if◌then◌else◌, ltb, leb, add_u64,
}

-- The logical start, the physical start and the length, in bytes.
abbrev pub ExtentEntry : Type 0
ExtentEntry = ℕ × ℕ × ℕ

abbrev pub covers : ExtentEntry → ℕ → Bool
covers (log_start, phys_start, length) logical_offset =
    leb log_start logical_offset && ltb logical_offset (add_u64 log_start length)

unfoldable pub logical_to_physical : List ExtentEntry → ℕ → Option ℕ
logical_to_physical [] logical_offset = none
logical_to_physical ((log_start, phys_start, length) ∷ extent_map) logical_offset =
    if covers (log_start, phys_start, length) logical_offset
    then some (add_u64 phys_start (logical_offset - log_start))
    else logical_to_physical extent_map logical_offset

unfoldable pub extent_remaining : List ExtentEntry → ℕ → ℕ
extent_remaining [] logical_offset = 0
extent_remaining ((log_start, phys_start, length) ∷ extent_map) logical_offset =
    if covers (log_start, phys_start, length) logical_offset
    then add_u64 log_start length - logical_offset
    else extent_remaining extent_map logical_offset
