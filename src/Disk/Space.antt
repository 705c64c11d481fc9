-- ===== src/Disk/Space.antt =====
-- What the methods of src/disk.rs that read APFS structures return, as functions of the bytes on the disk.
use native.Mathlib.Nat.{pow-suc}
use arfw.Base.{
  ℕ, zero, suc, ◌+◌, ◌-◌, ◌*◌, ◌/◌, ◌%◌, ◌^◌, ◌≤◌, ◌<◌, ◌≡◌, refl, ap, ◌∙◌, inl, inr, List, [], ◌∷◌,
  ok, err, Result, if◌then◌else◌, ◌==◌, length, take, drop, arith, i64_bound, mul_u64,
  mul_u64-eq_of_lt, length-take, length-drop, drop-drop, drop-take, take-take, Bool-cases,
  Result-cases,
}
use arfw.Error.{Error}
use arfw.Disk.Api.{Win32, IsDisk}
use arfw.Disk.Reader.{DiskReader}
use arfw.Disk.Sector.{slice}
use arfw.Disk.Read.{seek_start, read_exact_lem}
use arfw.Disk.Superblock.{
  from_le_bytes, u32_at, u64_at, search_btree_node, no_volume, zeroed_block, read_block_at,
  read_apfs_container_size, read_apfs_volume_space,
}

-- The bytes of a number, the lowest first.
abbrev pub to_le_bytes : ℕ → ℕ → List ℕ
to_le_bytes zero n = []
to_le_bytes (suc k) n = (n % 256) ∷ to_le_bytes k (n / 256)

pub from_le_bytes-to_le_bytes : (k n : ℕ) → n < 256 ^ k → from_le_bytes (to_le_bytes k n) ≡ n
unfolding from_le_bytes
from_le_bytes-to_le_bytes zero n h = omega arith
from_le_bytes-to_le_bytes (suc k) n h =
    let small : n / 256 < 256 ^ k = omega (arith, pow-suc 256 k) in
    omega (arith, from_le_bytes-to_le_bytes k (n / 256) small)

slice-slice :
    (bytes : List ℕ) (o m p n : ℕ) → p + n ≤ m → slice (slice bytes o m) p n ≡ slice bytes (o + p) n
slice-slice bytes o m p n h =
    let e : m ≡ p + (m - p) = omega arith in
    ap (λ k. take n (drop p (take k (drop o bytes)))) e
    ∙ ap (take n) (drop-take p (m - p) (drop o bytes) ∙ ap (take (m - p)) (drop-drop p o bytes))
    ∙ take-take n (m - p) (drop (o + p) bytes) (omega arith)

-- Where the blocks of a container that lead to its first volume stand, from the blocks by byte offset.
abbrev pub block_size_of : (ℕ → List ℕ) → ℕ
block_size_of block = u32_at (block 0) 36

abbrev pub volume_oid_of : (ℕ → List ℕ) → ℕ
volume_oid_of block = u64_at (block 0) 184

abbrev pub omap_of : (ℕ → List ℕ) → ℕ
omap_of block = mul_u64 (u64_at (block 0) 160) (block_size_of block)

abbrev pub root_of : (ℕ → List ℕ) → ℕ
root_of block = mul_u64 (u64_at (block (omap_of block)) 48) (block_size_of block)

abbrev pub volume_of : (ℕ → List ℕ) → ℕ → ℕ
volume_of block paddr = mul_u64 paddr (block_size_of block)

-- The figures of the first volume of a container.
abbrev pub volume_space : (ℕ → List ℕ) → Result Error (ℕ × ℕ)
volume_space block =
    if volume_oid_of block == 0
    then err no_volume
    else elim (search_btree_node (block (root_of block)) (volume_oid_of block)) [
      | err e ↦ err e
      | ok paddr ↦
          let volume = block (volume_of block paddr) in ok (u64_at volume 224, u64_at volume 232)
    ]

-- The 4096 bytes of the disk at an offset of the partition.
abbrev pub block_of : List ℕ → ℕ → ℕ → List ℕ
block_of bytes offset o = slice bytes (offset + o) 4096

-- They all lie on the disk.
abbrev pub OnDisk : List ℕ → ℕ → ℕ → Type 0
OnDisk bytes offset o = offset + o + 4096 ≤ length bytes

length-block_of :
    (bytes : List ℕ) (offset o : ℕ)
    → OnDisk bytes offset o
    → length (block_of bytes offset o) ≡ 4096
length-block_of bytes offset o h =
    omega (arith, length-take 4096 (drop (offset + o) bytes), length-drop (offset + o) bytes)

first_block_field :
    (bytes : List ℕ) (offset p n : ℕ)
    → p + n ≤ 4096
    → slice (block_of bytes offset 0) p n ≡ slice bytes (offset + p) n
first_block_field bytes offset p n h =
    let e : offset + 0 + p ≡ offset + p = omega arith in
    slice-slice bytes (offset + 0) 4096 p n h ∙ ap (λ k. slice bytes k n) e

module _ (api : Win32) (self : DiskReader api) (bytes : List ℕ) (position : api.World → ℕ)
    (disk : IsDisk api self.handle bytes position) where
  read_block_at_lem :
      (o : ℕ) (buffer : List ℕ) (w : api.World)
      → length buffer ≡ 4096
      → OnDisk bytes self.offset o
      → length bytes < i64_bound
      → (w' : api.World) × (read_block_at api self o buffer w
          ≡ (ok (block_of bytes self.offset o), w'))
  unfolding read_block_at
  read_block_at_lem o buffer w full h l =
      let (w₁, sought, at) = seek_start api self bytes position disk o w (omega arith) in
      let (w₂, r, _) =
        read_exact_lem api self bytes position disk buffer w₁ (omega arith) l (omega arith) in
      let e : slice bytes (position w₁) (length buffer) ≡ block_of bytes self.offset o =
        rw (at, full) refl in
      (w₂, rw (sought, r, e))

  -- Over a disk with the documented behaviour and fewer than 2^63 bytes that holds the partition's
  -- first block, if the superblock there holds a block size of 32 bits and a block count of 64 bits
  -- whose product has 64 bits, then the size of the container is that product.
  pub read_apfs_container_size_lem :
      (block_size block_count : ℕ) (w : api.World)
      → OnDisk bytes self.offset 0
      → length bytes < i64_bound
      → slice bytes (self.offset + 36) 4 ≡ to_le_bytes 4 block_size
      → slice bytes (self.offset + 40) 8 ≡ to_le_bytes 8 block_count
      → block_size < 2 ^ 32
      → block_count < 2 ^ 64
      → block_count * block_size < 2 ^ 64
      → (w' : api.World) × (read_apfs_container_size api self w
          ≡ (ok (block_count * block_size), w'))
  unfolding read_apfs_container_size
  read_apfs_container_size_lem block_size block_count w h l s c small many fits =
      let (w₁, r) = read_block_at_lem 0 zeroed_block w refl h l in
      let size : u32_at (block_of bytes self.offset 0) 36 ≡ block_size =
        ap from_le_bytes (first_block_field bytes self.offset 36 4 (omega arith) ∙ s)
        ∙ from_le_bytes-to_le_bytes 4 block_size small in
      let count : u64_at (block_of bytes self.offset 0) 40 ≡ block_count =
        ap from_le_bytes (first_block_field bytes self.offset 40 8 (omega arith) ∙ c)
        ∙ from_le_bytes-to_le_bytes 8 block_count many in
      (w₁, rw (r, size, count, mul_u64-eq_of_lt block_count block_size fits))

  -- Over a disk with the documented behaviour and fewer than 2^63 bytes, on which the blocks lie that
  -- the superblock leads to, the figures of the volume are the function `volume_space` of these blocks,
  -- errors included: no volume, and a volume that the object map's root node does not hold.
  pub read_apfs_volume_space_lem :
      (w : api.World)
      → length bytes < i64_bound
      → OnDisk bytes self.offset 0
      → OnDisk bytes self.offset (omap_of (block_of bytes self.offset))
      → OnDisk bytes self.offset (root_of (block_of bytes self.offset))
      → ((paddr : ℕ)
          → search_btree_node
              (block_of bytes self.offset (root_of (block_of bytes self.offset)))
              (volume_oid_of (block_of bytes self.offset))
            ≡ ok paddr
          → OnDisk bytes self.offset (volume_of (block_of bytes self.offset) paddr))
      → (w' : api.World) × (read_apfs_volume_space api self w
          ≡ (volume_space (block_of bytes self.offset), w'))
  unfolding read_apfs_volume_space
  read_apfs_volume_space_lem w l h₀ h₁ h₂ h₃ =
      let block = block_of bytes self.offset in
      let omap = omap_of block in
      let root = root_of block in
      let oid = volume_oid_of block in
      let (w₁, r₁) = read_block_at_lem 0 zeroed_block w refl h₀ l in
      let (w₂, r₂) =
        read_block_at_lem omap (block 0) w₁ (length-block_of bytes self.offset 0 h₀) h₁ l in
      let (w₃, r₃) =
        read_block_at_lem root (block omap) w₂ (length-block_of bytes self.offset omap h₁) h₂ l in
      elim (Bool-cases (oid == 0)) [
        | inl absent ↦ (w₁, rw (r₁, absent))
        | inr present ↦ elim (Result-cases (search_btree_node (block root) oid)) [
          | inl (e, missing) ↦ (w₃, rw (r₁, present, r₂, r₃, missing))
          | inr (paddr, found) ↦
              let (w₄, r₄) =
                read_block_at_lem (volume_of block paddr) (block root) w₃
                  (length-block_of bytes self.offset root h₂) (h₃ paddr found) l in
              (w₄, rw (r₁, present, r₂, r₃, found, r₄))
        ]
      ]
