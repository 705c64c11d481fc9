-- ===== src/Disk/Superblock.antt =====
-- src/disk.rs: the methods of `DiskReader` that read APFS structures: the container's size, the space of
-- its first volume, and the search of the object map's root node.
use arfw.Base.{
  ℕ, zero, suc, ◌+◌, ◌*◌, true, false, ◌&&◌, Option, none, some, List, [], ◌∷◌, ok, err, Result, Io,
  ◌>>=◌, pure, throw, map_err, if◌then◌else◌, ◌==◌, leb, ltb, length, replicate, mul_u64,
}
use arfw.Error.{Error, io, apfs}
use arfw.Disk.Api.{Win32}
use arfw.Disk.Reader.{DiskReader, start, seek, read_exact}
use arfw.Disk.Sector.{slice}

-- `from_le_bytes`
unfoldable pub from_le_bytes : List ℕ → ℕ
from_le_bytes [] = 0
from_le_bytes (b ∷ bs) = b + 256 * from_le_bytes bs

-- A field of a structure: four or eight bytes of the buffer, which holds them all.
abbrev pub u32_at : List ℕ → ℕ → ℕ
u32_at buffer offset = from_le_bytes (slice buffer offset 4)

abbrev pub u64_at : List ℕ → ℕ → ℕ
u64_at buffer offset = from_le_bytes (slice buffer offset 8)

abbrev pub oid_not_found : Error
oid_not_found = apfs "Volume OID not found in object map"

abbrev pub no_volume : Error
no_volume = apfs "No volume found in container"

-- The body of the loop of `search_btree_node`: the address that it returns at this offset, if any.
unfoldable pub candidate : List ℕ → ℕ → ℕ → Option ℕ
candidate node target_oid offset =
    let val_offset = offset + 16 in
    let paddr = u64_at node (val_offset + 8) in
    if u64_at node offset == target_oid && leb (val_offset + 16) (length node)
    then (if ltb 0 paddr && ltb paddr 1000000000 then some paddr else none)
    else none

-- The loop, with fuel for its rounds.
unfoldable pub search_loop : List ℕ → ℕ → ℕ → ℕ → Result Error ℕ
search_loop node target_oid zero offset = err oid_not_found
search_loop node target_oid (suc fuel) offset = elim (leb (offset + 32) (length node)) [
  | false ↦ err oid_not_found
  | true ↦ elim (candidate node target_oid offset) [
    | some paddr ↦ ok paddr
    | none ↦ search_loop node target_oid fuel (offset + 8)
  ]
]

-- Each round moves the offset on by 8 bytes: as many rounds as the node has bytes are enough.
unfoldable pub search_btree_node : List ℕ → ℕ → Result Error ℕ
unfolding search_loop candidate
search_btree_node node target_oid = search_loop node target_oid (suc (length node)) 72

abbrev pub zeroed_block : List ℕ
zeroed_block = replicate 4096 0

module _ (api : Win32) (self : DiskReader api) where
  -- A seek to an offset of the partition, and a read of a whole block there.
  unfoldable pub read_block_at : ℕ → List ℕ → Io api.World Error (List ℕ)
  read_block_at offset buffer = do
    _ ← map_err io (seek api self (start offset))
    map_err io (read_exact api self buffer)

  unfoldable pub read_apfs_container_size : Io api.World Error ℕ
  unfolding read_block_at
  read_apfs_container_size = do
    buffer ← read_block_at 0 zeroed_block
    let block_size = u32_at buffer 36
    let block_count = u64_at buffer 40
    pure (mul_u64 block_count block_size)

  unfoldable pub read_apfs_volume_space : Io api.World Error (ℕ × ℕ)
  unfolding read_block_at
  read_apfs_volume_space = do
    superblock ← read_block_at 0 zeroed_block
    let block_size = u32_at superblock 36
    let nx_omap_oid = u64_at superblock 160
    let volume_oid = u64_at superblock 184
    _ ← (if volume_oid == 0 then throw no_volume else pure tt)
    omap ← read_block_at (mul_u64 nx_omap_oid block_size) superblock
    let om_tree_oid = u64_at omap 48
    root ← read_block_at (mul_u64 om_tree_oid block_size) omap
    volume_paddr ← (λ w. (search_btree_node root volume_oid, w))
    volume ← read_block_at (mul_u64 volume_paddr block_size) root
    pure (u64_at volume 224, u64_at volume 232)
