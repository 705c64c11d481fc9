-- ===== src/Tests/Container.antt =====
-- The theorems about the APFS structures of src/disk.rs, on a disk that holds a container of four blocks:
-- the superblock, the object map, its root node and a volume.
use arfw.Base.{
  ℕ, ◌*◌, ◌+◌, ◌≡◌, ◌≤◌, refl, ◌↔◌, List, [], ◌∷◌, ◌++◌, ok, err, arith, replicate, mul_u64,
}
use arfw.Disk.Reader.{DiskReader}
use arfw.Disk.Search.{EntryAt, FirstFrom, search_btree_node-ok_iff, search_btree_node-err_iff}
use arfw.Disk.Space.{
  to_le_bytes, from_le_bytes-to_le_bytes, block_of, omap_of, root_of, volume_of,
  read_apfs_container_size_lem, read_apfs_volume_space_lem,
}
use arfw.Disk.Superblock.{
  from_le_bytes, search_btree_node, oid_not_found, read_apfs_container_size, read_apfs_volume_space,
}
use arfw.Tests.Image.{image, image-IsDisk, position}

from_le_bytes-to_le_bytes_example : from_le_bytes (to_le_bytes 2 515) ≡ 515
from_le_bytes-to_le_bytes_example = from_le_bytes-to_le_bytes 2 515 (omega arith)

abbrev superblock : List ℕ
superblock =
    replicate 36 0
    ++ to_le_bytes 4 4096
    ++ to_le_bytes 8 4
    ++ replicate 112 0
    ++ to_le_bytes 8 1
    ++ replicate 16 0
    ++ to_le_bytes 8 1026
    ++ replicate 3904 0

abbrev omap : List ℕ
omap = replicate 48 0 ++ to_le_bytes 8 2 ++ replicate 4040 0

abbrev root : List ℕ
root = replicate 72 0 ++ to_le_bytes 8 1026 ++ replicate 16 0 ++ to_le_bytes 8 3 ++ replicate 3992 0

abbrev volume : List ℕ
volume = replicate 224 0 ++ to_le_bytes 8 11 ++ to_le_bytes 8 22 ++ replicate 3856 0

abbrev container : List ℕ
container = replicate 512 0 ++ superblock ++ omap ++ root ++ volume

abbrev partition : DiskReader (image container)
partition = record { handle = []; size = 16896; offset = 512; device_path = b'x' ∷ [] }

root-finds : search_btree_node root 1026 ≡ ok 3
unfolding search_btree_node from_le_bytes
root-finds = refl

search_btree_node-ok_iff_example : (search_btree_node root 1026 ≡ ok 3) ↔ FirstFrom root 1026 72 3
search_btree_node-ok_iff_example = search_btree_node-ok_iff root 1026 3

search_btree_node-err_iff_example :
    (search_btree_node root 1027 ≡ err oid_not_found)
    ↔ ((k p : ℕ) → ¬ EntryAt root 1027 (72 + 8 * k) p)
search_btree_node-err_iff_example = search_btree_node-err_iff root 1027

read_apfs_container_size_example :
    (w : ℕ) × (read_apfs_container_size (image container) partition 7 ≡ (ok 16384, w))
read_apfs_container_size_example =
    read_apfs_container_size_lem (image container) partition container position
      (image-IsDisk container) 4096 4 7 (omega arith) (omega arith) refl refl (omega arith)
      (omega arith) (omega arith)

omap-at : omap_of (block_of container 512) ≡ 4096
unfolding from_le_bytes mul_u64
omap-at = refl

root-at : root_of (block_of container 512) ≡ 8192
unfolding from_le_bytes mul_u64
root-at = refl

volume_fits :
    (paddr : ℕ)
    → search_btree_node root 1026 ≡ ok paddr
    → 512 + volume_of (block_of container 512) paddr + 4096 ≤ 16896
unfolding from_le_bytes mul_u64
volume_fits paddr e =
    let found : search_btree_node root 1026 ≡ ok 3 = root-finds in
    let same : 3 ≡ paddr = cc in rw (← same) (omega arith)

read_apfs_volume_space_example :
    (w : ℕ) × (read_apfs_volume_space (image container) partition 7 ≡ (ok (11, 22), w))
unfolding from_le_bytes search_btree_node mul_u64
read_apfs_volume_space_example =
    read_apfs_volume_space_lem (image container) partition container position
      (image-IsDisk container) 7 (omega arith) (omega arith) (omega (arith, omap-at))
      (omega (arith, root-at)) volume_fits
