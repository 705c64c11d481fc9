-- ===== src/Driver/Files.antt =====
-- src/driver.rs: the operations that serve metadata, through the cache of `lru`.
use arfw.Base.{
  ℕ, Bool, true, false, ◌||◌, Option, none, some, List, [], ◌∷◌, ◌++◌, ok, err, Result, Io, pure,
  ◌>>=◌, map, is_empty, if◌then◌else◌,
}
use arfw.Base.Text.{text_eq}
use arfw.Disk.Api.{Win32}
use arfw.Utils.Wide.{encode_wide}
use arfw.Driver.Apfs.{ApfsApi, EntryKind, file, directory, symlink, FileStat, DirEntry}
use arfw.Driver.Extents.{ExtentEntry}
use arfw.Driver.Info.{
  u16_to_path, entry_kind_to_attributes, FileInfo, allocation_size, apfs_time_to_filetime,
  fill_file_info,
}
use arfw.Driver.Read.{FspError, ntstatus, FileContext}

pub record CachedStat : Type 0 where
  pub stat : FileStat
  pub extent_map : List ExtentEntry
  pub file_size : ℕ
  pub extents_resolved : Bool

abbrev pub stat_cache_capacity : ℕ
stat_cache_capacity = 4096

-- `LruCache<String, CachedStat>`; reading an entry changes the order in which entries leave.
pub record LruApi : Type 1 where
  pub Cache : Type 0
  pub new_cache : ℕ → Cache
  pub get : List ℕ → Cache → Option CachedStat × Cache
  pub put : List ℕ → CachedStat → Cache → Cache
  pub contains : List ℕ → Cache → Bool

pub record FileSecurity : Type 0 where
  pub reparse : Bool
  pub sz_security_descriptor : ℕ
  pub attributes : ℕ

-- STATUS_OBJECT_NAME_NOT_FOUND and STATUS_NOT_A_DIRECTORY
abbrev pub status_not_found : FspError
status_not_found = ntstatus 0xC0000034

abbrev pub status_not_a_directory : FspError
status_not_a_directory = ntstatus 0xC0000103

-- What `read_directory` writes to the directory buffer; the name is in UTF-16 units.
pub record DirInfo : Type 0 where
  pub name : List ℕ
  pub info : FileInfo

abbrev pub security : ℕ → FileSecurity
security attributes = record {
  reparse = false;
  sz_security_descriptor = 0;
  attributes = attributes;
}

unfoldable pub is_root : List ℕ → Bool
is_root path = text_eq path (b'/' ∷ []) || is_empty path

unfoldable pub is_directory : EntryKind → Bool
is_directory directory = true
is_directory file = false
is_directory symlink = false

-- The test of `open` on a cached entry: it serves if its extents are known, or are not needed.
unfoldable pub usable : Option CachedStat → Option CachedStat
unfolding is_directory
usable none = none
usable (some c) = if c.extents_resolved || is_directory c.stat.kind then some c else none

abbrev pub resolved : FileStat × List ExtentEntry × ℕ → CachedStat
resolved (stat, extent_map, file_size) = record {
  stat = stat;
  extent_map = extent_map;
  file_size = file_size;
  extents_resolved = true;
}

unfoldable pub child_path : List ℕ → List ℕ → List ℕ
unfolding is_root
child_path path name = let parent = if is_root path then [] else path in parent ++ (b'/' ∷ name)

-- What a directory listing tells of an entry.
abbrev pub listed : DirEntry → CachedStat
listed entry = record {
  stat = record {
    oid = entry.oid;
    kind = entry.kind;
    size = entry.size;
    create_time = entry.create_time;
    modify_time = entry.modify_time;
    uid = 0;
    gid = 0;
    mode = 0;
    nlink = 1;
  };
  extent_map = [];
  file_size = entry.size;
  extents_resolved = false;
}

-- `DirBuffer` of the crate `winfsp`, and the check of a name's length in its `DirInfo`. The lock of a buffer, by
-- which records are written, is given back when it goes out of scope.
pub record DirBufferApi (World : Type 0) : Type 1 where
  pub DirBuffer : Type 0
  pub Lock : Type 0
  pub acquire : DirBuffer → Bool → Io World FspError Lock
  pub set_name : List ℕ → Result FspError (Unit {0})
  pub write : Lock → DirInfo → Io World FspError (Unit {0})
  pub release : Lock → World → World
  pub read : DirBuffer → Bool → List ℕ → World → (ℕ × List ℕ) × World

unfoldable pub dir_info_of : DirEntry → DirInfo
unfolding encode_wide entry_kind_to_attributes allocation_size apfs_time_to_filetime
dir_info_of entry = record {
  name = encode_wide entry.name;
  info = record {
    file_attributes = entry_kind_to_attributes entry.kind;
    file_size = entry.size;
    allocation_size = allocation_size entry.size;
    creation_time = apfs_time_to_filetime entry.create_time;
    last_access_time = apfs_time_to_filetime entry.modify_time;
    last_write_time = apfs_time_to_filetime entry.modify_time;
    change_time = apfs_time_to_filetime entry.modify_time;
    index_number = entry.oid;
  };
}

-- The records for `.` and `..`, whose other fields `reset` has set to zero.
abbrev pub dot_info : List ℕ → DirInfo
dot_info name = record {
  name = name;
  info = record {
    file_attributes = 0x10;
    file_size = 0;
    allocation_size = 0;
    creation_time = 0;
    last_access_time = 0;
    last_write_time = 0;
    change_time = 0;
    index_number = 0;
  };
}

module _ (api : Win32) (crate : ApfsApi api) (lru : LruApi) (volume : crate.Volume) where
  -- An operation works on the cache and the system's state.
  abbrev pub Op : Type 0 → Type 0
  Op A = lru.Cache → api.World → Result FspError A × lru.Cache × api.World

  unfoldable pub get_security_by_name : List ℕ → Op FileSecurity
  unfolding is_root entry_kind_to_attributes
  get_security_by_name file_name cache w =
      let path = u16_to_path file_name in
      let (cached, cache') = lru.get path cache in
      let (asked, w') = crate.stat_and_extents volume path w in
      if is_root path then (ok (security 0x10), cache, w) else (elim cached [
        | some c ↦ (ok (security (entry_kind_to_attributes c.stat.kind)), cache', w)
        | none ↦ elim asked [
          | err _ ↦ (err status_not_found, cache', w')
          | ok found ↦ (
            ok (security (entry_kind_to_attributes found.0.kind)),
            lru.put path (resolved found) cache',
            w',
          )
        ]
      ])

  -- The file's information, and the context that later reads get.
  abbrev pub opened : List ℕ → CachedStat → FileInfo × FileContext
  opened path c = (
    fill_file_info c.stat c.file_size,
    record { path = path; extent_map = c.extent_map; file_size = c.file_size },
  )

  unfoldable pub open_file : List ℕ → Op (FileInfo × FileContext)
  unfolding usable
  open_file file_name cache w =
      let path = u16_to_path file_name in
      let (cached, cache') = lru.get path cache in
      let (asked, w') = crate.stat_and_extents volume path w in
      elim (usable cached) [
        | some c ↦ (ok (opened path c), cache', w)
        | none ↦ elim asked [
          | err _ ↦ (err status_not_found, cache', w')
          | ok found ↦ (ok (opened path (resolved found)), lru.put path (resolved found) cache', w')
        ]
      ]

  unfoldable pub get_file_info : FileContext → Op FileInfo
  unfolding fill_file_info
  get_file_info context cache w =
      let (cached, cache') = lru.get context.path cache in
      let (asked, w') = crate.stat volume context.path w in
      elim cached [
        | some c ↦ (ok (fill_file_info c.stat c.file_size), cache', w)
        | none ↦ elim asked [
          | err _ ↦ (err status_not_found, cache', w')
          | ok stat ↦ (ok (fill_file_info stat stat.size), cache', w')
        ]
      ]

  -- The entries of a listing go into the cache, but for those that it has.
  unfoldable pub cache_entries : List ℕ → List DirEntry → lru.Cache → lru.Cache
  unfolding child_path
  cache_entries path [] cache = cache
  cache_entries path (entry ∷ entries) cache =
      let child = child_path path entry.name in
      cache_entries path entries
        (if lru.contains child cache then cache else lru.put child (listed entry) cache)

  module _ (dirs : DirBufferApi api.World) where
    -- `set_name` or `set_name_raw`, and `write`, for each record, up to the first that fails
    unfoldable pub write_infos : dirs.Lock → List DirInfo → Io api.World FspError (Unit {0})
    write_infos lock [] = pure tt
    write_infos lock (dir_info ∷ dir_infos) = do
      _ ← λ w. (dirs.set_name dir_info.name, w)
      _ ← dirs.write lock dir_info
      write_infos lock dir_infos

    -- The block that has the lock of the directory buffer, which is released on every way out.
    unfoldable pub fill_dir_buffer :
        dirs.DirBuffer → List DirEntry → Io api.World FspError (Unit {0})
    unfolding write_infos dir_info_of
    fill_dir_buffer dir_buffer entries w =
        let (acquired, w₁) = dirs.acquire dir_buffer true w in
        elim acquired [
          | err e ↦ (err e, w₁)
          | ok lock ↦
              let (written, w₂) =
                write_infos lock
                  (dot_info (b'.' ∷ []) ∷ dot_info (b'.' ∷ b'.' ∷ []) ∷ map dir_info_of entries)
                  w₁ in
              (written, dirs.release lock w₂)
        ]

    -- The count, and the buffer that the caller gave, as WinFsp has filled it.
    unfoldable pub read_directory : dirs.DirBuffer → FileContext → Bool → List ℕ → Op (ℕ × List ℕ)
    unfolding cache_entries fill_dir_buffer
    read_directory dir_buffer context has_marker buffer cache w =
        let (asked, w₁) = crate.list_directory volume context.path w in
        if has_marker then (ok (0, buffer), cache, w) else (elim asked [
          | err _ ↦ (err status_not_a_directory, cache, w₁)
          | ok entries ↦
              let cache' = cache_entries context.path entries cache in
              let (filled, w₂) = fill_dir_buffer dir_buffer entries w₁ in
              elim filled [
                | err e ↦ (err e, cache', w₂)
                | ok _ ↦
                    let (count, w₃) = dirs.read dir_buffer true buffer w₂ in (ok count, cache', w₃)
              ]
        ])
