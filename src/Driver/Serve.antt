-- ===== src/Driver/Serve.antt =====
-- The requests of src/driver.rs that use the cache, one after the other.
use arfw.Base.{
  ℕ, ◌≡◌, ap, ◌∙◌, Bool, true, false, Option, some, List, [], ◌∷◌, Bool-cases, Option-cases,
  Result-cases, inl, inr,
}
use arfw.Disk.Api.{Win32}
use arfw.Driver.Apfs.{ApfsApi, DirEntry}
use arfw.Driver.Info.{u16_to_path}
use arfw.Driver.Read.{FileContext}
use arfw.Driver.Files.{
  CachedStat, LruApi, usable, resolved, child_path, listed, open_file, stat_cache_capacity,
  get_file_info, get_security_by_name, cache_entries, DirBufferApi, fill_dir_buffer, read_directory,
  is_root,
}
use arfw.Monitor.Handles.{All}
use arfw.Driver.Coherent.{
  IsLru, Found, IsVolume, Describes-resolved, IsCoherent, get-IsCoherent, put-IsCoherent,
  found_there, path_in, Lists, Describes-listed, child_path-path_in,
}

-- The requests of WinFsp that use the cache.
pub data Request (DirBuffer : Type 0) : Type 0 where
  security : List ℕ → Request DirBuffer
  opening : List ℕ → Request DirBuffer
  information : FileContext → Request DirBuffer
  listing : DirBuffer → FileContext → Bool → List ℕ → Request DirBuffer

module _ (api : Win32) (crate : ApfsApi api) (lru : LruApi) (volume : crate.Volume)
    (dirs : DirBufferApi api.World) where
  -- The cache and the system after the requests, in their order.
  abbrev pub serve : List (Request dirs.DirBuffer) → lru.Cache → api.World → lru.Cache × api.World
  serve [] cache w = (cache, w)
  serve (security name ∷ rest) cache w =
      let (_, cache', w') = get_security_by_name api crate lru volume name cache w in
      serve rest cache' w'
  serve (opening name ∷ rest) cache w =
      let (_, cache', w') = open_file api crate lru volume name cache w in serve rest cache' w'
  serve (information context ∷ rest) cache w =
      let (_, cache', w') = get_file_info api crate lru volume context cache w in
      serve rest cache' w'
  serve (listing dir_buffer context marker buffer ∷ rest) cache w =
      let (_, cache', w') =
        read_directory api crate lru volume dirs dir_buffer context marker buffer cache w in
      serve rest cache' w'

module _ (api : Win32) (crate : ApfsApi api) (lru : LruApi) (volume : crate.Volume)
    (peek : lru.Cache → List ℕ → Option CachedStat) (is_lru : IsLru lru peek)
    (find : List ℕ → Option Found) (is_volume : IsVolume api crate volume find) where
  open_file-IsCoherent :
      (file_name : List ℕ) (cache : lru.Cache) (w : api.World)
      → IsCoherent lru peek find cache
      → IsCoherent lru peek find (open_file api crate lru volume file_name cache w).1
  unfolding open_file
  open_file-IsCoherent file_name cache w coherent =
      let path = u16_to_path file_name in
      let kept = get-IsCoherent lru peek is_lru find path cache coherent in
      elim (Option-cases (usable (lru.get path cache).0)) [
        | inr (c, hit) ↦ rw (hit, open_file) kept
        | inl miss ↦ elim (Result-cases (crate.stat_and_extents volume path w).0) [
          | inl (e, failed) ↦ rw (miss, open_file) (rw failed kept)
          | inr (found, answered) ↦
              rw (miss, open_file)
                (rw answered (
                  put-IsCoherent lru peek is_lru find path (resolved found) found
                    (lru.get path cache).1
                    (found_there api crate volume find is_volume path w found answered)
                    (Describes-resolved found) kept))
        ]
      ]

  get_security_by_name-IsCoherent :
      (file_name : List ℕ) (cache : lru.Cache) (w : api.World)
      → IsCoherent lru peek find cache
      → IsCoherent lru peek find (get_security_by_name api crate lru volume file_name cache w).1
  unfolding get_security_by_name
  get_security_by_name-IsCoherent file_name cache w coherent =
      let path = u16_to_path file_name in
      let kept = get-IsCoherent lru peek is_lru find path cache coherent in
      elim (Bool-cases (is_root path)) [
        | inl root ↦ rw (root, get_security_by_name) coherent
        | inr below ↦ elim (Option-cases (lru.get path cache).0) [
          | inr (c, hit) ↦ rw (below, get_security_by_name) (rw hit kept)
          | inl miss ↦ elim (Result-cases (crate.stat_and_extents volume path w).0) [
            | inl (e, failed) ↦ rw (below, get_security_by_name) (rw miss (rw failed kept))
            | inr (found, answered) ↦
                rw (below, get_security_by_name)
                  (rw miss (
                    rw answered (
                      put-IsCoherent lru peek is_lru find path (resolved found) found
                        (lru.get path cache).1
                        (found_there api crate volume find is_volume path w found answered)
                        (Describes-resolved found) kept)))
          ]
        ]
      ]

  pub cache_entries-IsCoherent :
      (path : List ℕ) (entries : List DirEntry) (cache : lru.Cache)
      → All
          (λ entry.
            (found : Found) × (find (path_in path entry.name) ≡ some found) × Lists found entry)
          entries
      → IsCoherent lru peek find cache
      → IsCoherent lru peek find (cache_entries api crate lru volume path entries cache)
  unfolding cache_entries
  cache_entries-IsCoherent path [] cache all coherent = coherent
  cache_entries-IsCoherent path (entry ∷ entries) cache all coherent =
      let child = child_path path entry.name in
      let (found, told, l) = all.0 in
      let there : find child ≡ some found = ap find (child_path-path_in path entry.name) ∙ told in
      elim (Bool-cases (lru.contains child cache)) [
        | inl old ↦
            rw (old, cache_entries) (cache_entries-IsCoherent path entries cache all.1 coherent)
        | inr new ↦
            rw (new, cache_entries)
              (cache_entries-IsCoherent path entries (lru.put child (listed entry) cache) all.1 (
                put-IsCoherent lru peek is_lru find child (listed entry) found cache there
                  (Describes-listed found entry l) coherent))
      ]

  get_file_info-IsCoherent :
      (context : FileContext) (cache : lru.Cache) (w : api.World)
      → IsCoherent lru peek find cache
      → IsCoherent lru peek find (get_file_info api crate lru volume context cache w).1
  unfolding get_file_info
  get_file_info-IsCoherent context cache w coherent =
      let kept = get-IsCoherent lru peek is_lru find context.path cache coherent in
      elim (Option-cases (lru.get context.path cache).0) [
        | inr (c, hit) ↦ rw (hit, get_file_info) kept
        | inl miss ↦ elim (Result-cases (crate.stat volume context.path w).0) [
          | inl (e, failed) ↦ rw (miss, get_file_info) (rw failed kept)
          | inr (stat, answered) ↦ rw (miss, get_file_info) (rw answered kept)
        ]
      ]

  module _ (dirs : DirBufferApi api.World) where
    read_directory-IsCoherent :
        (dir_buffer : dirs.DirBuffer) (context : FileContext) (has_marker : Bool) (buffer : List ℕ)
        (cache : lru.Cache) (w : api.World)
        → IsCoherent lru peek find cache
        → IsCoherent lru peek find
            (read_directory api crate lru volume dirs dir_buffer context has_marker buffer cache
              w).1
    unfolding read_directory
    read_directory-IsCoherent dir_buffer context true buffer cache w coherent = coherent
    read_directory-IsCoherent dir_buffer context false buffer cache w coherent =
        let w₁ = (crate.list_directory volume context.path w).1 in
        elim (Result-cases (crate.list_directory volume context.path w).0) [
          | inl (e, failed) ↦ rw (failed, read_directory) coherent
          | inr (entries, told) ↦
              let kept =
                cache_entries-IsCoherent context.path entries cache
                  (is_volume.lists context.path w entries told) coherent in
              elim (Result-cases
                (fill_dir_buffer api crate lru volume dirs dir_buffer entries w₁).0) [
                  | inl (e, failed) ↦ rw (told, read_directory) (rw failed kept)
                  | inr (_, filled) ↦ rw (told, read_directory) (rw filled kept)
                ]
        ]

    serve-IsCoherent_from :
        (requests : List (Request dirs.DirBuffer)) (cache : lru.Cache) (w : api.World)
        → IsCoherent lru peek find cache
        → IsCoherent lru peek find (serve api crate lru volume dirs requests cache w).0
    serve-IsCoherent_from [] cache w h = h
    serve-IsCoherent_from (security name ∷ rest) cache w h =
        serve-IsCoherent_from rest _ _ (get_security_by_name-IsCoherent name cache w h)
    serve-IsCoherent_from (opening name ∷ rest) cache w h =
        serve-IsCoherent_from rest _ _ (open_file-IsCoherent name cache w h)
    serve-IsCoherent_from (information context ∷ rest) cache w h =
        serve-IsCoherent_from rest _ _ (get_file_info-IsCoherent context cache w h)
    serve-IsCoherent_from (listing dir_buffer context marker buffer ∷ rest) cache w h =
        serve-IsCoherent_from rest _ _
          (read_directory-IsCoherent dir_buffer context marker buffer cache w h)

    -- Over a volume that does not change and a cache with the documented behaviour, every entry of the
    -- cache, after any requests from an empty cache, describes what the volume has at its path.
    pub serve-IsCoherent :
        (requests : List (Request dirs.DirBuffer)) (w : api.World)
        → IsCoherent lru peek find
            (serve api crate lru volume dirs requests (lru.new_cache stat_cache_capacity) w).0
    serve-IsCoherent requests w =
        serve-IsCoherent_from requests (lru.new_cache stat_cache_capacity) w
          (λ path c e. absurd (cc (is_lru.new_empty stat_cache_capacity path)))
