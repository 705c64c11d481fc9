-- ===== src/Driver/Threads.antt =====
-- src/driver.rs: `get_security_by_name`, `open`, `get_file_info` and `read_directory` on threads of their own. A
-- request takes the mutex of the cache and that of the volume one after the other and never both, so other
-- requests come between its steps. The directory buffer of a listing, which belongs to one open directory, is
-- filled after its last step.
use arfw.Base.{
  ℕ, ◌≡◌, refl, sym, ap, ◌∙◌, Bool, true, false, ◌||◌, Option, none, some, List, ok, err, Result,
  set_at, set_at-all, Bool-cases, Option-cases, Result-cases, inl, inr,
}
use arfw.Disk.Api.{Win32}
use arfw.Driver.Apfs.{ApfsApi, DirEntry, FileStat}
use arfw.Driver.Info.{FileInfo, fill_file_info}
use arfw.Driver.Files.{
  CachedStat, LruApi, is_root, dir_info_of, is_directory, usable, resolved, cache_entries,
  stat_cache_capacity,
}
use arfw.Driver.Coherent.{
  IsLru, Found, Describes, Describes-resolved, fill_file_info-Describes, IsVolume, IsCoherent,
  get-IsCoherent, put-IsCoherent, found_there, path_in, Lists,
}
use arfw.Driver.Serve.{cache_entries-IsCoherent}
use arfw.Monitor.Handles.{All}
pub mod Invariant

-- The requests that look into the cache.
pub data Kind : Type 0 where
  security opening information : Kind

-- Where a thread stands between two steps: with no request, before the look into the cache, before the question to
-- the volume, before the store of its answer, with the entry, the volume's answer or the refusal that the request
-- ends with, with a listing that goes into the cache, and with the listing that goes into the directory buffer.
pub data Phase : Type 0 where
  free : Phase
  looking asking : Kind → List ℕ → Phase
  storing : Kind → List ℕ → Found → Phase
  told : Kind → List ℕ → CachedStat → Phase
  informed : List ℕ → FileStat → Phase
  refused : List ℕ → Phase
  listing answered : List ℕ → List DirEntry → Phase

abbrev rests : Phase → Bool
rests free = true
rests (looking kind path) = false
rests (asking kind path) = false
rests (storing kind path found) = false
rests (told kind path c) = true
rests (informed path stat) = true
rests (refused path) = true
rests (listing path entries) = false
rests (answered path entries) = true

-- Whether a request needs neither the cache nor the volume: the root's security.
abbrev answers_itself : Kind → List ℕ → Bool
answers_itself security path = is_root path
answers_itself opening path = false
answers_itself information path = false

-- Whether a request that finds nothing in the cache asks for the extents too, and stores the answer.
abbrev pub stores : Kind → Bool
stores security = true
stores opening = true
stores information = false

-- Whether a cached entry serves the request.
abbrev pub serves : Kind → Option CachedStat → Option CachedStat
serves security cached = cached
serves opening cached = usable cached
serves information cached = cached

module _ (api : Win32) (crate : ApfsApi api) (lru : LruApi) (volume : crate.Volume) where
  abbrev pub get_cached_stat : List ℕ → lru.Cache → Option CachedStat × lru.Cache
  get_cached_stat path cache = lru.get path cache

  abbrev pub put_cached_stat : List ℕ → CachedStat → lru.Cache → lru.Cache
  put_cached_stat path entry cache = lru.put path entry cache

  abbrev pub after_get : Kind → List ℕ → Option CachedStat → Phase
  after_get kind path (some c) = told kind path c
  after_get kind path none = asking kind path

  abbrev pub after_ask : Kind → List ℕ → Result crate.ApfsError Found → Phase
  after_ask kind path (ok found) = storing kind path found
  after_ask kind path (err e) = refused path

  -- The end of `get_file_info`, which stores nothing.
  abbrev pub after_stat : List ℕ → Result crate.ApfsError FileStat → Phase
  after_stat path (ok stat) = informed path stat
  after_stat path (err e) = refused path

  abbrev pub after_list : List ℕ → Result crate.ApfsError (List DirEntry) → Phase
  after_list path (ok entries) = listing path entries
  after_list path (err e) = free

  -- The threads, the cache and the world.
  pub record Serving : Type 0 where
    pub at : ℕ → Phase
    pub cache : lru.Cache
    pub world : api.World

  -- The steps of the requests, in any order, each with the mutex that it holds; `elsewhere` is what the rest of the
  -- program and the system do.
  pub data Step (s : Serving) : Serving → Type 0 where
    starts :
        (i : ℕ) (kind : Kind) (path : List ℕ)
        → rests (s.at i) ≡ true
        → answers_itself kind path ≡ false
        → Step s (record s { at = set_at s.at i (looking kind path) })
    gets :
        (i : ℕ) (kind : Kind) (path : List ℕ)
        → s.at i ≡ looking kind path
        → Step s (record s {
          at = set_at s.at i (after_get kind path (serves kind (get_cached_stat path s.cache).0));
          cache = (get_cached_stat path s.cache).1;
        })
    asks :
        (i : ℕ) (kind : Kind) (path : List ℕ)
        → s.at i ≡ asking kind path
        → stores kind ≡ true
        → Step s (record s {
          at = set_at s.at i (after_ask kind path (crate.stat_and_extents volume path s.world).0);
          world = (crate.stat_and_extents volume path s.world).1;
        })
    stats :
        (i : ℕ) (path : List ℕ)
        → s.at i ≡ asking information path
        → Step s (record s {
          at = set_at s.at i (after_stat path (crate.stat volume path s.world).0);
          world = (crate.stat volume path s.world).1;
        })
    puts :
        (i : ℕ) (kind : Kind) (path : List ℕ) (found : Found)
        → s.at i ≡ storing kind path found
        → Step s (record s {
          at = set_at s.at i (told kind path (resolved found));
          cache = put_cached_stat path (resolved found) s.cache;
        })
    lists :
        (i : ℕ) (path : List ℕ)
        → rests (s.at i) ≡ true
        → Step s (record s {
          at = set_at s.at i (after_list path (crate.list_directory volume path s.world).0);
          world = (crate.list_directory volume path s.world).1;
        })
    caches :
        (i : ℕ) (path : List ℕ) (entries : List DirEntry)
        → s.at i ≡ listing path entries
        → Step s (record s {
          at = set_at s.at i (answered path entries);
          cache = cache_entries api crate lru volume path entries s.cache;
        })
    elsewhere : (w : api.World) → Step s (record s { world = w })

  pub data Reach : Serving → Type 0 where
    start :
        (w : api.World)
        → Reach (record { at = λ i. free; cache = lru.new_cache stat_cache_capacity; world = w })
    next : {s t : Serving} → Reach s → Step s t → Reach t

-- The information of what the volume has: in every field but the two sizes, which for a file are its own, and
-- which agree with each other.
pub record Informs (found : Found) (info : FileInfo) : Type 0 where
  pub same : info ≡ fill_file_info found.0 info.file_size
  pub size : is_directory found.0.kind ≡ false → info.file_size ≡ found.2

module _ (find : List ℕ → Option Found) where
  -- What a thread may have: the answers of the volume, and what a request ends with: the information that it
  -- gives, for `open` of a file with the extents, is that of what the volume has at the path.
  abbrev pub Right : Phase → Type 0
  Right free = Unit {0}
  Right (looking kind path) = Unit {0}
  Right (asking kind path) = Unit {0}
  Right (storing kind path found) = find path ≡ some found
  Right (told kind path c) =
      (found : Found) × (find path ≡ some found)
      × Informs found (fill_file_info c.stat c.file_size)
      × (c.stat.kind ≡ found.0.kind)
      × (kind ≡ opening → is_directory found.0.kind ≡ false → c ≡ resolved found)
  Right (informed path stat) =
      (found : Found) × (find path ≡ some found) × Informs found (fill_file_info stat stat.size)
  Right (refused path) = find path ≡ none
  Right (listing path entries) =
      All
        (λ entry.
          (found : Found) × (find (path_in path entry.name) ≡ some found) × Lists found entry)
        entries
  Right (answered path entries) =
      All
        (λ entry.
          (found : Found) × (find (path_in path entry.name) ≡ some found)
          × Informs found (dir_info_of entry).info)
        entries
