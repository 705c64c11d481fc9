-- ===== src/Driver/Coherent.antt =====
-- The cache of src/driver.rs, against a volume that does not change.
use arfw.Base.{
  ℕ, ◌≡◌, refl, sym, ap, ◌∙◌, true, false, Option, none, some, List, [], ◌∷◌, ◌++◌, ok, err, ◌==◌,
  if◌then◌else◌, arith, Bool-cases, Option-cases, inl, inr,
}
use arfw.Base.Text.{text_eq, text_eq→eq}
use arfw.Disk.Api.{Win32}
use arfw.Driver.Apfs.{ApfsApi, FileStat, DirEntry}
use arfw.Driver.Extents.{ExtentEntry}
use arfw.Driver.Info.{fill_file_info}
use arfw.Driver.Files.{CachedStat, LruApi, is_directory, is_root, resolved, child_path, listed}
use arfw.Monitor.Handles.{All}

-- The documented behaviour of the cache, by what an entry would be: reading changes no entry, a stored
-- entry is there, and no other entry appears or changes, though some may leave.
pub record IsLru (lru : LruApi) (peek : lru.Cache → List ℕ → Option CachedStat) : Type 0 where
  pub new_empty : (n : ℕ) (k : List ℕ) → peek (lru.new_cache n) k ≡ none
  pub get_value : (k : List ℕ) (c : lru.Cache) → (lru.get k c).0 ≡ peek c k
  pub get_keeps : (k j : List ℕ) (c : lru.Cache) → peek (lru.get k c).1 j ≡ peek c j
  pub put_same : (k : List ℕ) (v : CachedStat) (c : lru.Cache) → peek (lru.put k v c) k ≡ some v
  pub put_other :
      (k j : List ℕ) (v x : CachedStat) (c : lru.Cache)
      → text_eq k j ≡ false
      → peek (lru.put k v c) j ≡ some x
      → peek c j ≡ some x

abbrev pub Found : Type 0
Found = FileStat × List ExtentEntry × ℕ

-- An entry of the cache describes what the volume has found at its path.
pub record Describes (found : Found) (c : CachedStat) : Type 0 where
  pub oid : c.stat.oid ≡ found.0.oid
  pub kind : c.stat.kind ≡ found.0.kind
  pub create_time : c.stat.create_time ≡ found.0.create_time
  pub modify_time : c.stat.modify_time ≡ found.0.modify_time
  pub size : is_directory found.0.kind ≡ false → c.file_size ≡ found.2
  pub whole : c.extents_resolved ≡ true → c ≡ resolved found

-- A listing's entry agrees with what the volume has.
pub record Lists (found : Found) (entry : DirEntry) : Type 0 where
  pub oid : entry.oid ≡ found.0.oid
  pub kind : entry.kind ≡ found.0.kind
  pub create_time : entry.create_time ≡ found.0.create_time
  pub modify_time : entry.modify_time ≡ found.0.modify_time
  pub size : is_directory found.0.kind ≡ false → entry.size ≡ found.2

-- The path of an entry of a directory: a slash is between the two, if the directory is not the root.
abbrev pub path_in : List ℕ → List ℕ → List ℕ
path_in [] name = b'/' ∷ name
path_in (c ∷ []) name = if c == b'/' then b'/' ∷ name else c ∷ b'/' ∷ name
path_in (c ∷ d ∷ rest) name = c ∷ d ∷ (rest ++ (b'/' ∷ name))

-- A volume that does not change: it answers from `find`, and its listings agree with that.
pub record IsVolume (api : Win32) (crate : ApfsApi api) (volume : crate.Volume)
    (find : List ℕ → Option Found) : Type 0 where
  pub finds :
      (path : List ℕ) (w : api.World) (found : Found)
      → find path ≡ some found
      → (crate.stat_and_extents volume path w).0 ≡ ok found
  pub misses :
      (path : List ℕ) (w : api.World)
      → find path ≡ none
      → (e : crate.ApfsError) × ((crate.stat_and_extents volume path w).0 ≡ err e)
  pub stats :
      (path : List ℕ) (w : api.World) (found : Found)
      → find path ≡ some found
      → (crate.stat volume path w).0 ≡ ok found.0
  pub sizes :
      (path : List ℕ) (found : Found)
      → find path ≡ some found
      → is_directory found.0.kind ≡ false
      → found.0.size ≡ found.2
  pub lists :
      (path : List ℕ) (w : api.World) (entries : List DirEntry)
      → (crate.list_directory volume path w).0 ≡ ok entries
      → All
          (λ entry.
            (found : Found) × (find (path_in path entry.name) ≡ some found) × Lists found entry)
          entries

pub Describes-resolved : (found : Found) → Describes found (resolved found)
Describes-resolved found = record {
  oid = refl;
  kind = refl;
  create_time = refl;
  modify_time = refl;
  size = λ h. refl;
  whole = λ h. refl;
}

pub Describes-listed :
    (found : Found) (entry : DirEntry) → Lists found entry → Describes found (listed entry)
Describes-listed found entry l = record {
  oid = l.oid;
  kind = l.kind;
  create_time = l.create_time;
  modify_time = l.modify_time;
  size = l.size;
  whole = λ h. absurd (cc);
}

pub child_path-path_in : (path name : List ℕ) → child_path path name ≡ path_in path name
unfolding child_path is_root text_eq
child_path-path_in [] name = refl
child_path-path_in (c ∷ []) name = ground arith
child_path-path_in (c ∷ d ∷ rest) name = ground arith

pub fill_file_info-Describes :
    (found : Found) (c : CachedStat)
    → Describes found c
    → is_directory found.0.kind ≡ false
    → fill_file_info c.stat c.file_size ≡ fill_file_info found.0 found.2
unfolding fill_file_info
fill_file_info-Describes found c d h = rw (d.oid, d.kind, d.create_time, d.modify_time, d.size h)

-- Every entry of the cache describes what the volume has there.
abbrev pub IsCoherent :
    (lru : LruApi)
    → (lru.Cache → List ℕ → Option CachedStat)
    → (List ℕ → Option Found)
    → lru.Cache
    → Type 0
IsCoherent lru peek find cache =
    (path : List ℕ) (c : CachedStat)
    → peek cache path ≡ some c
    → (found : Found) × (find path ≡ some found) × Describes found c

module _ (lru : LruApi) (peek : lru.Cache → List ℕ → Option CachedStat) (is_lru : IsLru lru peek)
    (find : List ℕ → Option Found) where
  pub get-IsCoherent :
      (k : List ℕ) (cache : lru.Cache)
      → IsCoherent lru peek find cache
      → IsCoherent lru peek find (lru.get k cache).1
  get-IsCoherent k cache coherent =
      λ path c e. coherent path c (sym (is_lru.get_keeps k path cache) ∙ e)

  pub put-IsCoherent :
      (k : List ℕ) (v : CachedStat) (found : Found) (cache : lru.Cache)
      → find k ≡ some found
      → Describes found v
      → IsCoherent lru peek find cache
      → IsCoherent lru peek find (lru.put k v cache)
  put-IsCoherent k v found cache there d coherent = λ path c e. elim (Bool-cases (text_eq k path)) [
    | inr other ↦ coherent path c (is_lru.put_other k path v c cache other e)
    | inl same ↦
        let at : k ≡ path = text_eq→eq k path same in
        let stored : peek (lru.put k v cache) path ≡ some v =
          rw (← at) (is_lru.put_same k v cache) in
        let is : c ≡ v = cc in (found, rw (← at) there, rw is d)
  ]

module _ (api : Win32) (crate : ApfsApi api) (volume : crate.Volume) (find : List ℕ → Option Found)
    (is_volume : IsVolume api crate volume find) where
  -- What the volume answers is what it has.
  pub found_there :
      (path : List ℕ) (w : api.World) (found : Found)
      → (crate.stat_and_extents volume path w).0 ≡ ok found
      → find path ≡ some found
  found_there path w found e = elim (Option-cases (find path)) [
    | inl missing ↦ let (x, failed) = is_volume.misses path w missing in absurd (cc)
    | inr (other, there) ↦ there ∙ ap some (let answered = is_volume.finds path w other there in cc)
  ]
