-- ===== src/Tests/Cache.antt =====
-- The theorems about the cache of src/driver.rs at concrete data: a cache that forgets nothing, and a volume
-- with one file.
use arfw.Base.{
  ℕ, ◌≡◌, refl, false, Option, none, some, List, [], ◌∷◌, ok, err, arith, if◌then◌else◌, ltb,
  length, ◌+◌, Bool-cases, inl, inr,
}
use arfw.Base.Int.{pos}
use arfw.Base.Text.{text_eq, text_eq_self, text_eq→eq}
use arfw.Driver.Apfs.{ApfsApi, file, FileStat, DirEntry}
use arfw.Utils.Wide.{decode_lossy}
use arfw.Driver.Info.{u16_to_path}
use arfw.Driver.Read.{FileContext}
use arfw.Driver.Files.{
  CachedStat, LruApi, resolved, opened, open_file, status_not_found, is_directory, child_path,
  is_root, DirBufferApi,
}
use arfw.Driver.Coherent.{IsLru, IsVolume, IsCoherent, Found, path_in, Lists}
use arfw.Monitor.Handles.{All}
use arfw.Driver.Answers.{open_file-finds, open_file-misses}
use arfw.Driver.Serve.{Request, security, opening, listing, serve, serve-IsCoherent}
use arfw.Mount.Manager.{get, insert, is_some}
use arfw.Mount.Keys.{get-insert}
use arfw.Tests.Station.{system}

abbrev pub lru : LruApi
lru = record {
  Cache = List (List ℕ × CachedStat);
  new_cache = λ n. [];
  get = λ k c. (get k c, c);
  put = insert;
  contains = λ k c. is_some (get k c);
}

abbrev pub peek : List (List ℕ × CachedStat) → List ℕ → Option CachedStat
peek c k = get k c

pub lru-IsLru : IsLru lru peek
unfolding get
lru-IsLru = record {
  new_empty = λ n k. refl;
  get_value = λ k c. refl;
  get_keeps = λ k j c. refl;
  put_same = λ k v c. rw (get-insert, text_eq_self);
  put_other = λ k j v x c other e. ground (arith, get-insert k j v c);
}

abbrev pub name : List ℕ
name = b'/' ∷ b'f' ∷ []

abbrev stat : FileStat
stat = record {
  oid = 20;
  kind = file;
  size = 17;
  create_time = pos 1000;
  modify_time = pos 2000;
  uid = 501;
  gid = 20;
  mode = 420;
  nlink = 1;
}

abbrev pub found : Found
found = (stat, (0, 400, 17) ∷ [], 17)

abbrev pub find : List ℕ → Option Found
find path = if text_eq name path then some found else none

abbrev pub entry : DirEntry
entry = record {
  name = b'f' ∷ [];
  oid = 20;
  kind = file;
  size = 17;
  create_time = pos 1000;
  modify_time = pos 2000;
}

abbrev pub crate : ApfsApi system
crate = record {
  Volume = Unit {0};
  ApfsError = Unit {0};
  to_string = λ e. "no entry";
  open_volume = λ reader w. (ok tt, w);
  stat_and_extents = λ volume path w. (elim (find path) [ some f ↦ ok f | none ↦ err tt ], w);
  stat = λ volume path w. (elim (find path) [ some f ↦ ok f.0 | none ↦ err tt ], w);
  list_directory =
      λ volume path w. (if text_eq (b'/' ∷ []) path then ok (entry ∷ []) else err tt, w);
  volume_name = λ volume. b'm' ∷ [];
}

listing_agrees :
    (path : List ℕ) (entries : List DirEntry)
    → (crate.list_directory tt path 0).0 ≡ ok entries
    → All (λ e. (f : Found) × (find (path_in path e.name) ≡ some f) × Lists f e) entries
unfolding child_path text_eq is_root
listing_agrees path entries e = elim (Bool-cases (text_eq (b'/' ∷ []) path)) [
  | inr other ↦ absurd (ground arith)
  | inl same ↦
      let at : b'/' ∷ [] ≡ path = text_eq→eq (b'/' ∷ []) path same in
      let es : entries ≡ entry ∷ [] = ground arith in
      rw (es, ← at)
        (
          (
            found,
            refl,
            record {
              oid = refl;
              kind = refl;
              create_time = refl;
              modify_time = refl;
              size = λ h. refl;
            },
          ),
          tt,
        )
]

pub crate-IsVolume : IsVolume system crate tt find
unfolding child_path text_eq is_root
crate-IsVolume = record {
  finds = λ path w f e. ground arith;
  misses = λ path w e. (tt, ground arith);
  stats = λ path w f e. ground arith;
  sizes = λ path f e h. ground arith;
  lists = λ path w entries e. listing_agrees path entries e;
}

abbrev root : FileContext
root = record { path = b'/' ∷ []; extent_map = []; file_size = 0 }

-- A directory buffer that takes names of up to 255 units and fills nothing.
abbrev dirs : DirBufferApi ℕ
dirs = record {
  DirBuffer = Unit {0};
  Lock = Unit {0};
  acquire = λ dir_buffer reset w. (ok tt, w + 1);
  set_name = λ name. if ltb 255 (length name) then err status_not_found else ok tt;
  write = λ lock dir_info w. (ok tt, w + 1);
  release = λ lock w. w + 1;
  read = λ dir_buffer reset buffer w. ((0, buffer), w);
}

abbrev requests : List (Request (Unit {0}))
requests = listing tt root false (0 ∷ []) ∷ opening name ∷ security name ∷ []

abbrev served : List (List ℕ × CachedStat)
served = (serve system crate lru tt dirs requests [] 0).0

serve-IsCoherent_example : IsCoherent lru peek find served
serve-IsCoherent_example =
    serve-IsCoherent system crate lru tt peek lru-IsLru find crate-IsVolume dirs requests 0

found_name : find (u16_to_path (b'\\' ∷ b'f' ∷ [])) ≡ some found
unfolding text_eq u16_to_path decode_lossy
found_name = refl

open_file-finds_example :
    (open_file system crate lru tt (b'\\' ∷ b'f' ∷ []) served 0).0
    ≡ ok (opened system crate lru tt (u16_to_path (b'\\' ∷ b'f' ∷ [])) (resolved found))
unfolding is_directory
open_file-finds_example =
    open_file-finds system crate lru tt peek lru-IsLru find crate-IsVolume (b'\\' ∷ b'f' ∷ [])
      served 0 found serve-IsCoherent_example found_name refl

missing_name : find (u16_to_path (b'\\' ∷ b'g' ∷ [])) ≡ none
unfolding text_eq u16_to_path decode_lossy
missing_name = refl

open_file-misses_example :
    (open_file system crate lru tt (b'\\' ∷ b'g' ∷ []) served 0).0 ≡ err status_not_found
open_file-misses_example =
    open_file-misses system crate lru tt peek lru-IsLru find crate-IsVolume (b'\\' ∷ b'g' ∷ [])
      served 0 serve-IsCoherent_example missing_name
