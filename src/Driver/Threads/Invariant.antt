-- ===== src/Driver/Threads/Invariant.antt =====
-- The invariant of the concurrent requests of src/driver.rs.
use arfw.Base.{
  ℕ, ◌≡◌, refl, sym, ap, ◌∙◌, true, ◌||◌, Option, none, some, List, [], ◌∷◌, err, set_at,
  set_at-all, Bool-cases, Option-cases, Result-cases, inl, inr,
}
use arfw.Disk.Api.{Win32}
use arfw.Driver.Apfs.{ApfsApi, DirEntry}
use arfw.Driver.Info.{fill_file_info}
use arfw.Driver.Files.{
  CachedStat, LruApi, is_directory, usable, resolved, dir_info_of, stat_cache_capacity,
}
use arfw.Driver.Coherent.{
  IsLru, Found, Describes, Describes-resolved, IsVolume, IsCoherent, get-IsCoherent, put-IsCoherent,
  found_there, Lists,
}
use arfw.Driver.Serve.{cache_entries-IsCoherent}
use arfw.Driver.Threads.{
  Kind, security, opening, information, Phase, looking, told, listing, answered, serves, Informs,
  after_stat, after_list, get_cached_stat, after_get, after_ask, Serving, Step, starts, gets, asks,
  stats, puts, lists, caches, elsewhere, Reach, start, next, Right,
}

module _ (api : Win32) (crate : ApfsApi api) (lru : LruApi) (volume : crate.Volume)
    (peek : lru.Cache → List ℕ → Option CachedStat) (is_lru : IsLru lru peek)
    (find : List ℕ → Option Found) (is_volume : IsVolume api crate volume find)
    (refuses : (path : List ℕ) (w : api.World)
      → find path ≡ none
      → (e : crate.ApfsError) × ((crate.stat volume path w).0 ≡ err e)) where
  record Inv (s : Serving api crate lru volume) : Type 0 where
    pub coherent : IsCoherent lru peek find s.cache
    pub right : (i : ℕ) → Right find (s.at i)

  usable-whole :
      (cached : Option CachedStat) (c : CachedStat)
      → usable cached ≡ some c
      → (cached ≡ some c) × ((c.extents_resolved || is_directory c.stat.kind) ≡ true)
  unfolding usable
  usable-whole none c e = absurd (cc)
  usable-whole (some d) c e = elim (Bool-cases (d.extents_resolved || is_directory d.stat.kind)) [
    | inl serves_it ↦
        let same : d ≡ c = let e' = rw serves_it at e in cc in (ap some same, rw (← same) serves_it)
    | inr stale ↦ absurd (let e' = rw stale at e in cc)
  ]

  Informs-Describes :
      (found : Found) (c : CachedStat)
      → Describes found c
      → Informs found (fill_file_info c.stat c.file_size)
  unfolding fill_file_info
  Informs-Describes found c d = record {
    same = rw (d.oid, d.kind, d.create_time, d.modify_time) refl;
    size = d.size;
  }

  Informs-Lists :
      (found : Found) (entry : DirEntry)
      → Lists found entry
      → Informs found (dir_info_of entry).info
  unfolding fill_file_info dir_info_of
  Informs-Lists found entry l = record {
    same = rw (l.oid, l.kind, l.create_time, l.modify_time) refl;
    size = l.size;
  }

  -- An entry that the cache has serves as the volume's answer would.
  told-Right :
      (kind : Kind) (path : List ℕ) (cached : Option CachedStat) (c : CachedStat)
      → ((d : CachedStat)
          → cached ≡ some d
          → (found : Found) × (find path ≡ some found) × Describes found d)
      → serves kind cached ≡ some c
      → Right find (told kind path c)
  told-Right security path cached c describes e =
      let (found, there, d) = describes c e in
      (found, there, Informs-Describes found c d, d.kind, λ w. absurd (cc))
  told-Right information path cached c describes e =
      let (found, there, d) = describes c e in
      (found, there, Informs-Describes found c d, d.kind, λ w. absurd (cc))
  told-Right opening path cached c describes e =
      let (same, has) = usable-whole cached c e in
      let (found, there, d) = describes c same in
      (
        found,
        there,
        Informs-Describes found c d,
        d.kind,
        λ w is_file. elim (Bool-cases c.extents_resolved) [
          | inl whole_one ↦ d.whole whole_one
          | inr listed_only ↦
              absurd
                (let has' : is_directory c.stat.kind ≡ true = rw listed_only at has in cc (d.kind))
        ],
      )

  told_by_cache :
      (path : List ℕ) (cache : lru.Cache)
      → IsCoherent lru peek find cache
      → (d : CachedStat) → (get_cached_stat api crate lru volume path cache).0 ≡ some d
      → (found : Found) × (find path ≡ some found) × Describes found d
  told_by_cache path cache coherent d e = coherent path d (sym (is_lru.get_value path cache) ∙ e)

  after_get-Right :
      (kind : Kind) (path : List ℕ) (cache : lru.Cache)
      → IsCoherent lru peek find cache
      → Right find (
          after_get api crate lru volume kind path
            (serves kind (get_cached_stat api crate lru volume path cache).0))
  after_get-Right kind path cache coherent =
      let cached = (get_cached_stat api crate lru volume path cache).0 in
      elim (Option-cases (serves kind cached)) [
        | inl miss ↦ rw (miss, after_get) (tt {0})
        | inr (c, hit) ↦
            rw (hit, after_get)
              (told-Right kind path cached c (told_by_cache path cache coherent) hit)
      ]

  after_ask-Right :
      (kind : Kind) (path : List ℕ) (w : api.World)
      → Right find
          (after_ask api crate lru volume kind path (crate.stat_and_extents volume path w).0)
  after_ask-Right kind path w = elim (Result-cases (crate.stat_and_extents volume path w).0) [
    | inr (found, given) ↦
        rw (given, after_ask) (found_there api crate volume find is_volume path w found given)
    | inl (e, failed) ↦
        rw (failed, after_ask)
          (elim (Option-cases (find path)) [
            | inl missing ↦ missing
            | inr (found, there) ↦ absurd (let told = is_volume.finds path w found there in cc)
          ])
  ]

  after_stat-Right :
      (path : List ℕ) (w : api.World)
      → Right find (after_stat api crate lru volume path (crate.stat volume path w).0)
  unfolding fill_file_info
  after_stat-Right path w = elim (Option-cases (find path)) [
    | inl missing ↦ let (e, failed) = refuses path w missing in rw (failed, after_stat) missing
    | inr (found, there) ↦
        rw (is_volume.stats path w found there, after_stat)
          (
            found,
            there,
            record { same = refl; size = λ is_file. is_volume.sizes path found there is_file },
          )
  ]

  after_list-Right :
      (path : List ℕ) (w : api.World)
      → Right find (after_list api crate lru volume path (crate.list_directory volume path w).0)
  after_list-Right path w = elim (Result-cases (crate.list_directory volume path w).0) [
    | inl (e, failed) ↦ rw (failed, after_list) (tt {0})
    | inr (entries, given) ↦ rw (given, after_list) (is_volume.lists path w entries given)
  ]

  answered-Right :
      (path : List ℕ) (entries : List DirEntry)
      → Right find (listing path entries)
      → Right find (answered path entries)
  answered-Right path [] all = tt
  answered-Right path (entry ∷ entries) ((found, there, l), all) =
      ((found, there, Informs-Lists found entry l), answered-Right path entries all)

  -- A step of one thread, after which it has what is right, and the cache is coherent.
  step-Inv :
      (s : Serving api crate lru volume) (i : ℕ) (p : Phase) (cache : lru.Cache) (w : api.World)
      → Inv s
      → Right find p
      → IsCoherent lru peek find cache
      → Inv (record { at = set_at s.at i p; cache = cache; world = w })
  step-Inv s i p cache w inv right coherent = record {
    coherent = coherent;
    right = set_at-all (λ j. Right find) s.at i p right λ j other. inv.right j;
  }

  Step-Inv : {s t : Serving api crate lru volume} → Inv s → Step api crate lru volume s t → Inv t
  Step-Inv {s} inv (starts i kind path free_to asks_others) =
      step-Inv s i (looking kind path) s.cache s.world inv (tt {0}) inv.coherent
  Step-Inv {s} inv (gets i kind path stands) =
      step-Inv s i _ _ s.world inv (after_get-Right kind path s.cache inv.coherent)
        (get-IsCoherent lru peek is_lru find path s.cache inv.coherent)
  Step-Inv {s} inv (asks i kind path stands stored) =
      step-Inv s i _ s.cache _ inv (after_ask-Right kind path s.world) inv.coherent
  Step-Inv {s} inv (stats i path stands) =
      step-Inv s i _ s.cache _ inv (after_stat-Right path s.world) inv.coherent
  Step-Inv {s} inv (puts i kind path found stands) =
      let there : find path ≡ some found = rw stands at (inv.right i) in
      let d = Describes-resolved found in
      step-Inv s i _ _ s.world inv
        (found, there, Informs-Describes found (resolved found) d, refl, λ h is_file. refl)
        (put-IsCoherent lru peek is_lru find path (resolved found) found s.cache there d
          inv.coherent)
  Step-Inv {s} inv (lists i path free_to) =
      step-Inv s i _ s.cache _ inv (after_list-Right path s.world) inv.coherent
  Step-Inv {s} inv (caches i path entries stands) =
      let listed : Right find (listing path entries) = rw stands at (inv.right i) in
      step-Inv s i (answered path entries) _ s.world inv (answered-Right path entries listed) (
        cache_entries-IsCoherent api crate lru volume peek is_lru find is_volume path entries
          s.cache listed inv.coherent)
  Step-Inv {s} inv (elsewhere w) = record { coherent = inv.coherent; right = inv.right }

  Reach-Inv : {s : Serving api crate lru volume} → Reach api crate lru volume s → Inv s
  Reach-Inv (start w) = record {
    coherent = λ path c e. absurd (cc (is_lru.new_empty stat_cache_capacity path));
    right = λ i. tt {0};
  }
  Reach-Inv (next r step) = Step-Inv (Reach-Inv r) step

  -- Over a volume that does not change and refuses what it does not have, and a cache with the documented
  -- behaviour, and in every order in which the steps of concurrent requests can come: each entry of the cache
  -- describes what the volume has at its path; a request for a path's security or information, or to open it,
  -- that ends well has the kind, number and times of what the volume has there, for a file also its size, and, if
  -- it opens the file, its extents; it is refused only where the volume has nothing; and each entry of a listing
  -- has the kind, number and times of what the volume has at the entry's path, and for a file its size. Of a
  -- directory no size is stated: a listing may give another than the directory's own answer.
  pub Reach-Right :
      {s : Serving api crate lru volume}
      → Reach api crate lru volume s
      → IsCoherent lru peek find s.cache × ((i : ℕ) → Right find (s.at i))
  Reach-Right r = let inv = Reach-Inv r in (inv.coherent, inv.right)
