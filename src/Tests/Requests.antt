-- ===== src/Tests/Requests.antt =====
-- The theorem about concurrent requests of src/driver.rs at a concrete run: one thread opens a file, and another
-- caches a listing of its directory between the first one's look into the cache and its store.
use arfw.Base.{ℕ, arith, ◌≡◌, refl, none, err, List, [], ◌∷◌}
use arfw.Base.Text.{text_eq}
use arfw.Driver.Files.{child_path, cache_entries, is_root, usable, resolved}
use arfw.Driver.Coherent.{IsCoherent}
use arfw.Driver.Threads.{
  Serving, starts, gets, asks, puts, lists, caches, start, next, Reach, Right, told, answered,
  opening, information,
}
use arfw.Mount.Manager.{get, insert, remove}
use arfw.Driver.Threads.Invariant.{Reach-Right}
use arfw.Tests.Station.{system}
use arfw.Tests.Cache.{lru, peek, name, found, find, entry, crate, lru-IsLru, crate-IsVolume}

-- A third thread then asks for the file's information, which the cache has.
run :
    (s : Serving system crate lru tt) × Reach system crate lru tt s
    × (s.at 0 ≡ told opening name (resolved found))
    × (s.at 1 ≡ answered (b'/' ∷ []) (entry ∷ []))
    × (s.at 2 ≡ told information name (resolved found))
unfolding text_eq get insert remove child_path cache_entries is_root usable
run =
    let looks = next (start 0) (starts 0 opening name refl refl) in
    let misses = next looks (gets 0 opening name refl) in
    let other_lists = next misses (lists 1 (b'/' ∷ []) refl) in
    let asked = next other_lists (asks 0 opening name refl refl) in
    let other_caches = next asked (caches 1 (b'/' ∷ []) (entry ∷ []) refl) in
    let stored = next other_caches (puts 0 opening name found refl) in
    let third_looks = next stored (starts 2 information name refl refl) in
    let third_hits = next third_looks (gets 2 information name refl) in
    (_, third_hits, refl, refl, refl)

-- The volume refuses what it does not have.
crate-refuses :
    (path : List ℕ) (w : ℕ) → find path ≡ none → (e : Unit {0}) × ((crate.stat tt path w).0 ≡ err e)
crate-refuses path w missing = (tt, ground arith)

Reach-Right_example : IsCoherent lru peek find run.0.cache × ((i : ℕ) → Right find (run.0.at i))
Reach-Right_example =
    Reach-Right system crate lru tt peek lru-IsLru find crate-IsVolume crate-refuses run.1
