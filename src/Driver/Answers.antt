-- ===== src/Driver/Answers.antt =====
-- The answers of `open` and `get_file_info` of src/driver.rs, against the volume.
use arfw.Base.{
  ℕ, ◌≡◌, ap, ◌∙◌, false, Option, none, some, List, ok, err, Bool-cases, Option-cases, inl, inr,
}
use arfw.Disk.Api.{Win32}
use arfw.Driver.Apfs.{ApfsApi}
use arfw.Driver.Info.{u16_to_path, fill_file_info}
use arfw.Driver.Read.{FileContext}
use arfw.Driver.Files.{
  CachedStat, LruApi, status_not_found, is_directory, usable, resolved, opened, open_file,
  get_file_info,
}
use arfw.Driver.Coherent.{IsLru, Found, Describes, IsVolume, fill_file_info-Describes, IsCoherent}

module _ (api : Win32) (crate : ApfsApi api) (lru : LruApi) (volume : crate.Volume)
    (peek : lru.Cache → List ℕ → Option CachedStat) (is_lru : IsLru lru peek)
    (find : List ℕ → Option Found) (is_volume : IsVolume api crate volume find) where
  -- If the volume, which does not change, has a file at the path that is no directory, and the cache is
  -- coherent, then opening the path gives the file's information, and for later reads its extents and
  -- its size, as the volume has them, whatever the cache holds of it: nothing, a listing's entry, or
  -- the whole.
  pub open_file-finds :
      (file_name : List ℕ) (cache : lru.Cache) (w : api.World) (found : Found)
      → IsCoherent lru peek find cache
      → find (u16_to_path file_name) ≡ some found
      → is_directory found.0.kind ≡ false
      → (open_file api crate lru volume file_name cache w).0
        ≡ ok (opened api crate lru volume (u16_to_path file_name) (resolved found))
  unfolding open_file
  open_file-finds file_name cache w found coherent there is_file =
      let path = u16_to_path file_name in
      let answered = is_volume.finds path w found there in
      elim (Option-cases (peek cache path)) [
        | inl absent ↦
            let miss : (lru.get path cache).0 ≡ none = is_lru.get_value path cache ∙ absent in
            rw (miss, open_file) (rw (answered))
        | inr (c, cached) ↦
            let hit : (lru.get path cache).0 ≡ some c = is_lru.get_value path cache ∙ cached in
            let (other, there', d) = coherent path c cached in
            let same : other ≡ found = cc in
            let d' : Describes found c = rw same at d in
            elim (Bool-cases c.extents_resolved) [
              | inl whole ↦ rw (hit, open_file) (rw (d'.whole whole))
              | inr listed_only ↦
                  let stale : usable (some c) ≡ none = rw (listed_only, d'.kind, is_file, usable) in
                  rw (hit, open_file) (rw (stale) (rw (answered)))
            ]
      ]

  -- If the volume, which does not change, has nothing at the path, and the cache is coherent, then
  -- opening the path fails with the status that the name was not found.
  pub open_file-misses :
      (file_name : List ℕ) (cache : lru.Cache) (w : api.World)
      → IsCoherent lru peek find cache
      → find (u16_to_path file_name) ≡ none
      → (open_file api crate lru volume file_name cache w).0 ≡ err status_not_found
  unfolding open_file usable
  open_file-misses file_name cache w coherent missing =
      let path = u16_to_path file_name in
      let (e, failed) = is_volume.misses path w missing in
      elim (Option-cases (peek cache path)) [
        | inl absent ↦
            let miss : (lru.get path cache).0 ≡ none = is_lru.get_value path cache ∙ absent in
            rw (miss, open_file) (rw (failed))
        | inr (c, cached) ↦ let (other, there, d) = coherent path c cached in absurd (cc)
      ]

  -- If the volume, which does not change, has a file at the open file's path that is no directory, and
  -- the cache is coherent, then the information given of it is the one that the volume has, whether it
  -- comes from the cache or from the volume.
  get_file_info-finds :
      (context : FileContext) (cache : lru.Cache) (w : api.World) (found : Found)
      → IsCoherent lru peek find cache
      → find context.path ≡ some found
      → is_directory found.0.kind ≡ false
      → (get_file_info api crate lru volume context cache w).0 ≡ ok (fill_file_info found.0 found.2)
  unfolding get_file_info
  get_file_info-finds context cache w found coherent there is_file =
      let path = context.path in
      elim (Option-cases (peek cache path)) [
        | inl absent ↦
            let miss : (lru.get path cache).0 ≡ none = is_lru.get_value path cache ∙ absent in
            let answered = is_volume.stats path w found there in
            rw (miss, get_file_info)
              (rw (answered) (
                ap (λ n. ok (fill_file_info found.0 n)) (is_volume.sizes path found there is_file)))
        | inr (c, cached) ↦
            let hit : (lru.get path cache).0 ≡ some c = is_lru.get_value path cache ∙ cached in
            let (other, there', d) = coherent path c cached in
            let same : other ≡ found = cc in
            rw (hit, get_file_info)
              (ap ok (fill_file_info-Describes found c (rw same at d) is_file))
      ]
