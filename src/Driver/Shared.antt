-- ===== src/Driver/Shared.antt =====
-- src/driver.rs: the reader `raw_disk` behind its mutex, shared by the threads on which WinFsp calls `read`. A
-- positioned read is two calls of the system, a seek and a read, and the file pointer is the handle's.
use arfw.Base.{
  ℕ, ◌-◌, ◌^◌, ◌<◌, ◌≡◌, ◌≢◌, refl, ◌∙◌, Bool, true, false, Option, none, some, List, ◌∷◌, ok, err,
  Result, Result-cases, inl, inr, and_then, Io, ◌>>=◌, pure, map_err, ◌==◌, length, arith,
  i64_bound, set_at, set_at-all,
}
use arfw.Base.Int.{to_i64, to_i64-eq_of_lt}
use arfw.Error.{Error, io, other_windows}
use arfw.Disk.Api.{Win32, IsDisk, file_begin}
use arfw.Disk.Reader.{DiskReader, sector_offset, aligned_len, copy_out, read_at_absolute}
use arfw.Disk.Sector.{slice, filled}
use arfw.Disk.Read.{widened}
pub mod Invariant

-- Where a thread stands: with no request, waiting for the mutex, holding it between two reads, after the seek of
-- a read, and after a read. A read is an offset and a buffer that is not empty.
pub data Pc : Type 0 where
  idle waiting locked : Pc
  sought : ℕ → ℕ → List ℕ → Pc
  answered : ℕ → ℕ → List ℕ → Result Error (ℕ × List ℕ) → Pc

abbrev pub holds : Pc → Bool
holds idle = false
holds waiting = false
holds locked = true
holds (sought o b bs) = true
holds (answered o b bs r) = true

-- It has the mutex, and is not between the two halves of a read.
abbrev between : Pc → Bool
between idle = false
between waiting = false
between locked = true
between (sought o b bs) = false
between (answered o b bs r) = true

module _ (api : Win32) (self : DiskReader api) where
  -- The two halves of `read_at_absolute`, for a buffer that is not empty.
  unfoldable pub seek_half : ℕ → Io api.World Error (Unit {0})
  seek_half absolute = do
    _ ←
        map_err (λ e. io (other_windows e))
          (api.set_file_pointer_ex self.handle (to_i64 (absolute - sector_offset absolute))
            file_begin)
    pure tt

  unfoldable pub read_half : ℕ → List ℕ → Io api.World Error (ℕ × List ℕ)
  read_half absolute buf = do
    let len = aligned_len (sector_offset absolute) (length buf)
    got ← map_err (λ e. io (other_windows e)) (api.read_file self.handle len)
    pure (copy_out got len (sector_offset absolute) buf)

  -- What `?` does after the seek.
  abbrev after_seek : ℕ → ℕ → List ℕ → Result Error (Unit {0}) → Pc
  after_seek o b bs (ok u) = sought o b bs
  after_seek o b bs (err e) = answered o b bs (err e)

  -- Together they are the whole.
  read_at_absolute-halves :
      (absolute b : ℕ) (bs : List ℕ) (w : api.World)
      → read_at_absolute api self absolute (b ∷ bs) w
        ≡ (seek_half absolute >>= λ _. read_half absolute (b ∷ bs)) w
  unfolding read_at_absolute seek_half read_half
  read_at_absolute-halves absolute b bs w =
      elim (Result-cases
        (api.set_file_pointer_ex self.handle (to_i64 (absolute - sector_offset absolute)) file_begin
          w).0) [
            | inl (e, failed) ↦ rw (failed, and_then) refl
            | inr (at, done) ↦ rw (done, and_then) refl
          ]

  -- The threads, the mutex with the thread that has it, and the world.
  pub record Pool : Type 0 where
    pub pc : ℕ → Pc
    pub holder : Option ℕ
    pub world : api.World

  -- The moves of the threads, in any order. `seeks` and `reads` are the loop's calls of the reader, as many as it
  -- makes while it has the mutex; `elsewhere` is what the rest of the system does.
  pub data Step (position : api.World → ℕ) (s : Pool) : Pool → Type 0 where
    asks : (i : ℕ) → s.pc i ≡ idle → Step position s (record s { pc = set_at s.pc i waiting })
    locks :
        (i : ℕ)
        → s.pc i ≡ waiting
        → s.holder ≡ none
        → Step position s (record s { pc = set_at s.pc i locked; holder = some i })
    seeks :
        (i o b : ℕ) (bs : List ℕ)
        → between (s.pc i) ≡ true
        → o < i64_bound
        → length (b ∷ bs) < 2 ^ 31
        → Step position s (record {
          pc = set_at s.pc i (after_seek o b bs (seek_half o s.world).0);
          holder = s.holder;
          world = (seek_half o s.world).1;
        })
    reads :
        (i o b : ℕ) (bs : List ℕ)
        → s.pc i ≡ sought o b bs
        → Step position s (record {
          pc = set_at s.pc i (answered o b bs (read_half o (b ∷ bs) s.world).0);
          holder = s.holder;
          world = (read_half o (b ∷ bs) s.world).1;
        })
    unlocks :
        (i : ℕ)
        → between (s.pc i) ≡ true
        → Step position s (record s { pc = set_at s.pc i idle; holder = none })
    elsewhere :
        (w : api.World) → position w ≡ position s.world → Step position s (record s { world = w })

  pub data Reach (position : api.World → ℕ) : Pool → Type 0 where
    start : (w : api.World) → Reach position (record { pc = λ i. idle; holder = none; world = w })
    next : {s t : Pool} → Reach position s → Step position s t → Reach position t
