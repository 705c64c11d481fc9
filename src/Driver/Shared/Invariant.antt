-- ===== src/Driver/Shared/Invariant.antt =====
-- The invariant of the threads that share the reader in src/driver.rs.
use arfw.Base.{
  ℕ, ◌-◌, ◌^◌, ◌<◌, ◌≡◌, ◌≢◌, refl, ◌∙◌, true, false, Option, none, some, List, ◌∷◌, ok, Result,
  ◌==◌, length, arith, i64_bound, set_at, set_at-all,
}
use arfw.Base.Int.{to_i64-eq_of_lt}
use arfw.Error.{Error}
use arfw.Disk.Api.{Win32, IsDisk}
use arfw.Disk.Reader.{DiskReader, sector_offset}
use arfw.Disk.Sector.{slice, filled}
use arfw.Disk.Read.{widened}
use arfw.Driver.Shared.{
  Pc, idle, waiting, locked, sought, answered, holds, between, seek_half, read_half, Pool, Step,
  asks, locks, seeks, reads, unlocks, elsewhere, Reach, start, next,
}

module _ (api : Win32) (self : DiskReader api) (bytes : List ℕ) (position : api.World → ℕ)
    (disk : IsDisk api self.handle bytes position) where
  seek_half_lem :
      (o : ℕ) (w : api.World)
      → o < i64_bound
      → (w' : api.World) × (seek_half api self o w ≡ (ok tt, w'))
        × (position w' ≡ o - sector_offset o)
  unfolding seek_half
  seek_half_lem o w small =
      let (w', done, at) = disk.seek_begin w (o - sector_offset o) (omega arith) in
      (w', rw (to_i64-eq_of_lt (o - sector_offset o) (omega arith), done) refl, at)

  read_half_lem :
      (o : ℕ) (buf : List ℕ) (w : api.World)
      → position w ≡ o - sector_offset o
      → length buf < 2 ^ 31
      → let s = slice bytes o (length buf) in
        (w' : api.World) × (read_half api self o buf w ≡ (ok (length s, filled s buf), w'))
  unfolding read_half
  read_half_lem o buf w at short =
      let (got, w', done, copied) = widened api self bytes position disk o buf w w at short in
      (w', rw (done, copied) refl)

  -- The answer that a read gets when no other thread runs.
  abbrev pub alone : ℕ → List ℕ → Result Error (ℕ × List ℕ)
  alone o buf = let s = slice bytes o (length buf) in ok (length s, filled s buf)

  -- What must hold where a thread stands: after its seek the file pointer is where it left it, and after its
  -- read it has the answer of a read alone.
  abbrev Fits : api.World → Pc → Type 0
  Fits w idle = Unit
  Fits w waiting = Unit
  Fits w locked = Unit
  Fits w (sought o b bs) = (position w ≡ o - sector_offset o) × (length (b ∷ bs) < 2 ^ 31)
  Fits w (answered o b bs r) = r ≡ alone o (b ∷ bs)

  record Inv (s : Pool api self) : Type 0 where
    pub exclusive : (i : ℕ) → holds (s.pc i) ≡ true → s.holder ≡ some i
    pub fits : (i : ℕ) → Fits s.world (s.pc i)

  -- The file pointer matters to a thread that has the mutex only.
  Fits-other : (w w' : api.World) (p : Pc) → holds p ≢ true → Fits w p → Fits w' p
  Fits-other w w' idle free f = tt
  Fits-other w w' waiting free f = tt
  Fits-other w w' locked free f = tt
  Fits-other w w' (sought o b bs) free f = absurd (free refl)
  Fits-other w w' (answered o b bs r) free f = f

  Fits-position : (w w' : api.World) (p : Pc) → position w' ≡ position w → Fits w p → Fits w' p
  Fits-position w w' idle same f = tt
  Fits-position w w' waiting same f = tt
  Fits-position w w' locked same f = tt
  Fits-position w w' (sought o b bs) same (at, short) = (same ∙ at, short)
  Fits-position w w' (answered o b bs r) same f = f

  between-holds : (p : Pc) → between p ≡ true → holds p ≡ true
  between-holds idle b = b
  between-holds waiting b = b
  between-holds locked b = refl
  between-holds (sought o c bs) b = refl
  between-holds (answered o c bs r) b = refl

  -- A move of one thread.
  move-Inv :
      (s : Pool api self) (i : ℕ) (p : Pc) (h : Option ℕ) (w : api.World)
      → (holds p ≡ true → h ≡ some i)
      → Fits w p
      → ((j : ℕ) → (j == i) ≡ false → (holds (s.pc j) ≡ true → h ≡ some j) × Fits w (s.pc j))
      → Inv (record { pc = set_at s.pc i p; holder = h; world = w })
  move-Inv s i p h w mine f others = record {
    exclusive =
        set_at-all (λ j q. holds q ≡ true → h ≡ some j) s.pc i p mine λ j other. (others j other).0;
    fits = set_at-all (λ j. Fits w) s.pc i p f λ j other. (others j other).1;
  }

  others-free :
      (s : Pool api self) (i j : ℕ)
      → Inv s
      → s.holder ≡ some i
      → (j == i) ≡ false
      → holds (s.pc j) ≢ true
  others-free s i j inv has other h = ground (arith, has, other, inv.exclusive j h)

  -- A move of the thread that has the mutex, after which it has it or gives it back.
  holder-Inv :
      (s : Pool api self) (i : ℕ) (p : Pc) (h : Option ℕ) (w : api.World)
      → Inv s
      → holds (s.pc i) ≡ true
      → (holds p ≡ true → h ≡ some i)
      → Fits w p
      → Inv (record { pc = set_at s.pc i p; holder = h; world = w })
  holder-Inv s i p h w inv has mine f = move-Inv s i p h w mine f λ j other.
      let free = others-free s i j inv (inv.exclusive i has) other in
      ((λ b. absurd (free b)), Fits-other s.world w (s.pc j) free (inv.fits j))

  Step-Inv : {s t : Pool api self} → Inv s → Step api self position s t → Inv t
  Step-Inv {s} inv (asks i at) =
      move-Inv s i waiting s.holder s.world (λ b. absurd (cc)) tt
        λ j other. (inv.exclusive j, inv.fits j)
  Step-Inv {s} inv (locks i at open_) =
      move-Inv s i locked (some i) s.world (λ b. refl) tt
        λ j other. ((λ b. absurd (cc (open_, inv.exclusive j b))), inv.fits j)
  Step-Inv {s} inv (seeks i o b bs at small short) =
      let has = between-holds (s.pc i) at in
      let (w, done, there) = seek_half_lem o s.world small in
      rw done (
        holder-Inv s i (sought o b bs) s.holder w inv has (λ h. inv.exclusive i has) (there, short))
  Step-Inv {s} inv (reads i o b bs stands) =
      let has : holds (s.pc i) ≡ true = rw stands refl in
      let (there, short) = rw stands at (inv.fits i) in
      let (w, done) = read_half_lem o (b ∷ bs) s.world there short in
      rw done (
        holder-Inv s i (answered o b bs (alone o (b ∷ bs))) s.holder w inv has
          (λ h. inv.exclusive i has) refl)
  Step-Inv {s} inv (unlocks i at) =
      holder-Inv s i idle none s.world inv (between-holds (s.pc i) at) (λ b. absurd (cc)) tt
  Step-Inv {s} inv (elsewhere w same) = record {
    exclusive = inv.exclusive;
    fits = λ j. Fits-position s.world w (s.pc j) same (inv.fits j);
  }

  Reach-Inv : {s : Pool api self} → Reach api self position s → Inv s
  Reach-Inv (start w) = record { exclusive = λ i b. absurd (cc); fits = λ i. tt }
  Reach-Inv (next r step) = Step-Inv (Reach-Inv r) step

  -- Over a disk with the documented behaviour, however the threads that share the reader interleave, and
  -- whatever the rest of the system does that leaves the reader's file pointer where it is: two threads never
  -- have the mutex at once, and a thread's read below 2^63 into a buffer shorter than 2^31 bytes gets the bytes
  -- of the disk at its offset, as a read gets them that runs alone.
  pub Reach-alone :
      {s : Pool api self}
      → Reach api self position s
      → ((i j : ℕ) → holds (s.pc i) ≡ true → holds (s.pc j) ≡ true → i ≡ j)
        × ((i o b : ℕ) (bs : List ℕ) (r : Result Error (ℕ × List ℕ))
            → s.pc i ≡ answered o b bs r
            → r ≡ alone o (b ∷ bs))
  Reach-alone {s} r =
      let inv = Reach-Inv r in
      (
        λ i j h h'. ground (arith, inv.exclusive i h, inv.exclusive j h'),
        λ i o b bs r stands. rw stands at (inv.fits i),
      )
