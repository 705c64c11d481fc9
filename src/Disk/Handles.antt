-- ===== src/Disk/Handles.antt =====
-- The handles that the methods of src/disk.rs open and close.
use arfw.Base.{
  ℕ, zero, suc, ◌+◌, ◌<◌, ◌≡◌, refl, ◌∙◌, List, [], ◌∷◌, ◌++◌, ok, err, Result, Io, ◌>>=◌, and_then,
  pure, throw, map_err, if◌then◌else◌, drop, Bool-cases, Result-cases, inl, inr, ◌==◌,
}
use arfw.Error.{Error}
use arfw.Disk.Api.{Win32, MoveMethod}
use arfw.Base.Int.{ℤ}
use arfw.Disk.Reader
use arfw.Disk.Reader.{
  DiskReader, SeekFrom, start, get_disk_size, open_with_offset, drop_reader, seek, read_exact,
  read_exact_loop,
}
use arfw.Disk.Superblock.{read_block_at, read_apfs_container_size}

-- The documented life of handles. `opens x w` tells how often the handle `x` is open, and `same x y` how often a
-- file that is opened under the handle `y` is open under `x`: once if `x` is `y`, and on Windows never
-- otherwise, which no proof needs. A file that is opened is open under its handle, unless the call fails or
-- gives an invalid handle. Closing a handle that is open undoes this; nothing is said of closing one that is
-- not. Every other call changes nothing.
pub record CountsHandles (api : Win32) : Type 0 where
  pub opens : api.Handle → api.World → ℕ
  pub same : api.Handle → api.Handle → ℕ
  pub same_self : (x : api.Handle) → same x x ≡ 1
  pub opened :
      (x : api.Handle) (path : List ℕ) (w w' : api.World) (handle : api.Handle)
      → api.create_file path w ≡ (ok handle, w')
      → opens x w' ≡ (if api.is_invalid handle then opens x w else opens x w + same x handle)
  pub failed :
      (x : api.Handle) (path : List ℕ) (w w' : api.World) (e : ℕ)
      → api.create_file path w ≡ (err e, w')
      → opens x w' ≡ opens x w
  pub queried :
      (x handle : api.Handle) (w : api.World) → opens x (api.drive_layout handle w).1 ≡ opens x w
  pub measured :
      (x handle : api.Handle) (w : api.World) → opens x (api.disk_geometry handle w).1 ≡ opens x w
  pub sought :
      (x handle : api.Handle) (d : ℤ) (method : MoveMethod) (w : api.World)
      → opens x (api.set_file_pointer_ex handle d method w).1 ≡ opens x w
  pub read :
      (x handle : api.Handle) (n : ℕ) (w : api.World)
      → opens x (api.read_file handle n w).1 ≡ opens x w
  pub closed :
      (x handle : api.Handle) (w : api.World)
      → 0 < opens handle w
      → opens x (api.close_handle handle w) + same x handle ≡ opens x w

module _ (api : Win32) (open_handles : api.World → ℕ) where
  -- A computation that leaves as many handles open as it finds.
  pub record Keeps {E A : Type 0} (m : Io api.World E A) : Type 0 where
    pub at : (w : api.World) → open_handles (m w).1 ≡ open_handles w

  pub Keeps-bind :
      {E A B : Type 0} (m : Io api.World E A) (f : A → Io api.World E B)
      → Keeps m
      → ((a : A) → Keeps (f a))
      → Keeps (m >>= f)
  Keeps-bind m f first then_ = record {
    at = λ w. elim (Result-cases (m w).0) [
      | inl (e, failed) ↦ rw (failed, and_then) (first.at w)
      | inr (a, done) ↦ rw (done, and_then) ((then_ a).at (m w).1 ∙ first.at w)
    ];
  }

  pub Keeps-pure : {E A : Type 0} (a : A) → Keeps {E = E} (pure a)
  Keeps-pure a = record { at = λ w. refl }

  pub Keeps-throw : {E A : Type 0} (e : E) → Keeps {A = A} (throw e)
  Keeps-throw e = record { at = λ w. refl }

  pub Keeps-map_err :
      {E F A : Type 0} (f : E → F) (m : Io api.World E A) → Keeps m → Keeps (map_err f m)
  Keeps-map_err f m k = record { at = k.at }

  pub ruleset keeps_rules = (Keeps-bind, Keeps-pure, Keeps-throw, Keeps-map_err)

-- The reader's handle, or an error and none.
abbrev pub Opens :
    {api : Win32} (counts : CountsHandles api) (x : api.Handle)
    → api.World
    → Result Error (DiskReader api)
    → api.World
    → Type 0
Opens counts x w (err e) w' = counts.opens x w' ≡ counts.opens x w
Opens counts x w (ok reader) w' = counts.opens x w' ≡ counts.opens x w + counts.same x reader.handle

module _ (api : Win32) (counts : CountsHandles api) (x : api.Handle) where
  abbrev open_handles : api.World → ℕ
  open_handles w = counts.opens x w

  Keeps-seek_call :
      (handle : api.Handle) (d : ℤ) (method : MoveMethod)
      → Keeps api open_handles (api.set_file_pointer_ex handle d method)
  Keeps-seek_call handle d method = record { at = counts.sought x handle d method }

  Keeps-read_call : (handle : api.Handle) (n : ℕ) → Keeps api open_handles (api.read_file handle n)
  Keeps-read_call handle n = record { at = counts.read x handle n }

  module _ (self : DiskReader api) where
    read-Keeps : (buf : List ℕ) → Keeps api open_handles (Reader.read api self buf)
    unfolding Reader.read
    read-Keeps [] = search keeps_rules
    read-Keeps (b ∷ bs) = search (keeps_rules, Keeps-seek_call, Keeps-read_call) depth 14

    seek-Keeps : (from : SeekFrom) → Keeps api open_handles (seek api self from)
    unfolding seek
    seek-Keeps from = search (keeps_rules, Keeps-seek_call) depth 8

    read_exact_loop-Keeps :
        (fuel : ℕ) (buf : List ℕ) → Keeps api open_handles (read_exact_loop api self fuel buf)
    unfolding read_exact_loop
    read_exact_loop-Keeps zero buf = search keeps_rules
    read_exact_loop-Keeps (suc fuel) [] = search keeps_rules
    read_exact_loop-Keeps (suc fuel) (b ∷ bs) =
        Keeps-bind api open_handles _ _ (read-Keeps (b ∷ bs)) λ (n, buf).
          Keeps-bind api open_handles _ _
            (record {
              at = λ w. elim (Bool-cases (n == 0)) [
                | inl none_read ↦ rw none_read refl
                | inr some_read ↦ rw some_read ((read_exact_loop-Keeps fuel (drop n buf)).at w)
              ];
            })
            (λ rest. Keeps-pure api open_handles _)

    read_block_at-Keeps :
        (offset : ℕ) (buffer : List ℕ)
        → Keeps api open_handles (read_block_at api self offset buffer)
    unfolding read_block_at read_exact
    read_block_at-Keeps offset buffer =
        search (keeps_rules, seek-Keeps, read_exact_loop-Keeps) depth 8

    pub read_apfs_container_size-Keeps : Keeps api open_handles (read_apfs_container_size api self)
    unfolding read_apfs_container_size
    read_apfs_container_size-Keeps = search (keeps_rules, read_block_at-Keeps) depth 8

  get_disk_size-Keeps : (handle : api.Handle) → Keeps api open_handles (get_disk_size api handle)
  unfolding get_disk_size
  get_disk_size-Keeps handle = record {
    at = λ w. elim (Result-cases (api.disk_geometry handle w).0) [
      | inl (e, failed) ↦ rw (failed, get_disk_size) (counts.measured x handle w)
      | inr ((size, returned), told) ↦ elim (Bool-cases (returned == 0)) [
        | inl nothing ↦ rw (told, get_disk_size) (rw nothing (counts.measured x handle w))
        | inr something ↦ rw (told, get_disk_size) (rw something (counts.measured x handle w))
      ]
    ];
  }

  pub open_with_offset-Opens :
      (path : List ℕ) (offset : ℕ) (w : api.World)
      → let (result, w') = open_with_offset api path offset w in Opens counts x w result w'
  unfolding open_with_offset
  open_with_offset-Opens path offset w =
      let (result, w') = api.create_file (path ++ (0 ∷ [])) w in
      elim (Result-cases result) [
        | inl (e, refused) ↦
            rw (refused, open_with_offset)
              (counts.failed x (path ++ (0 ∷ [])) w w' e (λ i. (refused i, w')))
        | inr (handle, made) ↦
            let count = counts.opened x (path ++ (0 ∷ [])) w w' handle (λ i. (made i, w')) in
            elim (Bool-cases (api.is_invalid handle)) [
              | inl invalid ↦ rw (made, open_with_offset) (rw invalid (rw invalid at count))
              | inr valid ↦
                  rw (made, open_with_offset)
                    (rw valid ((get_disk_size-Keeps handle).at w' ∙ (rw valid at count)))
            ]
      ]
