-- ===== src/Driver/Handles.antt =====
-- The handles that `ApfsDriver::new` of src/driver.rs opens and closes, on every path.
use arfw.Base.{ℕ, ◌+◌, ◌≤◌, ◌<◌, ◌≡◌, ◌∙◌, ok, err, Result, Result-cases, inl, inr, arith, List}
use arfw.Error.{Error}
use arfw.Disk.Api.{Win32}
use arfw.Disk.Reader.{DiskReader, reopen, reopen_raw, open_with_offset, drop_reader}
use arfw.Disk.Superblock.{read_apfs_container_size}
use arfw.Disk.Handles.{CountsHandles, open_with_offset-Opens, read_apfs_container_size-Keeps}
use arfw.Driver.Apfs.{ApfsApi}
use arfw.Driver.New.{ApfsDriver, new}

-- A volume that is opened keeps the reader that it is given, with its handle, and one that cannot be opened drops
-- it.
pub record CountsVolumes {api : Win32} (crate : ApfsApi api) (counts : CountsHandles api)
    : Type 0 where
  pub handle_of : crate.Volume → api.Handle
  pub opened :
      (reader : DiskReader api) (w w' : api.World) (volume : crate.Volume)
      → crate.open_volume reader w ≡ (ok volume, w')
      → (handle_of volume ≡ reader.handle)
        × ((x : api.Handle) → counts.opens x w' ≡ counts.opens x w)
  pub refused :
      (reader : DiskReader api) (w w' : api.World) (e : crate.ApfsError)
      → crate.open_volume reader w ≡ (err e, w')
      → 0 < counts.opens reader.handle w
      → (x : api.Handle) → counts.opens x w' + counts.same x reader.handle ≡ counts.opens x w

module _ {api : Win32} {crate : ApfsApi api} {counts : CountsHandles api}
    (volumes : CountsVolumes crate counts) where
  -- How often a handle is one of the two that a driver has.
  abbrev pub held : api.Handle → ApfsDriver api crate → ℕ
  held x driver =
      counts.same x driver.raw_disk.handle + counts.same x (volumes.handle_of driver.volume)

  -- The driver has its two handles, one of them of the reader that it is made from, and a failure leaves none.
  abbrev pub Builds :
      api.Handle → api.Handle → api.World → Result Error (ApfsDriver api crate) → api.World → Type 0
  Builds x given w (err e) w' = counts.opens x w' + counts.same x given ≡ counts.opens x w
  Builds x given w (ok driver) w' =
      counts.opens x w' + counts.same x given ≡ counts.opens x w + held x driver

module _ (api : Win32) (crate : ApfsApi api) (counts : CountsHandles api)
    (volumes : CountsVolumes crate counts) where
  -- The start closes what it opens and does not keep.
  pub new-Builds :
      (x : api.Handle) (disk : DiskReader api) (w : api.World)
      → 0 < counts.opens disk.handle w
      → let (result, w') = new api crate disk w in Builds volumes x disk.handle w result w'
  unfolding new reopen reopen_raw drop_reader
  new-Builds x disk w given =
      let (raw, w₁) = open_with_offset api disk.device_path 0 w in
      elim (Result-cases raw) [
        | inl (e, refused) ↦
            let kept : (y : api.Handle) → counts.opens y w₁ ≡ counts.opens y w =
              λ y. rw refused at (open_with_offset-Opens api counts y disk.device_path 0 w) in
            rw (refused, new)
              (counts.closed x disk.handle w₁ (omega (arith, kept disk.handle)) ∙ kept x)
        | inr (raw_disk, made) ↦
            let more : (y : api.Handle)
                → counts.opens y w₁ ≡ counts.opens y w + counts.same y raw_disk.handle =
              λ y. rw made at (open_with_offset-Opens api counts y disk.device_path 0 w) in
            let (meta, w₂) = open_with_offset api disk.device_path disk.offset w₁ in
            elim (Result-cases meta) [
              | inl (e, refused) ↦
                  let kept : (y : api.Handle) → counts.opens y w₂ ≡ counts.opens y w₁ = λ y.
                    rw refused at
                      (open_with_offset-Opens api counts y disk.device_path disk.offset w₁) in
                  let w₃ = api.close_handle raw_disk.handle w₂ in
                  let shut : (y : api.Handle) → counts.opens y w₃ ≡ counts.opens y w = λ y. omega (
                    arith,
                    more y,
                    kept y,
                    counts.closed y raw_disk.handle w₂ (
                        omega (
                          arith,
                          more raw_disk.handle,
                          kept raw_disk.handle,
                          counts.same_self raw_disk.handle,
                        )),
                  ) in
                  rw (made, new)
                    (rw refused
                      (counts.closed x disk.handle w₃ (omega (arith, shut disk.handle)) ∙ shut x))
              | inr (meta_disk, again) ↦
                  let more' : (y : api.Handle)
                      → counts.opens y w₂ ≡ counts.opens y w₁ + counts.same y meta_disk.handle =
                    λ y.
                      rw again at
                        (open_with_offset-Opens api counts y disk.device_path disk.offset w₁) in
                  let w₃ = (read_apfs_container_size api meta_disk w₂).1 in
                  let all : (y : api.Handle)
                      → counts.opens y w₃
                        ≡ counts.opens y w
                          + counts.same y raw_disk.handle
                          + counts.same y meta_disk.handle =
                    λ y. omega (
                      arith,
                      more y,
                      more' y,
                      (read_apfs_container_size-Keeps api counts y meta_disk).at w₂,
                    ) in
                  let (opened, w₄) = crate.open_volume disk w₃ in
                  let has : (y : api.Handle) → counts.same y disk.handle ≤ counts.opens y w =
                    λ y. omega (arith, counts.closed y disk.handle w given) in
                  elim (Result-cases opened) [
                    | inl (e, refused) ↦
                        let dropped =
                          volumes.refused disk w₃ w₄ e (λ i. (refused i, w₄))
                            (omega (arith, all disk.handle, given)) in
                        let w₅ = api.close_handle meta_disk.handle w₄ in
                        let meta = meta_disk.handle in
                        let shut : (y : api.Handle)
                            → counts.opens y w₅ + counts.same y disk.handle
                              ≡ counts.opens y w + counts.same y raw_disk.handle =
                          λ y. omega (
                            arith,
                            all y,
                            dropped y,
                            counts.closed y meta w₄ (
                                omega
                                  (arith, all meta, dropped meta, has meta, counts.same_self meta)),
                          ) in
                        let raw = raw_disk.handle in
                        rw (made, new)
                          (rw again (
                            rw refused (
                              omega (
                                arith,
                                shut x,
                                counts.closed x raw w₅
                                    (omega (arith, shut raw, has raw, counts.same_self raw)),
                              ))))
                    | inr (volume, done) ↦
                        let (kept_reader, kept) =
                          volumes.opened disk w₃ w₄ volume (λ i. (done i, w₄)) in
                        let meta = meta_disk.handle in
                        let shut =
                          counts.closed x meta w₄
                            (omega (arith, all meta, kept meta, counts.same_self meta)) in
                        rw (made, new)
                          (rw again (rw done (rw kept_reader (omega (arith, shut, all x, kept x)))))
                  ]
            ]
      ]

  -- What a driver that is made from a path adds.
  abbrev pub Adds :
      api.Handle → api.World → Result Error (ApfsDriver api crate) → api.World → Type 0
  Adds x w (err e) w' = counts.opens x w' ≡ counts.opens x w
  Adds x w (ok driver) w' = counts.opens x w' ≡ counts.opens x w + held volumes x driver

  pub new-Adds :
      (path : List ℕ) (offset : ℕ) (w : api.World) (disk : DiskReader api)
      → (open_with_offset api path offset w).0 ≡ ok disk
      → (x : api.Handle)
      → let (result, w') = new api crate disk (open_with_offset api path offset w).1 in
        Adds x w result w'
  new-Adds path offset w disk ready x =
      let w₁ = (open_with_offset api path offset w).1 in
      let one : (y : api.Handle)
          → counts.opens y w₁ ≡ counts.opens y w + counts.same y disk.handle =
        λ y. rw ready at (open_with_offset-Opens api counts y path offset w) in
      let builds =
        new-Builds x disk w₁ (omega (arith, one disk.handle, counts.same_self disk.handle)) in
      let (result, w₂) = new api crate disk w₁ in
      elim (Result-cases result) [
        | inl (e, failed) ↦
            let back : counts.opens x w₂ + counts.same x disk.handle ≡ counts.opens x w₁ =
              rw failed at builds in
            rw failed (omega (arith, one x, back))
        | inr (driver, made) ↦
            let two : counts.opens x w₂ + counts.same x disk.handle
                ≡ counts.opens x w₁ + held volumes x driver =
              rw made at builds in
            rw made (omega (arith, one x, two))
      ]
