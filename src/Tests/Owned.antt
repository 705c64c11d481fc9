-- ===== src/Tests/Owned.antt =====
-- The data of the theorems about handles: a system that numbers the handles that it gives, whose state is the next
-- number and the handles that are open, with one disk that has an APFS partition.
use arfw.Base.{
  ℕ, ◌+◌, ◌≤◌, ◌<◌, ◌≡◌, ◌≢◌, Result, ap, refl, Bool, true, false, List, [], ◌∷◌, ◌++◌, ok, err,
  arith, if◌then◌else◌, ◌==◌, ==_iff, Bool-cases, inl, inr,
}
use arfw.Base.Text.{text_eq}
use arfw.Disk.Api.{Win32}
use arfw.Disk.Reader.{DiskReader}
use arfw.Disk.Handles.{CountsHandles}
use arfw.Driver.Apfs.{ApfsApi}
use arfw.Driver.New.{ApfsDriver}
use arfw.Driver.Handles.{CountsVolumes, held}
use arfw.Monitor.Scan.{drive_path}
use arfw.Mount.Manager.{HostApi}
use arfw.Mount.Owned.{CountsHosts}
use arfw.Daemon.Loop.{Turn, event, timeout, added, removed, WatcherApi}
use arfw.Daemon.Owned.{KeepsHandles}
use arfw.Tests.Image.{layout}

-- A handle has its number and the path of its file.
abbrev pub Handle : Type 0
Handle = ℕ × List ℕ

abbrev pub Handles : Type 0
Handles = ℕ × List Handle

abbrev pub one_if : Bool → ℕ
one_if true = 1
one_if false = 0

abbrev pub same : Handle → Handle → ℕ
same x y = one_if (x.0 == y.0)

abbrev pub number : Handle → List Handle → ℕ
number x [] = 0
number x (y ∷ open_handles) = same x y + number x open_handles

-- The first of the open handles that is this one is closed.
abbrev pub close : Handle → List Handle → List Handle
close x [] = []
close x (y ∷ open_handles) =
    let rest = close x open_handles in if x.0 == y.0 then open_handles else (y ∷ rest)

pub ok_pair :
    {E A W : Type 0} (a b : A) (w w' : W)
    → ◌≡◌ {A = Result E A × W} (ok a, w) (ok b, w')
    → (b ≡ a) × (w' ≡ w)
ok_pair a b w w' e = (cc, cc)

pub ok-ne-err :
    {E A W : Type 0} (a : A) (x : E) (w w' : W) → ◌≢◌ {A = Result E A × W} (ok a, w) (err x, w')
ok-ne-err a x w w' e = cc

pub close-number :
    (x y : Handle) (open_handles : List Handle)
    → 0 < number y open_handles
    → number x (close y open_handles) + same x y ≡ number x open_handles
close-number x y [] h = absurd (omega (arith, h))
close-number x y (z ∷ open_handles) h = elim (Bool-cases (y.0 == z.0)) [
  | inl it ↦
      let e : y.0 ≡ z.0 = (==_iff y.0 z.0).0 it in
      rw it (let both : same x y ≡ same x z = ap (λ n. one_if (x.0 == n)) e in omega (arith, both))
  | inr other ↦
      let more : 0 < number y open_handles = let h' = rw other at h in omega (arith, h') in
      rw other (omega (arith, close-number x y open_handles more))
]

abbrev pub counter : Win32
counter = record {
  World = Handles;
  Handle = Handle;
  create_file = λ path (n, hs). (ok (n, path), (n + 1, (n, path) ∷ hs));
  is_invalid = λ handle. false;
  last_os_error = λ w. 0;
  set_file_pointer_ex = λ handle d method w. (err 1, w);
  read_file = λ handle n w. (err 1, w);
  disk_geometry = λ handle w. (err 1, w);
  drive_layout =
      λ handle w. (if text_eq handle.1 (drive_path 3 ++ (0 ∷ [])) then ok layout else err 1, w);
  get_drive_type = λ path w. 1;
  close_handle = λ handle (n, hs). (n, close handle hs);
}

pub same_self : (x : Handle) → same x x ≡ 1
same_self x = rw ((==_iff x.0 x.0).1 refl) refl

abbrev pub handle_counts : CountsHandles counter
handle_counts = record {
  opens = λ x w. number x w.1;
  same = same;
  same_self = same_self;
  opened = λ x path w w' handle e.
      let (given, state) = ok_pair {E = ℕ} (w.0, path) handle (w.0 + 1, (w.0, path) ∷ w.1) w' e in
      rw state (rw given (omega arith));
  failed = λ x path w w' e r. absurd (ok-ne-err (w.0, path) e (w.0 + 1, (w.0, path) ∷ w.1) w' r);
  queried = λ x handle w. refl;
  measured = λ x handle w. refl;
  sought = λ x handle d method w. refl;
  read = λ x handle n w. refl;
  closed = λ x handle w h. close-number x handle w.1 h;
}

abbrev pub crate : ApfsApi counter
crate = record {
  Volume = DiskReader counter;
  ApfsError = Unit {0};
  to_string = λ e. "no volume";
  open_volume = λ reader w. (ok reader, w);
  stat_and_extents = λ volume path w. (err tt, w);
  stat = λ volume path w. (err tt, w);
  list_directory = λ volume path w. (ok [], w);
  volume_name = λ volume. b'm' ∷ [];
}

abbrev pub volume_counts : CountsVolumes crate handle_counts
volume_counts = record {
  handle_of = λ volume. volume.handle;
  opened = λ reader w w' volume e.
      let (its, state) = ok_pair {E = Unit {0}} reader volume w w' e in
      (ap (λ v. v.handle) its, λ x. rw state refl);
  refused = λ reader w w' x e. absurd (ok-ne-err reader x w w' e);
}

-- A host that is dropped drops its driver, whose two handles are closed.
abbrev pub drop_driver : ApfsDriver counter crate → Handles → Handles
drop_driver driver (n, hs) = (n, close driver.volume.handle (close driver.raw_disk.handle hs))

pub drop_driver-number :
    (driver : ApfsDriver counter crate) (w : Handles)
    → ((x : Handle) → held volume_counts x driver ≤ number x w.1)
    → (x : Handle) → number x (drop_driver driver w).1 + held volume_counts x driver ≡ number x w.1
drop_driver-number driver (n, hs) has x =
    let raw = driver.raw_disk.handle in
    let meta = driver.volume.handle in
    let first : (y : Handle) → number y (close raw hs) + same y raw ≡ number y hs = λ y.
      close-number y raw hs (
        let h : same raw raw + same raw meta ≤ number raw hs = has raw in
        omega (arith, h, same_self raw)) in
    let second : number x (close meta (close raw hs)) + same x meta ≡ number x (close raw hs) =
      close-number x meta (close raw hs) (
        let h : same meta raw + same meta meta ≤ number meta hs = has meta in
        omega (arith, h, first meta, same_self meta)) in
    omega (arith, first x, second)

abbrev pub winfsp : HostApi counter crate
winfsp = record {
  Host = ApfsDriver counter crate;
  WinFspError = Unit {0};
  new_host = λ driver w. (ok driver, w);
  mount = λ host point w. (ok tt, w);
  start = λ host w. (ok tt, w);
  drop_host = drop_driver;
}

abbrev pub host_counts : CountsHosts winfsp volume_counts
host_counts = record {
  driver_of = λ host. host;
  made = λ driver w w' host e.
      let (its, state) = ok_pair {E = Unit {0}} driver host w w' e in (its, λ x. rw state refl);
  refused = λ driver w w' x e. absurd (ok-ne-err driver x w w' e);
  mounted = λ x host point w. refl;
  started = λ x host w. refl;
  dropped = drop_driver-number;
}

abbrev pub watch : WatcherApi counter
watch = record {
  Watcher = Unit {0};
  WatcherError = Unit {0};
  new_watcher = λ w. (ok tt, w);
  drop_watcher = λ watcher w. w;
}

pub watch-KeepsHandles : (x : Handle) → KeepsHandles counter crate winfsp (λ w. number x w.1) watch
watch-KeepsHandles x = record { made = λ w. refl; dropped = λ watcher w. refl }

abbrev pub turns : List Turn
turns = event added ∷ timeout false ∷ event removed ∷ timeout true ∷ []
