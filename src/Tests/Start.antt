-- ===== src/Tests/Start.antt =====
-- The theorems about src/utils.rs, src/device_watcher.rs, and the start of src/main.rs and src/driver.rs, at
-- concrete data.
use arfw.Base.{ℕ, ◌+◌, ◌-◌, ◌≡◌, refl, List, [], ◌∷◌, ◌++◌, ok}
use arfw.Base.Text.{codes}
use arfw.Utils.Wide.{path_to_wide, wide_to_path, encode_wide, wide_to_path-path_to_wide}
use arfw.Main.Setup.{dll_directory, dll_directory-encode_wide}
use arfw.Main.Manual.{global_mount_point, global_mount_point-drive_of}
use arfw.Mount.Manager.{mount_point}
use arfw.Watcher.Watch.{WatchApi}
use arfw.Driver.Volume.{IfOpened, new-ReadsFrom}
use arfw.Driver.New.{new}
use arfw.Tests.Image.{reader}
use arfw.Tests.Station.{system, crate}

-- A path with characters of one and of two units.
abbrev path : List ℕ
path = b'C' ∷ b':' ∷ b'\\' ∷ 0xE9 ∷ 0x1F600 ∷ []

wide_to_path-path_to_wide_example : wide_to_path (path_to_wide path) ≡ path
wide_to_path-path_to_wide_example = wide_to_path-path_to_wide path refl

dll_directory-encode_wide_example :
    dll_directory (encode_wide path ++ (0 ∷ 7 ∷ [])) ≡ path_to_wide (path ++ codes "\\bin")
dll_directory-encode_wide_example = dll_directory-encode_wide path (7 ∷ []) refl

global_mount_point-drive_of_example : global_mount_point (b'X' ∷ b':' ∷ []) ≡ mount_point b'X'
global_mount_point-drive_of_example = global_mount_point-drive_of (b'X' ∷ b':' ∷ [])

-- The state has the boxes and the registrations.
abbrev watch : WatchApi (ℕ × ℕ)
watch = record {
  Sender = Unit {0};
  Pointer = Unit {0};
  Notification = Unit {0};
  into_raw = λ sender w. (tt, (w.0 + 1, w.1));
  drop_box = λ p w. (w.0 - 1, w.1);
  deref = λ p w. tt;
  send = λ sender event w. w;
  register = λ p w. (ok tt, (w.0, w.1 + 1));
  unregister = λ handle w. (w.0, w.1 - 1);
}

abbrev boxes : ℕ × ℕ → ℕ
boxes w = w.0

abbrev registrations : ℕ × ℕ → ℕ
registrations w = w.1

new-ReadsFrom_example : IfOpened system crate reader 0 (new system crate reader 0).0
new-ReadsFrom_example = new-ReadsFrom system crate reader 0
