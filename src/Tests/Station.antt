-- ===== src/Tests/Station.antt =====
-- The crates over the disk image: volumes open, and hosts start.
use arfw.Base.{refl, ok, err, [], ◌∷◌}
use arfw.Driver.Apfs.{ApfsApi}
use arfw.Mount.Manager.{HostApi, mount_partition, open_host}
use arfw.Disk.Api.{Win32}
use arfw.Disk.Reader.{open_with_offset, reopen, reopen_raw}
use arfw.Driver.New.{new}
use arfw.Monitor.Scan.{find_available_drive_letters}
use arfw.Daemon.Sync.{IsHealthy}
use arfw.Daemon.Loop.{WatcherApi}
use arfw.Tests.Image.{image, disk}

abbrev pub system : Win32
system = image disk

abbrev pub crate : ApfsApi system
crate = record {
  Volume = Unit {0};
  ApfsError = Unit {0};
  to_string = λ e. "no volume";
  open_volume = λ reader w. (ok tt, w);
  stat_and_extents = λ volume path w. (err tt, w);
  stat = λ volume path w. (err tt, w);
  list_directory = λ volume path w. (ok [], w);
  volume_name = λ volume. b'm' ∷ [];
}

abbrev pub winfsp : HostApi system crate
winfsp = record {
  Host = Unit {0};
  WinFspError = Unit {0};
  new_host = λ driver w. (ok tt, w);
  mount = λ host point w. (ok tt, w);
  start = λ host w. (ok tt, w);
  drop_host = λ host w. w;
}

abbrev pub watch : WatcherApi system
watch = record {
  Watcher = Unit {0};
  WatcherError = Unit {0};
  new_watcher = λ w. (ok tt, w);
  drop_watcher = λ watcher w. w;
}

pub station-IsHealthy : IsHealthy system crate winfsp
unfolding mount_partition open_host new open_with_offset reopen reopen_raw
    find_available_drive_letters
station-IsHealthy = record {
  letter_free = λ w e. cc e;
  mount_ok = λ mounts partition letter w. refl;
}
