-- ===== src/Watcher/Interface.antt =====
-- src/device_watcher.rs as the watcher that src/main.rs makes and drops.
use arfw.Base.{ℕ, ◌≡◌, ◌∙◌, Result-cases, inl, inr}
use arfw.Disk.Api.{Win32}
use arfw.Driver.Apfs.{ApfsApi}
use arfw.Mount.Manager.{HostApi}
use arfw.Daemon.Loop.{WatcherApi}
use arfw.Daemon.Owned.{KeepsHandles}
use arfw.Watcher.Watch.{WatchApi, DeviceWatcher, new_watcher, drop_watcher}

-- The watcher of the daemon, by the sender of the channel that the daemon reads.
abbrev pub watcher_api : (api : Win32) (watch : WatchApi api.World) → watch.Sender → WatcherApi api
watcher_api api watch device_tx = record {
  Watcher = DeviceWatcher watch;
  WatcherError = ℕ;
  new_watcher = new_watcher watch device_tx;
  drop_watcher = drop_watcher watch;
}

-- The heap and the configuration manager have no handle of a file.
pub record KeepsWatch (api : Win32) (watch : WatchApi api.World) (open_handles : api.World → ℕ)
    : Type 0 where
  pub boxed :
      (sender : watch.Sender) (w : api.World)
      → open_handles (watch.into_raw sender w).1 ≡ open_handles w
  pub freed :
      (p : watch.Pointer) (w : api.World) → open_handles (watch.drop_box p w) ≡ open_handles w
  pub registered :
      (p : watch.Pointer) (w : api.World) → open_handles (watch.register p w).1 ≡ open_handles w
  pub unregistered :
      (handle : watch.Notification) (w : api.World)
      → open_handles (watch.unregister handle w) ≡ open_handles w

module _ (api : Win32) (crate : ApfsApi api) (winfsp : HostApi api crate)
    (watch : WatchApi api.World) (open_handles : api.World → ℕ)
    (keeps : KeepsWatch api watch open_handles) where
  new_watcher-keeps :
      (sender : watch.Sender) (w : api.World)
      → open_handles (new_watcher watch sender w).1 ≡ open_handles w
  unfolding new_watcher
  new_watcher-keeps sender w =
      let (p, w₁) = watch.into_raw sender w in
      let w₂ = (watch.register p w₁).1 in
      let same : open_handles w₂ ≡ open_handles w = keeps.registered p w₁ ∙ keeps.boxed sender w in
      elim (Result-cases (watch.register p w₁).0) [
        | inl (code, failed) ↦ rw (failed, new_watcher) (keeps.freed p w₂ ∙ same)
        | inr (handle, made) ↦ rw (made, new_watcher) same
      ]

  pub watcher_api-KeepsHandles :
      (device_tx : watch.Sender)
      → KeepsHandles api crate winfsp open_handles (watcher_api api watch device_tx)
  unfolding drop_watcher
  watcher_api-KeepsHandles device_tx = record {
    made = new_watcher-keeps device_tx;
    dropped = λ watcher w.
        keeps.freed watcher.sender_ptr (watch.unregister watcher.handle w)
        ∙ keeps.unregistered watcher.handle w;
  }
