-- ===== src/Watcher/Watch.antt =====
-- src/device_watcher.rs: `DeviceWatcher`, its callback and its `Drop`. The sender is moved to the heap while
-- the notification is registered, and its address is the callback's context. The filter, a constant for disk devices, is left out.
use arfw.Base.{ℕ, ◌+◌, ◌-◌, ◌≡◌, Option, none, some, ok, err, Result, Io}
use arfw.Daemon.Loop.{DeviceEvent, added, removed}

pub data NotifyAction : Type 0 where
  device_interface_arrival device_interface_removal other_action : NotifyAction

-- The heap, the configuration manager and the channel. Registering takes the context, and may fail with a
-- code.
pub record WatchApi (World : Type 0) : Type 1 where
  pub Sender : Type 0
  pub Pointer : Type 0
  pub Notification : Type 0
  pub into_raw : Sender → World → Pointer × World
  pub drop_box : Pointer → World → World
  pub deref : Pointer → World → Sender
  pub send : Sender → DeviceEvent → World → World
  pub register : Pointer → Io World ℕ Notification
  pub unregister : Notification → World → World

pub record DeviceWatcher {World : Type 0} (api : WatchApi World) : Type 0 where
  pub handle : api.Notification
  pub sender_ptr : api.Pointer

unfoldable pub event_of : NotifyAction → Option DeviceEvent
event_of device_interface_arrival = some added
event_of device_interface_removal = some removed
event_of other_action = none

module _ {World : Type 0} (api : WatchApi World) where
  unfoldable pub new_watcher : api.Sender → Io World ℕ (DeviceWatcher api)
  new_watcher sender w =
      let (sender_ptr, w₁) = api.into_raw sender w in
      let (result, w₂) = api.register sender_ptr w₁ in
      elim result [
        | err code ↦ (err code, api.drop_box sender_ptr w₂)
        | ok handle ↦ (ok (record { handle = handle; sender_ptr = sender_ptr }), w₂)
      ]

  -- The context is null or the sender's address. The result is always 0.
  unfoldable pub callback : Option api.Pointer → NotifyAction → World → ℕ × World
  unfolding event_of
  callback none action w = (0, w)
  callback (some context) action w =
      (0, elim (event_of action) [ none ↦ w | some event ↦ api.send (api.deref context w) event w ])

  unfoldable pub drop_watcher : DeviceWatcher api → World → World
  drop_watcher self w = api.drop_box self.sender_ptr (api.unregister self.handle w)

-- The life of boxes and registrations, by how many there are.
pub record CountsWatch {World : Type 0} (api : WatchApi World) (boxes registrations : World → ℕ)
    : Type 0 where
  pub boxed :
      (sender : api.Sender) (w : World)
      → let w' = (api.into_raw sender w).1 in
        (boxes w' ≡ boxes w + 1) × (registrations w' ≡ registrations w)
  pub freed :
      (p : api.Pointer) (w : World)
      → let w' = api.drop_box p w in (boxes w' ≡ boxes w - 1) × (registrations w' ≡ registrations w)
  pub registered :
      (p : api.Pointer) (w w' : World) (handle : api.Notification)
      → api.register p w ≡ (ok handle, w')
      → (boxes w' ≡ boxes w) × (registrations w' ≡ registrations w + 1)
  pub refused :
      (p : api.Pointer) (w w' : World) (code : ℕ)
      → api.register p w ≡ (err code, w')
      → (boxes w' ≡ boxes w) × (registrations w' ≡ registrations w)
  pub unregistered :
      (handle : api.Notification) (w : World)
      → let w' = api.unregister handle w in
        (boxes w' ≡ boxes w) × (registrations w' ≡ registrations w - 1)

module _ {World : Type 0} (api : WatchApi World) (boxes registrations : World → ℕ) where
  -- As many boxes and registrations as in another state, and so many more.
  abbrev pub More : ℕ → World → World → Type 0
  More n w w' = (boxes w' ≡ boxes w + n) × (registrations w' ≡ registrations w + n)

  -- What is left behind by making a watcher, and by dropping it then.
  abbrev pub GivesBack : World → Result ℕ (DeviceWatcher api) → World → Type 0
  GivesBack w (err code) w' = More 0 w w'
  GivesBack w (ok watcher) w' = More 1 w w' × More 0 w (drop_watcher api watcher w')
