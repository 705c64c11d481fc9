-- ===== src/Watcher/Threads.antt =====
-- src/device_watcher.rs as it runs: the thread that makes and drops the watcher, beside the callbacks that the
-- configuration manager runs on threads of its own.
use arfw.Base.{
  ◌≡◌, ◌≢◌, refl, Bool, true, false, none, some, List, [], ◌∷◌, ◌++◌, if◌then◌else◌, arith,
}
use arfw.Daemon.Loop.{DeviceEvent}
use arfw.Watcher.Watch.{NotifyAction, event_of}

-- Where the owner stands: before `DeviceWatcher::new`, with the sender boxed, after a refused registration,
-- between `new` and `drop`, after the end of the registration, and with the box given back.
pub data Owner : Type 0 where
  before boxed refused watching unregistered over : Owner

-- `live` tells whether the sender's box is on the heap, `registered` whether the configuration manager may
-- start callbacks, `in_flight` has the callbacks that have started and not yet used the sender, `sent` what
-- the channel has got, `fault` whether a callback has used the sender after its box was freed, and `not_ended`
-- whether CM_Unregister_Notification has failed: `drop` discards its result.
pub record Shared : Type 0 where
  pub owner : Owner
  pub live : Bool
  pub registered : Bool
  pub in_flight : List NotifyAction
  pub sent : List DeviceEvent
  pub fault : Bool
  pub not_ended : Bool

abbrev pub initial : Shared
initial = record {
  owner = before;
  live = false;
  registered = false;
  in_flight = [];
  sent = [];
  fault = false;
  not_ended = false;
}

-- The callback's body: the sender is read whatever the action is, and a known action is sent.
unfoldable pub deliver : NotifyAction → Shared → Shared
unfolding event_of
deliver action s =
    if s.live
    then elim (event_of action) [
      | none ↦ s
      | some event ↦ record s { sent = s.sent ++ (event ∷ []) }
    ]
    else record s { fault = true }

-- The moves of the owner and of the callbacks, in any order. That callbacks start only while they are
-- registered, and that the end of the registration waits for those that run, is what the configuration
-- manager promises; a call that fails to end it promises nothing, and `drop` goes on as after one that ends it.
pub data Step (s : Shared) : Shared → Type 0 where
  boxes : s.owner ≡ before → Step s (record s { owner = boxed; live = true })
  registers : s.owner ≡ boxed → Step s (record s { registered = true })
  succeeds : s.owner ≡ boxed → s.registered ≡ true → Step s (record s { owner = watching })
  fails : s.owner ≡ boxed → s.registered ≡ false → Step s (record s { owner = refused })
  reclaims : s.owner ≡ refused → Step s (record s { owner = over; live = false })
  unregisters :
      s.owner ≡ watching
      → s.in_flight ≡ []
      → Step s (record s { owner = unregistered; registered = false })
  keeps : s.owner ≡ watching → Step s (record s { owner = unregistered; not_ended = true })
  frees : s.owner ≡ unregistered → Step s (record s { owner = over; live = false })
  starts :
      (action : NotifyAction)
      → s.registered ≡ true
      → Step s (record s { in_flight = action ∷ s.in_flight })
  calls :
      (action : NotifyAction) (earlier later : List NotifyAction)
      → s.in_flight ≡ earlier ++ (action ∷ later)
      → Step s (deliver action (record s { in_flight = earlier ++ later }))

pub data Reach : Shared → Type 0 where
  start : Reach initial
  next : {s t : Shared} → Reach s → Step s t → Reach t

-- The box is on the heap from `new` to the last line of `drop`, and while no call has failed to end the
-- registration, no callback is registered before or after.
abbrev Fits : Bool → Owner → Bool → Bool → Type 0
Fits not_ended before live registered = (live ≡ false) × (registered ≡ false)
Fits not_ended boxed live registered = live ≡ true
Fits not_ended refused live registered = (live ≡ true) × (registered ≡ false)
Fits not_ended watching live registered = (live ≡ true) × (registered ≡ true)
Fits false unregistered live registered = (live ≡ true) × (registered ≡ false)
Fits true unregistered live registered = live ≡ true
Fits false over live registered = (live ≡ false) × (registered ≡ false)
Fits true over live registered = live ≡ false

pub record Inv (s : Shared) : Type 0 where
  pub fits : Fits s.not_ended s.owner s.live s.registered
  pub idle : s.registered ≡ false → s.in_flight ≡ []
  pub sound : s.not_ended ≡ false → s.fault ≡ false

middle-ne-nil : (a : NotifyAction) (xs ys : List NotifyAction) → xs ++ (a ∷ ys) ≢ []
middle-ne-nil a [] ys e = cc
middle-ne-nil a (x ∷ xs) ys e = cc

-- A callback that uses the sender finds it on the heap.
calls-live :
    {s : Shared}
    → Inv s
    → (action : NotifyAction) (earlier later : List NotifyAction) → s.not_ended ≡ false
    → s.in_flight ≡ earlier ++ (action ∷ later)
    → s.live ≡ true
calls-live inv action earlier later ended e =
    ground (arith, inv.fits, inv.idle, middle-ne-nil action earlier later)

calls-registered :
    {s : Shared}
    → Inv s
    → (action : NotifyAction) (earlier later : List NotifyAction)
    → s.in_flight ≡ earlier ++ (action ∷ later)
    → s.registered ≡ true
calls-registered inv action earlier later e =
    ground (arith, inv.idle, middle-ne-nil action earlier later)

deliver-Inv :
    (action : NotifyAction) (s : Shared)
    → (s.not_ended ≡ false → s.live ≡ true)
    → Inv s
    → Inv (deliver action s)
unfolding deliver
deliver-Inv action s live inv = ground (arith, inv.idle)

Step-Inv : {s t : Shared} → Inv s → Step s t → Inv t
Step-Inv inv (boxes at) = ground (arith, inv.fits, inv.idle)
Step-Inv inv (registers at) = ground (arith, inv.fits, inv.idle)
Step-Inv inv (succeeds at r) = ground (arith, inv.fits, inv.idle)
Step-Inv inv (fails at r) = ground (arith, inv.fits, inv.idle)
Step-Inv inv (reclaims at) = ground (arith, inv.fits, inv.idle)
Step-Inv inv (unregisters at none_runs) = ground (arith, inv.fits, inv.idle)
Step-Inv inv (keeps at) = ground (arith, inv.fits, inv.idle)
Step-Inv inv (frees at) = ground (arith, inv.fits, inv.idle)
Step-Inv inv (starts action r) = ground (arith, inv.fits, inv.idle)
Step-Inv {s} inv (calls action earlier later e) =
    let registered = calls-registered inv action earlier later e in
    deliver-Inv action (record s { in_flight = earlier ++ later })
      (λ ended. calls-live inv action earlier later ended e)
      (record { fits = inv.fits; idle = λ r. absurd (cc); sound = inv.sound })

initial-Inv : Inv initial
initial-Inv = record { fits = (refl, refl); idle = λ r. refl; sound = λ r. refl }

pub Reach-Inv : {s : Shared} → Reach s → Inv s
Reach-Inv start = initial-Inv
Reach-Inv (next r step) = Step-Inv (Reach-Inv r) step

-- What must hold of a state: no callback has used the sender after it was freed; and when the owner is done,
-- the box is freed, the registration has ended, and no callback runs.
pub record IsSafe (s : Shared) : Type 0 where
  pub no_fault : s.fault ≡ false
  pub released : s.owner ≡ over → (s.live ≡ false) × (s.registered ≡ false) × (s.in_flight ≡ [])

-- In every order in which the owner and the callbacks can move, if callbacks start only while they are
-- registered, the end of the registration waits for those that run, and no call to end it has failed, no
-- callback uses the sender after its box was freed, and when the owner is done, the box is freed, the
-- registration has ended, and no callback runs.
pub Reach-IsSafe : {s : Shared} → Reach s → s.not_ended ≡ false → IsSafe s
Reach-IsSafe {s} r ended =
    let inv = Reach-Inv r in
    record { no_fault = inv.sound ended; released = λ done. ground (arith, inv.fits, inv.idle) }
