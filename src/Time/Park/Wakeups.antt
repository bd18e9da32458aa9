-- ===== src/Time/Park/Wakeups.antt =====
-- The protocol of parking and waking of the timer driver of src/time.rs, in any interleaving of the
-- driver with those that register timers, shut it down and call `notify`.
use nosv.Base.{
  ℕ, ◌+◌, ◌≡◌, ◌≤◌, ◌⊎◌, refl, Bool, true, false, Option, none, some, arith, if◌then◌else◌,
}
use nosv.Base.Outcome.{done, Returns}
use nosv.Time.Park.{
  running, paused, deadline_wait, wake_pending, terminal, destroyed, DriverGate, Wake, submit,
  submit_deadline_wake, notify, try_wait, resume, finish, opened, retire,
}

-- Where the driver is; a wait is for a deadline or not. It is `roused` when the native wait has returned
-- and the gate does not say so yet.
pub data Place : Type 0 where
  passing : Place
  deciding : Bool → Place
  asleep roused : Bool → Place
  finished : Place
  retired : Place

-- `unseen`: a timer or the shutdown came that no pass has seen. `unnotified`: those who have changed the
-- data and not yet called `notify`. `submitted`: submits that no pause has returned for yet.
-- `deadline_wakes`: wakes of a deadline wait since the driver last began to wait.
pub record Park : Type 0 where
  pub gate : DriverGate
  pub place : Place
  pub unseen : Bool
  pub unnotified : ℕ
  pub submitted : ℕ
  pub deadline_wakes : ℕ

abbrev pub submits_of : Option Wake → ℕ
submits_of none = 0
submits_of (some submit) = 1
submits_of (some submit_deadline_wake) = 0

abbrev pub deadline_wakes_of : Option Wake → ℕ
deadline_wakes_of none = 0
deadline_wakes_of (some submit) = 0
deadline_wakes_of (some submit_deadline_wake) = 1

-- The native calls that wake the driver succeed.
abbrev pub accepts : Wake → Bool
accepts _ = true

-- A pause returns for a submit only; a wait for a deadline returns for a wake or at any time. Between the
-- return and the lock of the gate others may take their steps.
pub data Step : Park → Park → Type 0 where
  changed : (p : Park) → Step p (record p { unseen = true; unnotified = p.unnotified + 1 })
  notified :
      (p : Park) (n : ℕ) (gate : DriverGate) (w : Option Wake)
      → p.unnotified ≡ n + 1
      → notify accepts p.gate ≡ done (gate, w)
      → Step p (record p {
        gate = gate;
        unnotified = n;
        submitted = p.submitted + submits_of w;
        deadline_wakes = p.deadline_wakes + deadline_wakes_of w;
      })
  passed :
      (p : Park) (has_deadline : Bool)
      → p.place ≡ passing
      → Step p (record p { place = deciding has_deadline; unseen = false })
  decided :
      (p : Park) (has_deadline : Bool)
      → p.place ≡ deciding has_deadline
      → Step p (record p {
        gate = (try_wait has_deadline p.gate).0;
        place = if (try_wait has_deadline p.gate).1 then asleep has_deadline else passing;
        deadline_wakes = if (try_wait has_deadline p.gate).1 then 0 else p.deadline_wakes;
      })
  ended :
      (p : Park) (has_deadline : Bool)
      → p.place ≡ deciding has_deadline
      → Step p (record p { gate = finish p.gate; place = finished })
  unpaused :
      (p : Park) (n : ℕ)
      → p.place ≡ asleep false
      → p.submitted ≡ n + 1
      → Step p (record p { place = roused false; submitted = n })
  waited : (p : Park) → p.place ≡ asleep true → Step p (record p { place = roused true })
  resumed :
      (p : Park) (has_deadline : Bool)
      → p.place ≡ roused has_deadline
      → Step p (record p { gate = resume p.gate; place = passing })
  retires :
      (p : Park) (gate : DriverGate) (completed : Bool)
      → p.place ≡ finished
      → retire true p.gate ≡ done (gate, completed)
      → Step p (record p { gate = gate; place = retired })

pub data Reach : Park → Type 0 where
  start : Reach (record {
    gate = opened;
    place = passing;
    unseen = false;
    unnotified = 0;
    submitted = 0;
    deadline_wakes = 0;
  })
  step : {p q : Park} → Reach p → Step p q → Reach q

-- A change that nobody will announce any more has been announced.
abbrev Announced : Park → Type 0
Announced p = p.unseen ≡ true → p.unnotified ≡ 0 → p.gate.notified ≡ true

-- What holds where the driver is.
abbrev At : Place → Park → Type 0
At passing p = (p.gate.raw ≡ true) × (p.gate.phase ≡ running) × (p.submitted ≡ 0)
At (deciding _) p = (p.gate.raw ≡ true) × (p.gate.phase ≡ running) × (p.submitted ≡ 0) × Announced p
At (asleep true) p =
    (p.gate.raw ≡ true)
    × (p.submitted ≡ 0)
    × (((p.gate.phase ≡ deadline_wait)
          × (p.deadline_wakes ≡ 0)
          × (p.gate.notified ≡ false)
          × Announced p)
        ⊎ ((p.gate.phase ≡ wake_pending) × (p.deadline_wakes ≡ 1)))
At (asleep false) p =
    (p.gate.raw ≡ true)
    × (((p.gate.phase ≡ paused) × (p.submitted ≡ 0) × (p.gate.notified ≡ false) × Announced p)
        ⊎ ((p.gate.phase ≡ wake_pending) × (p.submitted ≡ 1)))
At (roused true) p =
    (p.gate.raw ≡ true)
    × (p.submitted ≡ 0)
    × ((p.gate.phase ≡ deadline_wait) ⊎ (p.gate.phase ≡ wake_pending))
At (roused false) p = (p.gate.raw ≡ true) × (p.submitted ≡ 0) × (p.gate.phase ≡ wake_pending)
At finished p = (p.gate.raw ≡ true) × (p.gate.phase ≡ terminal) × (p.submitted ≡ 0)
At retired p = (p.gate.phase ≡ destroyed) × (p.submitted ≡ 0)

Step-At : (p q : Park) → At p.place p → Step p q → At q.place q
unfolding notify try_wait resume finish retire
Step-At p q v (changed _) = ground (arith, v)
Step-At p q v (notified _ n gate w h e) = ground (arith, v)
Step-At p q v (passed _ b h) = ground (arith, v)
Step-At p q v (decided _ b h) = ground (arith, v)
Step-At p q v (ended _ b h) = ground (arith, v)
Step-At p q v (unpaused _ n h m) = ground (arith, v)
Step-At p q v (waited _ h) = ground (arith, v)
Step-At p q v (resumed _ b h) = ground (arith, v)
Step-At p q v (retires _ gate c h e) = ground (arith, v)

Reach-At : (p : Park) → Reach p → At p.place p
Reach-At p start = (refl, refl, refl)
Reach-At q (step {p} reach s) = Step-At p q (Reach-At p reach) s

-- No change is slept through: while the driver is in a pause, and a timer or the shutdown came that it has
-- not seen, and nobody still has to call `notify`, exactly one submit is there that ends the pause; in
-- a wait for a deadline, exactly one wake of a deadline wait has been issued since the wait began.
pub no_missed_change :
    (p : Park) (has_deadline : Bool)
    → Reach p
    → p.place ≡ asleep has_deadline
    → p.unseen ≡ true
    → p.unnotified ≡ 0
    → (p.gate.phase ≡ wake_pending) × ((if has_deadline then p.deadline_wakes else p.submitted) ≡ 1)
no_missed_change p true reach h u n = ground (arith, Reach-At p reach)
no_missed_change p false reach h u n = ground (arith, Reach-At p reach)

-- Wherever the driver is, and also once its descriptor is destroyed, `notify` returns, no more than one
-- submit is there, and none once the descriptor is gone.
pub notify_anywhere :
    (p : Park)
    → Reach p
    → Returns (notify accepts p.gate) (λ (gate, _). gate.notified ≡ true)
      × (p.submitted ≤ 1)
      × (p.gate.raw ≡ false → p.submitted ≡ 0)
unfolding notify
notify_anywhere p reach = (
  ground (arith, Reach-At p reach),
  ground (arith, Reach-At p reach),
  (λ h. ground (arith, Reach-At p reach)),
)
