-- ===== src/IoUring/Gate/Wakeups.antt =====
-- Producers of work and the parking driver of src/io_uring.rs, in any interleaving.
use nosv.Base.{
  ℕ, ◌+◌, ◌≤◌, ◌≡◌, ◌⊎◌, refl, Bool, true, false, Option, none, some, arith, if◌then◌else◌,
}
use nosv.Base.Outcome.{done, Returns}
use nosv.IoUring.Gate.{
  running, paused, deadline_wait, wake_pending, terminal, DriverGate, Wake, submit,
  submit_deadline_wake, notify, RunDecision, stop_, yield_, wait, pause, try_park, resume, opened,
}

-- Where the driver is: before its pass, after it, in the native call of a decision, or past its loop.
pub data Place : Type 0 where
  passing deciding : Place
  asleep : RunDecision → Place
  finished : Place

-- `unseen`: work arrived that no pass has seen. `unnotified`: producers that have queued work and not
-- yet called `notify`. `submits`: native submits that the driver has not resumed from.
pub record Park : Type 0 where
  pub gate : DriverGate
  pub place : Place
  pub unseen : Bool
  pub unnotified : ℕ
  pub submits : ℕ

abbrev pub submits_of : Option Wake → ℕ
submits_of none = 0
submits_of (some submit) = 1
submits_of (some submit_deadline_wake) = 0

abbrev pub place_after : RunDecision → Bool → Place
place_after stop_ parks = finished
place_after yield_ parks = if parks then asleep yield_ else passing
place_after wait parks = if parks then asleep wait else passing
place_after pause parks = if parks then asleep pause else passing

-- The native calls that wake the driver succeed.
abbrev pub accepts : Wake → Bool
accepts _ = true

pub data Step : Park → Park → Type 0 where
  queued : (p : Park) → Step p (record p { unseen = true; unnotified = p.unnotified + 1 })
  notified :
      (p : Park) (n : ℕ) (gate : DriverGate) (w : Option Wake)
      → p.unnotified ≡ n + 1
      → notify accepts p.gate ≡ done (gate, w)
      → Step p (record p { gate = gate; unnotified = n; submits = p.submits + submits_of w })
  passed : (p : Park) → p.place ≡ passing → Step p (record p { place = deciding; unseen = false })
  decided :
      (p : Park) (decision : RunDecision)
      → p.place ≡ deciding
      → Step p (record p {
        gate = (try_park decision p.gate).0;
        place = place_after decision (try_park decision p.gate).1;
      })
  unpaused :
      (p : Park) (n : ℕ)
      → p.place ≡ asleep pause
      → p.submits ≡ n + 1
      → Step p (record p { gate = resume p.gate; place = passing; submits = n })
  timed_out :
      (p : Park)
      → p.place ≡ asleep wait
      → Step p (record p { gate = resume p.gate; place = passing })
  yielded :
      (p : Park)
      → p.place ≡ asleep yield_
      → Step p (record p { gate = resume p.gate; place = passing })

pub data Reach : Park → Type 0 where
  start :
      Reach (record { gate = opened; place = passing; unseen = false; unnotified = 0; submits = 0 })
  step : {p q : Park} → Reach p → Step p q → Reach q

-- Work that nobody will announce any more has been announced.
abbrev Announced : Park → Type 0
Announced p = p.unseen ≡ true → p.unnotified ≡ 0 → p.gate.notified ≡ true

-- What holds where the driver is.
abbrev At : Place → Park → Type 0
At passing p = (p.gate.phase ≡ running) × (p.submits ≡ 0)
At deciding p = (p.gate.phase ≡ running) × (p.submits ≡ 0) × Announced p
At (asleep yield_) p = (p.gate.phase ≡ running) × (p.submits ≡ 0)
At (asleep wait) p =
    ((p.gate.phase ≡ deadline_wait) ⊎ (p.gate.phase ≡ wake_pending)) × (p.submits ≡ 0)
At (asleep pause) p =
    ((p.gate.phase ≡ paused) × (p.submits ≡ 0) × (p.gate.notified ≡ false) × Announced p)
    ⊎ ((p.gate.phase ≡ wake_pending) × (p.submits ≡ 1))
At (asleep stop_) p = ⊥
At finished p = (p.gate.phase ≡ terminal) × (p.submits ≡ 0)

record IsValid (p : Park) : Type 0 where
  raw : p.gate.raw ≡ true
  at : At p.place p

Step-IsValid : (p q : Park) → IsValid p → Step p q → IsValid q
unfolding notify try_park resume
Step-IsValid p q v (queued _) = ground (arith, v)
Step-IsValid p q v (notified _ n gate w h e) = ground (arith, v)
Step-IsValid p q v (passed _ h) = ground (arith, v)
Step-IsValid p q v (decided _ decision h) = ground (arith, v)
Step-IsValid p q v (unpaused _ n h m) = ground (arith, v)
Step-IsValid p q v (timed_out _ h) = ground (arith, v)
Step-IsValid p q v (yielded _ h) = ground (arith, v)

Reach-IsValid : (p : Park) → Reach p → IsValid p
Reach-IsValid p start = record { raw = refl; at = (refl, refl) }
Reach-IsValid q (step {p} reach s) = Step-IsValid p q (Reach-IsValid p reach) s

-- A wakeup is not lost: when the driver is in a pause, and work that it has not seen is queued, and no
-- producer still has to call `notify`, a native submit is there that ends the pause.
pub no_lost_wakeup :
    (p : Park)
    → Reach p
    → p.place ≡ asleep pause
    → p.unseen ≡ true
    → p.unnotified ≡ 0
    → p.submits ≡ 1
no_lost_wakeup p reach h u n = ground (arith, Reach-IsValid p reach)

-- Wakeups are coalesced: at no time is more than one native submit ahead of the driver, it is in a
-- pause or about to be when there is one, and a call of `notify` finds the descriptor, whatever the
-- phase.
pub wakeups_coalesced :
    (p : Park)
    → Reach p
    → (p.submits ≤ 1)
      × (p.submits ≡ 1 → p.place ≡ asleep pause)
      × Returns (notify accepts p.gate) (λ (gate, _). gate.notified ≡ true)
unfolding notify
wakeups_coalesced p reach = (
  ground (arith, Reach-IsValid p reach),
  (λ h. ground (arith, Reach-IsValid p reach)),
  ground (arith, Reach-IsValid p reach),
)
