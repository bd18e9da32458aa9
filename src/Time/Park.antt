-- ===== src/Time/Park.antt =====
-- How the timer driver of src/time.rs parks and is woken: `DriverGate`, `notify`, the end of a round of
-- `run`, and `retire`.
pub mod Wakeups
mod Tests
use nosv.Base.{ℕ, Bool, true, false, not, Option, none, some, if◌then◌else◌}
use nosv.Base.Outcome.{Outcome, done, stop}

pub data DriverPark : Type 0 where
  building running paused deadline_wait wake_pending terminal destroyed : DriverPark

-- `raw` says whether the descriptor is there.
pub record DriverGate : Type 0 where
  pub raw : Bool
  pub phase : DriverPark
  pub notified : Bool

-- The native call that wakes the driver.
pub data Wake : Type 0 where
  submit submit_deadline_wake : Wake

-- A failed call stops the process.
abbrev pub issue : Wake → Bool → DriverGate → Outcome (DriverGate × Option Wake)
issue w succeeds gate =
    if not gate.raw
    then stop
    else if succeeds
    then done (record gate { phase = wake_pending }, some w)
    else stop

unfoldable pub notify : (Wake → Bool) → DriverGate → Outcome (DriverGate × Option Wake)
notify accepts gate =
    let told : DriverGate = record gate { notified = true } in
    elim gate.phase [
      | paused ↦ issue submit (accepts submit) told
      | deadline_wait ↦ issue submit_deadline_wake (accepts submit_deadline_wake) told
      | running ↦ done (told, none)
      | wake_pending ↦ done (told, none)
      | building ↦ done (told, none)
      | terminal ↦ done (told, none)
      | destroyed ↦ done (told, none)
    ]

-- `should_wait` of a round whose pass found a next deadline or none.
unfoldable pub try_wait : Bool → DriverGate → DriverGate × Bool
try_wait has_deadline gate =
    if gate.notified
    then (record gate { notified = false; phase = running }, false)
    else (record gate { phase = if has_deadline then deadline_wait else paused }, true)

-- The end of a wait, and of the driver.
unfoldable pub resume : DriverGate → DriverGate
resume gate = record gate { phase = running }

unfoldable pub finish : DriverGate → DriverGate
finish gate = record gate { phase = terminal }

-- `start` opens the gate once the descriptor is there.
abbrev pub opened : DriverGate
opened = record { raw = true; phase = running; notified = false }

-- The Boolean of the result is `completed`.
unfoldable pub retire : Bool → DriverGate → Outcome (DriverGate × Bool)
retire destroy gate = elim gate.phase [
  | terminal ↦
      if not gate.raw
      then stop
      else if not destroy
      then stop
      else done (record gate { raw = false; phase = destroyed }, true)
  | building ↦ stop
  | running ↦ stop
  | paused ↦ stop
  | deadline_wait ↦ stop
  | wake_pending ↦ stop
  | destroyed ↦ stop
]
