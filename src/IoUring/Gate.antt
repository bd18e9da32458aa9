-- ===== src/IoUring/Gate.antt =====
-- How the ring driver of src/io_uring.rs parks and is woken: `DriverGate`, `notify`, `decide` and the
-- gate's part of `run`.
mod Tests
pub mod Wakeups
pub mod Decisions
use nosv.Base.{
  ℕ, Bool, true, false, not, ◌&&◌, ◌||◌, Option, none, some, List, [], ◌∷◌, is_empty, if◌then◌else◌,
}
use nosv.Base.Outcome.{Outcome, done, stop}
use nosv.Base.Result.{Result, ok, err}
use nosv.IoUring.Data.{DriverData}

pub data DriverPark : Type 0 where
  building running paused deadline_wait wake_pending terminal destroyed : DriverPark

-- `raw` says whether the descriptor is there.
pub record DriverGate : Type 0 where
  pub raw : Bool
  pub phase : DriverPark
  pub notified : Bool

-- The native call that wakes the driver.
pub data Wake : Type 0 where
  submit submit_deadline_wake : Wake

-- A gate that is woken: the call is made, and a failure of it stops the process.
abbrev pub issue : Wake → (Wake → Bool) → DriverGate → Outcome (DriverGate × Option Wake)
issue w accepts gate =
    if not gate.raw
    then stop
    else if accepts w
    then done (record gate { phase = wake_pending }, some w)
    else stop

-- `accepts` says whether the native call succeeds.
unfoldable pub notify : (Wake → Bool) → DriverGate → Outcome (DriverGate × Option Wake)
notify accepts gate =
    let gate' : DriverGate = record gate { notified = true } in
    elim gate.phase [
      | paused ↦ issue submit accepts gate'
      | deadline_wait ↦ issue submit_deadline_wake accepts gate'
      | building ↦ done (gate', none)
      | terminal ↦ done (gate', none)
      | destroyed ↦ done (gate', none)
      | running ↦ done (gate', none)
      | wake_pending ↦ done (gate', none)
    ]

pub data RunDecision : Type 0 where
  stop_ yield_ wait pause : RunDecision

unfoldable pub decide : DriverData → Bool → Bool → RunDecision
decide data' backlog owned_queue_empty =
    let active =
      not (is_empty data'.contexts)
      || not (is_empty data'.staged)
      || not (is_empty data'.cancel_queue)
      || not (is_empty data'.owned_contexts)
      || not (is_empty data'.owned_cancel_contexts)
      || not (is_empty data'.owned_pending)
      || not (is_empty data'.owned_cancel_queue)
      || not owned_queue_empty in
    if data'.shutdown && not active
    then stop_
    else if backlog
        || not (is_empty data'.staged)
        || not (is_empty data'.cancel_queue)
        || not (is_empty data'.owned_pending)
        || not (is_empty data'.owned_cancel_queue)
        || not owned_queue_empty
    then yield_
    else if active
    then wait
    else pause

-- The phase in which a decision parks; the source has no other for `Stop`.
abbrev pub parked : RunDecision → DriverPark
parked yield_ = running
parked wait = deadline_wait
parked pause = paused
parked stop_ = terminal

-- The end of a round of `run`, under the lock of the gate; the Boolean is `should_park`.
unfoldable pub try_park : RunDecision → DriverGate → DriverGate × Bool
try_park stop_ gate = (record gate { phase = terminal }, false)
try_park decision gate =
    if gate.notified
    then (record gate { notified = false; phase = running }, false)
    else (record gate { phase = parked decision }, true)

-- The end of a park.
unfoldable pub resume : DriverGate → DriverGate
resume gate = record gate { phase = running }

-- `start` opens the gate once the descriptor is there.
abbrev pub opened : DriverGate
opened = record { raw = true; phase = running; notified = false }

-- Nothing is queued and the kernel has nothing.
abbrev pub is_idle : DriverData → Bool → Bool
is_idle data' owned_queue_empty =
    is_empty data'.contexts
    && is_empty data'.staged
    && is_empty data'.cancel_queue
    && is_empty data'.owned_contexts
    && is_empty data'.owned_cancel_contexts
    && is_empty data'.owned_pending
    && is_empty data'.owned_cancel_queue
    && owned_queue_empty
