-- ===== src/IoUring/Shutdown.antt =====
-- How the ring driver of src/io_uring.rs stops: `shutdown_and_wait` up to its wait, `enqueue`,
-- `enqueue_batch` and `retire`. An upgrade of a `Weak` is an argument.
pub mod Requests
pub mod Closing
pub mod Ends
mod Tests
use nosv.Base.{Bool, true, false, not, Option, none, List, [], ◌∷◌, ◌++◌, if◌then◌else◌}
use nosv.Base.Outcome.{Outcome, done, stop, ◌>>=◌}
use nosv.Base.Result.{Result, ok, err}
use nosv.Base.Dict.{Dict}
use nosv.IoUring.Data.{
  SubmissionId, ControlId, QueuedOwnedOp, OwnedCqeContext, detached, Driver, DriverData,
  is_terminal,
}
use nosv.IoUring.Cancel.{request_cancel}
use nosv.IoUring.Owned.{request_owned_cancel}
use nosv.IoUring.Gate.{
  DriverGate, Wake, building, running, paused, deadline_wait, wake_pending, terminal, destroyed,
  notify,
}

-- The driver with what lies beside its data: the gate, the queue of the completion-native operations
-- and whether it admits one.
pub record Shared : Type 0 where
  pub driver : Driver
  pub gate : DriverGate
  pub owned_admission : Bool
  pub owned_queue : List QueuedOwnedOp

module _ (accepts : Wake → Bool) where
  -- `notify`; the native call that it makes is in the phase of the gate.
  unfoldable pub notified : Shared → Outcome Shared
  notified x = notify accepts x.gate >>= λ (gate', _). done (record x { gate = gate' })

  unfoldable pub enqueue_batch :
      List QueuedOwnedOp → Shared → Outcome (Result (Unit {0}) (List QueuedOwnedOp) × Shared)
  enqueue_batch operations x =
      if not x.owned_admission
      then done (err operations, x)
      else notified (record x { owned_queue = x.owned_queue ++ operations }) >>= λ x'.
          done (ok tt, x')

  unfoldable pub enqueue :
      QueuedOwnedOp → Shared → Outcome (Result (Unit {0}) QueuedOwnedOp × Shared)
  enqueue operation x =
      if not x.owned_admission
      then done (err operation, x)
      else notified (record x { owned_queue = x.owned_queue ++ operation ∷ [] }) >>= λ x'.
          done (ok tt, x')

  -- `for state in submissions`
  unfoldable pub detach_all : List SubmissionId → Shared → Outcome Shared
  detach_all [] x = done x
  detach_all (s ∷ ss) x =
      notified (record x { driver = request_cancel s detached x.driver }) >>= detach_all ss

  unfoldable pub cancel_owned : ControlId → Shared → Outcome Shared
  cancel_owned control x = request_owned_cancel control x.driver.data_ >>= λ (data' : DriverData).
      notified (record x { driver = record x.driver { data_ = data' } })

  -- `for control in owned`
  unfoldable pub cancel_all : List ControlId → Shared → Outcome Shared
  cancel_all [] x = done x
  cancel_all (c ∷ cs) x = cancel_owned c x >>= cancel_all cs

-- `filter_map(Weak::upgrade)`
unfoldable pub upgraded : (SubmissionId → Bool) → List SubmissionId → List SubmissionId
upgraded alive [] = []
upgraded alive (s ∷ ss) = let rest = upgraded alive ss in if alive s then s ∷ rest else rest

-- The operations that are not completed, as often as there are contexts of them.
unfoldable pub live_controls : Dict OwnedCqeContext → List ControlId
live_controls [] = []
live_controls ((_, c) ∷ d) =
    let rest = live_controls d in if not (is_terminal c.phase) then c.control ∷ rest else rest

-- Admission ends.
abbrev pub closed : Shared → Shared
closed x = record x {
  owned_admission = false;
  driver = record x.driver { data_ = record x.driver.data_ { accepting = false; shutdown = true } };
}

-- `shutdown_and_wait`, up to the wait for `completed`.
unfoldable pub shutdown_and_wait : (Wake → Bool) → (SubmissionId → Bool) → Shared → Outcome Shared
shutdown_and_wait accepts alive x =
    detach_all accepts (upgraded alive x.driver.data_.submissions) (closed x)
    >>= cancel_all accepts (live_controls x.driver.data_.owned_contexts)
    >>= notified accepts

-- `destroy` says whether the native call succeeds; the Boolean of the result is `completed`.
unfoldable pub retire : Bool → DriverGate → Outcome (DriverGate × Bool)
retire destroy gate = elim gate.phase [
  | terminal ↦
      if not gate.raw
      then stop
      else if not destroy
      then stop
      else done (record gate { raw = false; phase = destroyed }, true)
  | building ↦ stop
  | running ↦ stop
  | paused ↦ stop
  | deadline_wait ↦ stop
  | wake_pending ↦ stop
  | destroyed ↦ stop
]
