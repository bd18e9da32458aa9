-- ===== src/IoUring/Pass.antt =====
-- `pass` of src/io_uring.rs, one round of the ring driver, with the `dispatch` of a completion to either
-- registry. The completion queue is the list of what it holds when it is synced.
pub mod Books
mod Tests
use nosv.Base.{
  ℕ, Bool, true, false, not, ◌&&◌, ◌||◌, Option, none, some, List, [], ◌∷◌, ◌==◌, is_empty, length,
  take, drop, if◌then◌else◌,
}
use nosv.Base.Int.{ℤ}
use nosv.Base.Outcome.{Outcome, done, stop, ◌>>=◌}
use nosv.Base.Result.{Result}
use nosv.Base.Dict.{contains_key}
use nosv.IoUring.Data.{
  Ptr, SubmissionId, ControlId, Opcode, Handler, Cqe, DriverData, Driver, SubmissionQueue, overflow,
  inner_of,
}
use nosv.IoUring.Submission.{wake_admission}
use nosv.IoUring.Dispatch.{dispatch_raw, set_locked}
use nosv.IoUring.Cancel.{stage_cancellations}
use nosv.IoUring.Submit.{Errnos, submit_staged}
use nosv.IoUring.Owned.{stage_owned_cancellations, dispatch_owned, Completed}
use nosv.IoUring.Owned.Stage.{OwnedFailure, stage_owned}
use nosv.IoUring.Gate.{Wake}
use nosv.IoUring.Shutdown.{Shared, upgraded}
use nosv.IoUring.Entries.{cancel_with}

unfoldable pub dispatch : Cqe → Driver → Outcome (Driver × Option SubmissionId × Completed)
dispatch cqe d =
    if contains_key cqe.user_data d.data_.contexts
    then (dispatch_raw cqe d >>= λ (d', overflowed). done (d', overflowed, none))
    else dispatch_owned cqe d.data_ >>= λ (data', completed).
        done (record d { data_ = data' }, none, completed)

-- What the dispatches of a pass leave: the submissions whose delivery overflowed, and the handlers to
-- complete with their results.
abbrev pub Dispatched : Type 0
Dispatched = Driver × List SubmissionId × List (Handler × ℤ)

abbrev pub listed_option {ℓ} : {A : Type ℓ} → Option A → List A → List A
listed_option none xs = xs
listed_option (some x) xs = x ∷ xs

-- `for cqe in cqes`
unfoldable pub dispatch_all : List Cqe → Driver → Outcome Dispatched
dispatch_all [] d = done (d, [], [])
dispatch_all (cqe ∷ cqes) d = dispatch cqe d >>= λ (d', overflowed, completed).
    dispatch_all cqes d' >>= λ (d'', ss, cs).
    done (d'', listed_option overflowed ss, listed_option completed cs)

-- `for state in overflow`
unfoldable pub cancel_overflowed : (Wake → Bool) → List SubmissionId → Shared → Outcome Shared
cancel_overflowed accepts [] x = done x
cancel_overflowed accepts (s ∷ ss) x =
    cancel_with accepts s overflow x >>= cancel_overflowed accepts ss

-- `for state in data.submissions`
unfoldable pub wake_admissions : List SubmissionId → Driver → Driver
wake_admissions [] d = d
wake_admissions (s ∷ ss) d =
    wake_admissions ss (set_locked s (wake_admission (inner_of d s, d.wakes)) d)

-- The completions that are taken, those that are left, and whether there may be a backlog.
unfoldable pub reap : ℕ → List Cqe → List Cqe × List Cqe × Bool
reap size cq =
    let values = take size cq in
    let left = drop size cq in (values, left, (length values == size) || not (is_empty left))

-- What a pass gives: the state, the submission queue, the completions left, the handlers to fail and
-- those to complete, and the backlog flag. The wakers are in the driver.
abbrev pub Passed : Type 0
Passed =
    Shared × SubmissionQueue × List Cqe × List (Handler × OwnedFailure) × List (Handler × ℤ) × Bool

module _ (alloc : DriverData → Ptr) (is_cancelled : ControlId → Bool) (supported : ℕ → Bool)
    (entry_of : Handler → Opcode) (errnos : Errnos) (answer : ℕ → Result ℕ (Option ℕ))
    (accepts : Wake → Bool) (alive : SubmissionId → Bool) where
  -- The part that holds the ring, up to the submission, with the wakes after it.
  unfoldable pub stage_and_submit :
      ℕ
      → Shared
      → SubmissionQueue
      → Outcome (List (Handler × OwnedFailure) × Shared × SubmissionQueue)
  stage_and_submit entries x sq = stage_cancellations alloc x.driver.data_ sq >>= λ (data1, sq1).
      stage_owned_cancellations alloc data1 sq1 >>= λ (data2, sq2).
      stage_owned alloc is_cancelled supported entry_of entries x.owned_queue data2 sq2
      >>= λ (failed, queue, data3, sq3).
          submit_staged errnos (answer (length data3.staged)) (record x.driver { data_ = data3 })
          >>= λ (d : Driver).
              let woken : Driver =
                if is_empty d.data_.owned_pending
                  && is_empty d.data_.owned_cancel_queue
                  && is_empty queue
                then wake_admissions (upgraded alive d.data_.submissions) d
                else d in
              done (failed, record x { driver = woken; owned_queue = queue }, sq3)

  -- `cq` is what the completion queue holds after the submission.
  unfoldable pub pass : ℕ → ℕ → List Cqe → Shared → SubmissionQueue → Outcome Passed
  pass entries reap_size cq x sq = stage_and_submit entries x sq >>= λ (failed, x1, sq1).
      let (values, left, backlog) = reap reap_size cq in
      dispatch_all values x1.driver >>= λ (d, overflowed, completed).
      cancel_overflowed accepts overflowed (record x1 { driver = d }) >>= λ x2.
      done (x2, sq1, left, failed, completed, backlog)
