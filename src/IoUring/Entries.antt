-- ===== src/IoUring/Entries.antt =====
-- `SubmitEntries` of src/io_uring.rs, the future that admits the entries of an iterator, with
-- `submit_entries` and the drops of it and of the stream that it ends with.
pub mod Results
use nosv.Base.{
  ℕ, Bool, true, false, not, ◌&&◌, ◌||◌, Option, none, some, List, [], ◌∷◌, ◌++◌, ◌==◌, is_empty,
  is_none, if◌then◌else◌,
}
use nosv.Base.Outcome.{Outcome, done, stop, ◌>>=◌}
use nosv.Base.Result.{Result, ok, err}
use nosv.IoUring.Data.{
  Ptr, SubmissionId, SubmissionInner, Delivery, open_, cancelling, overflow, detached, Sqe, Waker,
  DriverData, Driver, SubmissionQueue, new_state, update, inner_of, set_inner,
}
use nosv.IoUring.Submission.{Poll, pending, ready, replace_waker}
use nosv.IoUring.Cancel.{request_cancel}
use nosv.IoUring.Submit.{Errnos}
use nosv.IoUring.Admit.{Admission, admit}
use nosv.IoUring.Gate.{Wake}
use nosv.IoUring.Shutdown.{Shared, notified, upgraded}

pub data SubmissionErrorKind : Type 0 where
  runtime_closed completion_buffer_overflow : SubmissionErrorKind

-- The entries that are not staged yet are an `Admission`. Its `state` is known by its number.
pub record SubmitEntries : Type 0 where
  pub admission : Admission
  pub closed : Bool
  pub ended : Bool

-- `register_submission`, where `s` is the number of the new state.
unfoldable pub register_submission : (SubmissionId → Bool) → ℕ → SubmissionId → Driver → Driver
register_submission alive max_buffered s d = record d {
  data_ = record d.data_ { submissions = upgraded alive d.data_.submissions ++ s ∷ [] };
  states = update d.states s (new_state max_buffered);
}

-- `is_closed` is the answer of the runtime.
unfoldable pub submit_entries :
    (SubmissionId → Bool) → ℕ → Bool → List Sqe → SubmissionId → Driver → SubmitEntries × Driver
submit_entries alive max_buffered is_closed entries s d =
    let registered = register_submission alive max_buffered s d in
    (
      record {
        admission = record { iterator = entries; pending = none; next_index = 0 };
        closed = is_closed;
        ended = false;
      },
      if is_closed
          then set_inner s (record (inner_of registered s) { delivery = cancelling }) registered
          else registered,
    )

unfoldable pub failure : Bool → Delivery → Option SubmissionErrorKind
failure is_closed overflow = some completion_buffer_overflow
failure is_closed cancelling = some runtime_closed
failure is_closed detached = some runtime_closed
failure is_closed open_ = if is_closed then some runtime_closed else none

-- The iterator and the pending entry are taken.
abbrev pub ended_entries : SubmitEntries → SubmitEntries
ended_entries f = record f {
  admission = record f.admission { iterator = []; pending = none };
  ended = true;
}

abbrev pub Polled : Type 0
Polled = SubmitEntries × Shared × SubmissionQueue × Poll (Result (Unit {0}) SubmissionErrorKind)

module _ (accepts : Wake → Bool) where
  -- A request for cancellation with the notification at its end.
  unfoldable pub cancel_with : SubmissionId → Delivery → Shared → Outcome Shared
  cancel_with s delivery x =
      notified accepts (record x { driver = request_cancel s delivery x.driver })

  -- What follows the attempt at admission.
  unfoldable pub settle :
      SubmissionId → Waker → SubmitEntries → Shared → SubmissionQueue → Outcome Polled
  settle s w f x sq =
      let i = inner_of x.driver s in
      elim (failure f.closed i.delivery) [
        | some kind ↦
            cancel_with s cancelling x >>= λ x'. done (ended_entries f, x', sq, ready (err kind))
        | none ↦
            if i.iterator_finished && (i.accepted == i.originals)
            then done (ended_entries f, x, sq, ready (ok tt))
            else notified accepts (record x {
              driver =
                  set_inner s (record i { admission_waker = replace_waker i.admission_waker w })
                    x.driver;
            })
              >>= λ x'. done (f, x', sq, pending)
      ]

  -- Whether `admit` notifies the driver: at the end of `request_cancel` when it does not accept, when it
  -- gives way to queued operations, and at its end when it has staged an entry, which is counted in
  -- `originals`, or holds one that did not fit.
  unfoldable pub admit_notifies : SubmissionId → Shared → Admission → Driver → Bool
  admit_notifies s x a d =
      not x.driver.data_.accepting
      || not (is_empty x.driver.data_.owned_pending)
      || not (is_empty x.driver.data_.owned_cancel_queue)
      || not (is_empty x.owned_queue)
      || not ((inner_of d s).originals == (inner_of x.driver s).originals)
      || not (is_none a.pending)

  -- `admit` with its notifications.
  unfoldable pub admit_with :
      (DriverData → Ptr)
      → Errnos
      → (ℕ → Result ℕ (Option ℕ))
      → SubmissionId
      → Admission
      → Shared
      → SubmissionQueue
      → Outcome (Admission × Shared × SubmissionQueue)
  admit_with alloc errnos answer s a x sq =
      admit alloc errnos (is_empty x.owned_queue) answer s a (x.driver, sq) >>= λ (a', d, sq').
      let left : Shared = record x { driver = d } in
      if admit_notifies s x a' d
      then (notified accepts left >>= λ told. done (a', told, sq'))
      else done (a', left, sq')

  -- `<SubmitEntries as Future>::poll`
  unfoldable pub poll :
      (DriverData → Ptr)
      → Errnos
      → (ℕ → Result ℕ (Option ℕ))
      → SubmissionId
      → Waker
      → SubmitEntries
      → Shared
      → SubmissionQueue
      → Outcome Polled
  poll alloc errnos answer s w f x sq =
      if f.ended
      then stop
      else (if f.closed
          then done (f.admission, x, sq)
          else admit_with alloc errnos answer s f.admission x sq)
        >>= λ (a, x', sq'). settle s w (record f { admission = a }) x' sq'

  -- `<SubmitEntries as Drop>::drop`
  unfoldable pub drop_entries : SubmissionId → SubmitEntries → Shared → Outcome Shared
  drop_entries s f x = if not f.ended then cancel_with s detached x else done x

  -- `<CompletionStream as Drop>::drop`, and `cancel`, after which the stream is not active.
  unfoldable pub drop_stream : SubmissionId → Bool → Shared → Outcome Shared
  drop_stream s active x = if active then cancel_with s detached x else done x

  unfoldable pub cancel_stream : SubmissionId → Shared → Outcome Shared
  cancel_stream s x = cancel_with s cancelling x
