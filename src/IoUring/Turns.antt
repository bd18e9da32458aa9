-- ===== src/IoUring/Turns.antt =====
-- The turns that the ring driver of src/io_uring.rs and its callers take on caller-made entries, and the
-- books over any sequence of them.
use nosv.Base.{ℕ, ◌+◌, ◌<◌, ◌≡◌, refl, subst, Bool, true, false, Option, [], length, arith}
use nosv.Base.Outcome.{Outcome, done, Returns, Returns->>=}
use nosv.Base.Result.{Result}
use nosv.IoUring.Data.{
  Ptr, SubmissionId, SubmissionInner, CqeContext, Cqe, Waker, new_state, Delivery, cancelling,
  Driver, DriverData, SubmissionQueue, inner_of, set_inner,
}
use nosv.IoUring.Submission.{next_completion, next_cancellation, wait_drained}
use nosv.IoUring.Dispatch.{dispatch_raw}
use nosv.IoUring.Cancel.{request_cancel, stage_cancellations}
use nosv.IoUring.Submit.{Errnos, submit_staged}
use nosv.IoUring.Admit.{Admission, usize_max, admit_loop, admit_ring, admit}
use nosv.IoUring.Ledger.{Inv}
use nosv.IoUring.Ledger.Dispatch.{IsExpected, dispatch_raw-Inv}
use nosv.IoUring.Ledger.Requests.{request_cancel-Inv}
use nosv.IoUring.Ledger.Staging.{IsFresh, with_data, stage_cancellations-Inv}
use nosv.IoUring.Ledger.Admission.{admit_loop-Inv}
use nosv.IoUring.Ledger.Submission.{IsAnswer, submit_staged-Inv}

module _ (alloc : DriverData → Ptr) (fresh : IsFresh alloc) where
  module _ (errnos : Errnos) (answer : ℕ → Result ℕ (Option ℕ))
      (answers : (n : ℕ) → IsAnswer errnos n (answer n)) where
    admit_ring-Inv :
        (s : SubmissionId) (a : Admission) (d : Driver) (sq : SubmissionQueue)
        → a.next_index + length a.iterator < usize_max
        → Inv d
        → Returns (admit_ring alloc errnos answer s a (d, sq)) (λ (_, d', _). Inv d')
    unfolding admit_ring
    admit_ring-Inv s a d sq h v =
        Returns->>= (stage_cancellations alloc d.data_ sq) _ (λ (data', _). Inv (with_data d data'))
          _ (stage_cancellations-Inv alloc fresh d sq v)
          (λ (data', sq') v'.
            Returns->>= (admit_loop alloc s a (with_data d data', sq')) _ (λ (_, d', _). Inv d') _
              (admit_loop-Inv alloc fresh s a (with_data d data') sq' h v')
              (λ (a', d', sq'') v''.
                Returns->>= (submit_staged errnos (answer (length d'.data_.staged)) d') _ Inv _
                  (submit_staged-Inv errnos (answer (length d'.data_.staged)) d' v''
                    (answers (length d'.data_.staged)))
                  (λ d'' w. w)))

    -- When the books are right, the addresses of new boxes are fresh, the kernel answers as it may and
    -- the indices do not run out, an attempt at admission does not stop the process and leaves the
    -- books right, whichever way it ends.
    pub admit-Inv :
        (owned_queue_empty : Bool) (s : SubmissionId) (a : Admission) (d : Driver)
        (sq : SubmissionQueue)
        → a.next_index + length a.iterator < usize_max
        → Inv d
        → Returns (admit alloc errnos owned_queue_empty answer s a (d, sq)) (λ (_, d', _). Inv d')
    unfolding admit
    admit-Inv owned_queue_empty s a d sq h v =
        ground (arith, request_cancel-Inv s cancelling d v, admit_ring-Inv s a d sq h v, v)

-- Admission ends, as `shutdown_and_wait` has it before it cancels.
abbrev pub ended_admission : Driver → Driver
ended_admission d = with_data d (record d.data_ { accepting = false; shutdown = true })

-- What a poll of a future of a submission leaves alone.
abbrev SameCounters : SubmissionInner → SubmissionInner → Type 0
SameCounters i j =
    (j.originals ≡ i.originals)
    × (j.accepted ≡ i.accepted)
    × (j.original_terminal ≡ i.original_terminal)
    × (j.cancels ≡ i.cancels)
    × (j.cancel_terminal ≡ i.cancel_terminal)

next_completion-SameCounters :
    (w : Waker) (i : SubmissionInner) → SameCounters i (next_completion w i).0
unfolding next_completion
next_completion-SameCounters w i = ground arith

next_cancellation-SameCounters :
    (w : Waker) (i : SubmissionInner) → SameCounters i (next_cancellation w i).0
unfolding next_cancellation
next_cancellation-SameCounters w i = ground arith

wait_drained-SameCounters : (w : Waker) (i : SubmissionInner) → SameCounters i (wait_drained w i).0
unfolding wait_drained
wait_drained-SameCounters w i = ground arith

polled-Inv :
    (s : SubmissionId) (j : SubmissionInner) (d : Driver)
    → SameCounters (inner_of d s) j
    → Inv d
    → Inv (set_inner s j d)
polled-Inv s j d h v = record {
  is_map = v.is_map;
  nonnull = v.nonnull;
  sound = v.sound;
  balanced = λ u. ground (arith, v.balanced u, h);
  aimed = v.aimed;
  in_order = v.in_order;
  owned_order = v.owned_order;
  cancel_order = v.cancel_order;
}

ended_admission-Inv : (d : Driver) → Inv d → Inv (ended_admission d)
ended_admission-Inv d v = record {
  is_map = v.is_map;
  nonnull = v.nonnull;
  sound = v.sound;
  balanced = v.balanced;
  aimed = v.aimed;
  in_order = v.in_order;
  owned_order = v.owned_order;
  cancel_order = v.cancel_order;
}

-- A turn that completes, of the driver or of one of its callers, on caller-made entries.
pub data Step (alloc : DriverData → Ptr) (errnos : Errnos) : Driver → Driver → Type 0 where
  dispatched :
      {d d' : Driver} (cqe : Cqe) (c : CqeContext) (overflowed : Option SubmissionId)
      → IsExpected cqe d c
      → dispatch_raw cqe d ≡ done (d', overflowed)
      → Step alloc errnos d d'
  cancelled :
      {d : Driver} (s : SubmissionId) (delivery : Delivery)
      → Step alloc errnos d (request_cancel s delivery d)
  admitted :
      {d d' : Driver} (owned_queue_empty : Bool) (answer : ℕ → Result ℕ (Option ℕ))
      (s : SubmissionId) (a a' : Admission) (sq sq' : SubmissionQueue)
      → ((n : ℕ) → IsAnswer errnos n (answer n))
      → a.next_index + length a.iterator < usize_max
      → admit alloc errnos owned_queue_empty answer s a (d, sq) ≡ done (a', d', sq')
      → Step alloc errnos d d'
  passed :
      {d d' : Driver} (answer : Result ℕ (Option ℕ)) (sq sq' : SubmissionQueue) (data' : DriverData)
      → stage_cancellations alloc d.data_ sq ≡ done (data', sq')
      → IsAnswer errnos (length data'.staged) answer
      → submit_staged errnos answer (with_data d data') ≡ done d'
      → Step alloc errnos d d'
  read :
      {d : Driver} (s : SubmissionId) (w : Waker)
      → Step alloc errnos d (set_inner s (next_completion w (inner_of d s)).0 d)
  read_cancellation :
      {d : Driver} (s : SubmissionId) (w : Waker)
      → Step alloc errnos d (set_inner s (next_cancellation w (inner_of d s)).0 d)
  waited :
      {d : Driver} (s : SubmissionId) (w : Waker)
      → Step alloc errnos d (set_inner s (wait_drained w (inner_of d s)).0 d)
  refusing : {d : Driver} → Step alloc errnos d (ended_admission d)

pub data Reach (alloc : DriverData → Ptr) (errnos : Errnos) : Driver → Driver → Type 0 where
  here : {d : Driver} → Reach alloc errnos d d
  there :
      {d d' d'' : Driver}
      → Step alloc errnos d d'
      → Reach alloc errnos d' d''
      → Reach alloc errnos d d''

-- What a call that returns has is what its result has.
Returns-done {ℓ} :
    {A : Type ℓ} (m : Outcome A) (a : A) (P : A → Type 0) → Returns m P → m ≡ done a → P a
Returns-done m a P h e = subst (λ n. Returns n P) e h

module _ (alloc : DriverData → Ptr) (fresh : IsFresh alloc) (errnos : Errnos) where
  Step-Inv : (d d' : Driver) → Inv d → Step alloc errnos d d' → Inv d'
  Step-Inv d d' v (dispatched cqe c o e q) =
      Returns-done (dispatch_raw cqe d) (d', o) _ (dispatch_raw-Inv cqe d c v e) q
  Step-Inv d d' v (cancelled s delivery) = request_cancel-Inv s delivery d v
  Step-Inv d d' v (admitted o answer s a a' sq sq' answers h q) =
      Returns-done (admit alloc errnos o answer s a (d, sq)) (a', d', sq') _
        (admit-Inv alloc fresh errnos answer answers o s a d sq h v) q
  Step-Inv d d' v (passed answer sq sq' data' q h r) =
      let v' : Inv (with_data d data') =
        Returns-done (stage_cancellations alloc d.data_ sq) (data', sq') _
          (stage_cancellations-Inv alloc fresh d sq v) q in
      Returns-done (submit_staged errnos answer (with_data d data')) d' _
        (submit_staged-Inv errnos answer (with_data d data') v' h) r
  Step-Inv d d' v (read s w) = polled-Inv s _ d (next_completion-SameCounters w (inner_of d s)) v
  Step-Inv d d' v (read_cancellation s w) =
      polled-Inv s _ d (next_cancellation-SameCounters w (inner_of d s)) v
  Step-Inv d d' v (waited s w) = polled-Inv s _ d (wait_drained-SameCounters w (inner_of d s)) v
  Step-Inv d d' v refusing = ended_admission-Inv d v

  -- Turns of the driver and of its callers, in any order, leave the books right.
  pub Reach-Inv : (d d' : Driver) → Inv d → Reach alloc errnos d d' → Inv d'
  Reach-Inv d d' v here = v
  Reach-Inv d d' v (there step steps) = Reach-Inv _ d' (Step-Inv d _ v step) steps

-- The driver that `start` makes, with the submissions that `register_submission` will add to it.
abbrev pub started : ℕ → Driver
started limit = record {
  data_ = record {
    contexts = [];
    staged = [];
    cancel_queue = [];
    owned_contexts = [];
    owned_cancel_contexts = [];
    owned_pending = [];
    owned_cancel_queue = [];
    submissions = [];
    accepting = true;
    shutdown = false;
  };
  states = λ _. new_state limit;
  wakes = [];
}

pub started-Inv : (limit : ℕ) → Inv (started limit)
started-Inv limit = record {
  is_map = tt;
  nonnull = refl;
  sound = tt;
  balanced = λ s. record { originals = refl; accepted = refl; cancels = refl };
  aimed = λ s t. refl;
  in_order = λ p. refl;
  owned_order = λ p. refl;
  cancel_order = λ p. refl;
}
