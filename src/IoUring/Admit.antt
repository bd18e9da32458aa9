-- ===== src/IoUring/Admit.antt =====
-- Admission in src/io_uring.rs: the entries of a caller's iterator are staged, and the prefix that
-- the kernel accepts is marked as submitted.
use nosv.Base.{
  ℕ, ◌+◌, ◌-◌, ◌^◌, Bool, true, false, not, ◌||◌, Option, none, some, List, [], ◌∷◌, ◌==◌, length,
  is_empty, if◌then◌else◌,
}
use nosv.Base.Outcome.{Outcome, done, stop, ◌>>=◌}
use nosv.Base.Result.{Result}
use nosv.Base.Dict.{contains_key}
use nosv.IoUring.Data.{
  Ptr, SubmissionId, CqeContext, original, unsubmitted, DriverData, Driver, cancelling, Sqe,
  SubmissionQueue, inner_of, set_inner,
}
use nosv.IoUring.Submission.{take_into}
use nosv.IoUring.Cancel.{push, stage, request_cancel, stage_cancellations}
use nosv.IoUring.Submit.{Errnos, submit_staged}

abbrev pub usize_max : ℕ
usize_max = 2 ^ 64 - 1

-- The admission future: its iterator, the entry that did not fit, and the next index.
pub record Admission : Type 0 where
  pub iterator : List Sqe
  pub pending : Option (ℕ × Sqe)
  pub next_index : ℕ

abbrev pub original_context : SubmissionId → ℕ → Sqe → CqeContext
original_context s index entry = record {
  kind = original;
  phase = unsubmitted;
  index = index;
  original_user_data = entry.user_data;
  state = s;
  target = none;
  cancel_queued = false;
  cancel_seen = false;
}

module _ (alloc : DriverData → Ptr) where
  -- One entry is staged; `none` if the submission queue is full.
  unfoldable pub stage_original :
      SubmissionId
      → ℕ × Sqe
      → Driver × SubmissionQueue
      → Outcome (Option (Driver × SubmissionQueue))
  stage_original s (index, entry) (d, sq) =
      let pointer = alloc d.data_ in
      if contains_key pointer d.data_.contexts
      then stop
      else elim (push (record entry { user_data = pointer }) sq) [
        | none ↦ done none
        | some next ↦
            let i = inner_of d s in
            done (
              some (
                set_inner s (record i { originals = i.originals + 1 })
                    (record d { data_ = stage pointer (original_context s index entry) d.data_ }),
                next,
              ))
      ]

  -- The rounds of the loop that begin without a pending entry.
  unfoldable pub admit_rest :
      SubmissionId
      → List Sqe
      → ℕ
      → Driver × SubmissionQueue
      → Outcome (Admission × Driver × SubmissionQueue)
  admit_rest s [] next (d, sq) =
      let i = inner_of d s in
      done (
        record { iterator = []; pending = none; next_index = next },
        record (set_inner s (record i { iterator_finished = true; admission_waker = none }) d) {
          wakes = take_into i.admission_waker d.wakes;
        },
        sq,
      )
  admit_rest s (entry ∷ entries) next dsq =
      let rest = admit_rest s entries (next + 1) in
      if next == usize_max
      then stop
      else stage_original s (next, entry) dsq >>= λ staged_. elim staged_ [
        | none ↦ done (
          record { iterator = entries; pending = some (next, entry); next_index = next + 1 },
          dsq.0,
          dsq.1,
        )
        | some dsq' ↦ rest dsq'
      ]

  -- The loop of `admit`.
  unfoldable pub admit_loop :
      SubmissionId
      → Admission
      → Driver × SubmissionQueue
      → Outcome (Admission × Driver × SubmissionQueue)
  admit_loop s a dsq = elim a.pending [
    | none ↦ admit_rest s a.iterator a.next_index dsq
    | some entry ↦ stage_original s entry dsq >>= λ staged_. elim staged_ [
      | none ↦ done (a, dsq.0, dsq.1)
      | some dsq' ↦ admit_rest s a.iterator a.next_index dsq'
    ]
  ]

  -- The part of `admit` that holds the ring, with the answer of `ring.submit` to the number of
  -- entries in order.
  unfoldable pub admit_ring :
      Errnos
      → (ℕ → Result ℕ (Option ℕ))
      → SubmissionId
      → Admission
      → Driver × SubmissionQueue
      → Outcome (Admission × Driver × SubmissionQueue)
  admit_ring errnos answer s a (d, sq) = stage_cancellations alloc d.data_ sq >>= λ (data', sq').
      admit_loop s a (record d { data_ = data' }, sq') >>= λ (a', d', sq'').
      submit_staged errnos (answer (length d'.data_.staged)) d' >>= λ d''. done (a', d'', sq'')

  -- `admit`, with whether the queue of owned operations is empty.
  unfoldable pub admit :
      Errnos
      → Bool
      → (ℕ → Result ℕ (Option ℕ))
      → SubmissionId
      → Admission
      → Driver × SubmissionQueue
      → Outcome (Admission × Driver × SubmissionQueue)
  admit errnos owned_queue_empty answer s a (d, sq) =
      if not d.data_.accepting
      then done (a, request_cancel s cancelling d, sq)
      else if not (is_empty d.data_.owned_pending)
          || not (is_empty d.data_.owned_cancel_queue)
          || not owned_queue_empty
      then done (a, d, sq)
      else admit_ring errnos answer s a (d, sq)
