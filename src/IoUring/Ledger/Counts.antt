-- ===== src/IoUring/Ledger/Counts.antt =====
-- What the parts of `dispatch_raw` in src/io_uring.rs do to the counters of a submission.
use nosv.Base.{ℕ, ◌+◌, ◌≡◌, refl, ◌==◌, to_ℕ, not, ◌&&◌, arith}
use nosv.IoUring.Data.{SubmissionInner, Completion, Cqe, CqeContext, Driver, inner_of}
use nosv.IoUring.Submission.{
  Locked, wake_drain, wake_admission, deliver_original, retire_original, deliver_cancel,
  retire_cancel,
}
use nosv.IoUring.Dispatch.{restored, complete_original}

-- `j` has the counters of `i`, with so many originals and cancellations more that are terminal.
pub record Counted (i j : SubmissionInner) (originals cancels : ℕ) : Type 0 where
  pub originals_eq : j.originals ≡ i.originals
  pub accepted_eq : j.accepted ≡ i.accepted
  pub terminal_eq : j.original_terminal ≡ i.original_terminal + originals
  pub cancels_eq : j.cancels ≡ i.cancels
  pub cancel_terminal_eq : j.cancel_terminal ≡ i.cancel_terminal + cancels

wake_drain-Counted : (l : Locked) → Counted l.0 (wake_drain l).0 0 0
unfolding wake_drain
wake_drain-Counted (i, wakes) = ground arith

pub wake_admission-Counted : (l : Locked) → Counted l.0 (wake_admission l).0 0 0
unfolding wake_admission
wake_admission-Counted (i, wakes) = ground arith

pub deliver_original-Counted :
    (limit : ℕ) (c : Completion) (l : Locked) → Counted l.0 (deliver_original limit c l).0.0 0 0
unfolding deliver_original
deliver_original-Counted limit c (i, wakes) = ground arith

pub retire_original-Counted : (l : Locked) → Counted l.0 (retire_original l).0 1 0
unfolding retire_original
retire_original-Counted (i, wakes) = ground arith

pub deliver_cancel-Counted :
    (limit : ℕ) (c : Completion) (l : Locked) → Counted l.0 (deliver_cancel limit c l).0 0 0
unfolding deliver_cancel
deliver_cancel-Counted limit c (i, wakes) = ground arith

pub retire_cancel-Counted : (l : Locked) → Counted l.0 (retire_cancel l).0 0 1
unfolding retire_cancel
retire_cancel-Counted (i, wakes) = ground arith

pub complete_original-Counted :
    (c : CqeContext) (cqe : Cqe) (d : Driver) (s : ℕ)
    → Counted
        (inner_of d s)
        (inner_of (complete_original c cqe d).0 s)
        (to_ℕ (not cqe.more && (c.state == s)))
        0
unfolding complete_original
complete_original-Counted c cqe d s =
    let admitted : Locked = wake_admission (inner_of d c.state, d.wakes) in
    let delivered : Locked =
      (deliver_original (d.states c.state).limit (restored c cqe) admitted).0 in
    ground (
      arith,
      wake_admission-Counted (inner_of d c.state, d.wakes),
      deliver_original-Counted (d.states c.state).limit (restored c cqe) admitted,
      retire_original-Counted delivered,
    )

pub complete_original-data :
    (c : CqeContext) (cqe : Cqe) (d : Driver) → (complete_original c cqe d).0.data_ ≡ d.data_
unfolding complete_original
complete_original-data c cqe d = refl
