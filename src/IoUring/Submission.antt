-- ===== src/IoUring/Submission.antt =====
-- One submission of src/io_uring.rs: what a completion does to its queues, counters and wakers, and
-- what its callers see of them. `wakes` are the wakers taken, newest first.
use nosv.Base.{
  ℕ, ◌+◌, Bool, true, false, not, ◌&&◌, ◌||◌, Option, none, some, List, [], ◌∷◌, ◌++◌, ltb, ◌==◌,
  length, if◌then◌else◌,
}
use nosv.Base.Result.{Result, ok, err}
use nosv.IoUring.Data.{SubmissionInner, Completion, overflow, detached, Waker, is_open, is_detached}

-- `Option::take` of a waker that is then pushed on `wakes`.
abbrev pub take_into : Option Waker → List Waker → List Waker
take_into none wakes = wakes
take_into (some w) wakes = w ∷ wakes

abbrev pub replace_waker : Option Waker → Waker → Option Waker
replace_waker none w = some w
replace_waker (some old) w = if old == w then some old else some w

unfoldable pub drained : SubmissionInner → Bool
drained i = (i.original_terminal == i.originals) && (i.cancel_terminal == i.cancels)

-- The state of a submission under its lock, with the wakers collected.
abbrev pub Locked : Type 0
Locked = SubmissionInner × List Waker

unfoldable pub wake_drain : Locked → Locked
unfolding drained
wake_drain (i, wakes) =
    if drained i
    then (record i { drain_waker = none }, take_into i.drain_waker wakes)
    else (i, wakes)

-- The three parts of the original branch of `dispatch_raw`, in its order.
unfoldable pub wake_admission : Locked → Locked
wake_admission (i, wakes) =
    if not i.iterator_finished
    then (record i { admission_waker = none }, take_into i.admission_waker wakes)
    else (i, wakes)

-- The Boolean says that this completion is the first that did not fit.
unfoldable pub deliver_original : ℕ → Completion → Locked → Locked × Bool
deliver_original limit c (i, wakes) =
    if not (is_open i.delivery)
    then ((i, wakes), false)
    else if ltb (length i.normal) limit
    then (
      (
        record i { normal = i.normal ++ c ∷ []; normal_waker = none },
        take_into i.normal_waker wakes,
      ),
      false,
    )
    else if not i.normal_overflow
    then (
      (
        record i { normal_overflow = true; delivery = overflow; normal_waker = none },
        take_into i.normal_waker wakes,
      ),
      true,
    )
    else ((record i { normal_waker = none }, take_into i.normal_waker wakes), false)

unfoldable pub retire_original : Locked → Locked
unfolding wake_drain
retire_original (i, wakes) =
    let counted : SubmissionInner = record i { original_terminal = i.original_terminal + 1 } in
    wake_drain (
      if counted.original_terminal == counted.originals
      then (record counted { normal_waker = none }, take_into i.normal_waker wakes)
      else (counted, wakes))

-- The cancellation branch of `dispatch_raw`.
unfoldable pub deliver_cancel : ℕ → Completion → Locked → Locked
deliver_cancel limit c (i, wakes) =
    if is_detached i.delivery
    then (i, wakes)
    else if ltb (length i.cancellations) limit
    then (
      record i { cancellations = i.cancellations ++ c ∷ []; cancel_waker = none },
      take_into i.cancel_waker wakes,
    )
    else (record i { cancel_overflow = true; cancel_waker = none }, take_into i.cancel_waker wakes)

unfoldable pub retire_cancel : Locked → Locked
unfolding wake_drain
retire_cancel (i, wakes) =
    let counted : SubmissionInner = record i { cancel_terminal = i.cancel_terminal + 1 } in
    wake_drain (
      if counted.cancel_terminal == counted.cancels
      then (record counted { cancel_waker = none }, take_into i.cancel_waker wakes)
      else (counted, wakes))

unfoldable pub detach : SubmissionInner → SubmissionInner
detach i = record i {
  delivery = detached;
  normal = [];
  cancellations = [];
  normal_waker = none;
  cancel_waker = none;
}

pub data CompletionError : Type 0 where
  buffer_overflow : CompletionError

pub data Poll {ℓ} (A : Type ℓ) : Type ℓ where
  pending : Poll A
  ready : A → Poll A

abbrev pub Item : Type 0
Item = Option (Result Completion CompletionError)

-- `<NextCompletion as Future>::poll`
unfoldable pub next_completion : Waker → SubmissionInner → SubmissionInner × Poll Item
next_completion w i = elim i.normal [
  | c ∷ rest ↦ (record i { normal = rest }, ready (some (ok c)))
  | [] ↦
      if i.normal_overflow
      then (record i { normal_overflow = false }, ready (some (err buffer_overflow)))
      else if not (is_open i.delivery)
          || (i.iterator_finished && (i.original_terminal == i.originals))
      then (i, ready none)
      else (record i { normal_waker = replace_waker i.normal_waker w }, pending)
]

-- `<NextCancellation as Future>::poll`
unfoldable pub next_cancellation : Waker → SubmissionInner → SubmissionInner × Poll Item
next_cancellation w i = elim i.cancellations [
  | c ∷ rest ↦ (record i { cancellations = rest }, ready (some (ok c)))
  | [] ↦
      if i.cancel_overflow
      then (record i { cancel_overflow = false }, ready (some (err buffer_overflow)))
      else if i.cancel_terminal == i.cancels
      then (i, ready none)
      else (record i { cancel_waker = replace_waker i.cancel_waker w }, pending)
]

-- `<WaitDrained as Future>::poll`
unfoldable pub wait_drained : Waker → SubmissionInner → SubmissionInner × Poll (Unit {0})
unfolding drained
wait_drained w i =
    if drained i
    then (i, ready tt)
    else (record i { drain_waker = replace_waker i.drain_waker w }, pending)
