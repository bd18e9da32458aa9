-- ===== src/IoUring/Lifetime/Tests.antt =====
-- One entry through the ring driver of src/io_uring.rs: admitted, accepted, cancelled, completed.
use nosv.Base.{
  ℕ, ◌+◌, ◌≤◌, ◌<◌, ◌≡◌, ◌≢◌, ◌↔◌, refl, max, true, false, Option, none, some, [], ◌∷◌, length,
  arith,
}
use nosv.Base.Int.{pos}
use nosv.Base.Outcome.{Outcome, done, stop, Returns}
use nosv.Base.Result.{Result, ok, err}
use nosv.Base.Dict.{Dict, lookup, insert, erase}
use nosv.IoUring.Data.{
  Ptr, CqeContext, submitted, Cqe, operation, Driver, DriverData, SubmissionQueue, inner_of,
  cancelling,
}
use nosv.IoUring.Submission.{
  wait_drained, drained, ready, wake_drain, wake_admission, deliver_original, retire_original,
}
use nosv.IoUring.Dispatch.{complete_original, dispatch_original, dispatch_kind, dispatch_raw}
use nosv.IoUring.Cancel.{request_cancel, stage_commands, stage_cancellations}
use nosv.IoUring.Submit.{Errnos, is_retryable, accept, accept_prefix, submit_staged}
use nosv.IoUring.Admit.{
  Admission, usize_max, stage_original, admit_rest, admit_loop, admit_ring, admit, original_context,
}
use nosv.IoUring.Ledger.{Inv}
use nosv.IoUring.Ledger.Dispatch.{IsExpected, dispatch_raw-Inv}
use nosv.IoUring.Ledger.Requests.{request_cancel-Inv}
use nosv.IoUring.Ledger.Staging.{IsFresh}
use nosv.IoUring.Ledger.Submission.{IsAnswer}
use nosv.IoUring.Delivery.{IsRouted, dispatch_raw-IsRouted}
use nosv.IoUring.Turns.{
  admitted, dispatched, refusing, ended_admission, Reach, here, there, Reach-Inv, started,
  started-Inv,
}
use nosv.IoUring.Lifetime.{IsReleased, wait_drained-IsReleased}
use nosv.IoUring.Gate.{opened}
use nosv.IoUring.Shutdown.{Shared}
use nosv.IoUring.Entries.{SubmitEntries, poll}
use nosv.IoUring.Entries.Results.{IsPolled, poll-IsPolled}

-- An allocator that gives the address after the largest in use.
abbrev above : Dict CqeContext → ℕ
above [] = 1
above (e ∷ d) = max (e.0 + 1) (above d)

abbrev alloc : DriverData → Ptr
alloc d = above d.contexts

lookup-above : (n : ℕ) (d : Dict CqeContext) → above d ≤ n → lookup n d ≡ none
lookup-above n [] h = refl
lookup-above n (e ∷ d) h = ground (arith, lookup-above n d)

above-some : (d : Dict CqeContext) → above d ≢ 0
above-some [] = λ e. omega arith
above-some (e ∷ d) = λ e. omega arith

alloc-IsFresh : IsFresh alloc
alloc-IsFresh d = (lookup-above (above d.contexts) d.contexts (omega arith), above-some d.contexts)

abbrev errnos : Errnos
errnos = record { eintr = 4; eagain = 11; ebusy = 16 }

-- The kernel accepts everything, or is busy.
abbrev all_of : ℕ → Result ℕ (Option ℕ)
all_of n = ok n

abbrev busy : ℕ → Result ℕ (Option ℕ)
busy n = err (some 16)

all_of-IsAnswer : (n : ℕ) → IsAnswer errnos n (all_of n)
all_of-IsAnswer n = omega arith

abbrev value {ℓ} : {A : Type ℓ} → Outcome A → A → A
value (done a) b = a
value stop b = b

abbrev two_entries : Admission
two_entries = record {
  iterator =
      record { user_data = 77; opcode = operation 1 }
      ∷ record { user_data = 78; opcode = operation 2 }
      ∷ [];
  pending = none;
  next_index = 0;
}

abbrev one_slot : SubmissionQueue
one_slot = record { free = 1; pushed = [] }

abbrev first : Driver
first = started 4

abbrev admission : Outcome (Admission × Driver × SubmissionQueue)
unfolding admit admit_ring stage_cancellations stage_commands admit_loop stage_original admit_rest
    submit_staged accept_prefix accept insert
admission = admit alloc errnos true all_of 0 two_entries (first, one_slot)

abbrev running : Driver
unfolding admission
running = (value admission (two_entries, first, one_slot)).1

abbrev after_admission : Admission
unfolding admission
after_admission = (value admission (two_entries, first, one_slot)).0

abbrev after_slots : SubmissionQueue
unfolding admission
after_slots = (value admission (two_entries, first, one_slot)).2

admission-done :
    admit alloc errnos true all_of 0 two_entries (first, one_slot)
    ≡ done (after_admission, running, after_slots)
unfolding admit admit_ring stage_cancellations stage_commands admit_loop stage_original admit_rest
    submit_staged accept_prefix accept insert after_admission running after_slots
admission-done = refl

running-Reach : Reach alloc errnos first running
running-Reach =
    there
      (admitted true all_of 0 two_entries after_admission one_slot after_slots all_of-IsAnswer
        (omega arith) admission-done)
      here

running-Inv : Inv running
running-Inv = Reach-Inv alloc alloc-IsFresh errnos first running (started-Inv 4) running-Reach

abbrev cqe : Cqe
cqe = record { user_data = 1; result = pos 5; more = false }

abbrev first_context : CqeContext
first_context = record (original_context 0 0 (record { user_data = 77; opcode = operation 1 })) {
  phase = submitted;
}

is_expected : IsExpected cqe running first_context
unfolding running
is_expected = record { found = refl; phase = refl; single = λ e. ground arith }

dispatch_raw-Inv_example : Returns (dispatch_raw cqe running) (λ (d, _). Inv d)
dispatch_raw-Inv_example = dispatch_raw-Inv cqe running first_context running-Inv is_expected

dispatch_raw-IsRouted_example :
    Returns (dispatch_raw cqe running) (IsRouted first_context cqe running)
dispatch_raw-IsRouted_example =
    dispatch_raw-IsRouted cqe running first_context running-Inv is_expected refl

abbrev completion : Outcome (Driver × Option ℕ)
unfolding running dispatch_raw dispatch_kind dispatch_original complete_original deliver_original
    wake_admission retire_original wake_drain drained insert erase
completion = dispatch_raw cqe running

abbrev over : Driver
unfolding completion
over = (value completion (first, none)).0

completion-done : dispatch_raw cqe running ≡ done (over, none)
unfolding over completion running dispatch_raw dispatch_kind dispatch_original complete_original
    deliver_original wake_admission retire_original wake_drain drained insert erase
completion-done = refl

over-Reach : Reach alloc errnos first (ended_admission over)
over-Reach =
    there
      (admitted true all_of 0 two_entries after_admission one_slot after_slots all_of-IsAnswer
        (omega arith) admission-done)
      (there (dispatched cqe first_context none is_expected completion-done) (there refusing here))

wait_drained-IsReleased_example :
    ((wait_drained 3 (inner_of (ended_admission over) 0)).1 ≡ ready tt)
    ↔ IsReleased 0 (ended_admission over)
wait_drained-IsReleased_example =
    wait_drained-IsReleased alloc alloc-IsFresh errnos 4 (ended_admission over) over-Reach 0 3

still_below : after_admission.next_index + length after_admission.iterator < usize_max
unfolding after_admission
still_below = omega arith

busy-IsAnswer : (n : ℕ) → IsAnswer errnos n (busy n)
unfolding is_retryable
busy-IsAnswer n = refl

abbrev closing : Driver
closing = request_cancel 0 cancelling running

closing-Inv : Inv closing
closing-Inv = request_cancel-Inv 0 cancelling running running-Inv

abbrev begun : SubmitEntries
begun = record { admission = two_entries; closed = false; ended = false }

abbrev idle : Shared
idle = record { driver = started 4; gate = opened; owned_admission = true; owned_queue = [] }

poll-IsPolled_example :
    Returns (poll (λ _. true) alloc errnos all_of 0 7 begun idle one_slot) (IsPolled 0 7 0)
poll-IsPolled_example =
    poll-IsPolled (λ _. true) (λ w. refl) 0 7 alloc alloc-IsFresh errnos all_of all_of-IsAnswer
      begun idle one_slot (started-Inv 4) refl refl (omega arith)
