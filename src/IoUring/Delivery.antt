-- ===== src/IoUring/Delivery.antt =====
-- Where src/io_uring.rs delivers completions, and how much it keeps.
use nosv.Base.{
  ℕ, ◌≡◌, Bool, not, ◌&&◌, Option, none, some, List, [], ◌∷◌, ◌++◌, ◌==◌, ltb, length, arith,
  if◌then◌else◌,
}
use nosv.Base.Outcome.{done, Returns}
use nosv.Base.Dict.{erase}
use nosv.IoUring.Data.{
  SubmissionId, Completion, CqeContext, Cqe, original, Driver, inner_of, is_open,
}
use nosv.IoUring.Submission.{Locked, wake_drain, wake_admission, deliver_original, retire_original}
use nosv.IoUring.Dispatch.{
  restored, set_contexts, complete_original, dispatch_original, dispatch_kind, dispatch_raw,
}
use nosv.IoUring.Ledger.{Inv}
use nosv.IoUring.Ledger.Dispatch.{IsExpected}

-- What of the state of a submission its callers read, with the limit of its queues.
abbrev normal_of : Driver → SubmissionId → List Completion
normal_of d s = (inner_of d s).normal

abbrev limit_of : Driver → SubmissionId → ℕ
limit_of d s = (d.states s).limit

-- A completion fits if the delivery is open and the queue is not full.
abbrev pub fits : Driver → SubmissionId → Bool
fits d s = is_open (inner_of d s).delivery && ltb (length (normal_of d s)) (limit_of d s)

abbrev pub overflows : Driver → SubmissionId → Bool
overflows d s =
    is_open (inner_of d s).delivery
    && not (ltb (length (normal_of d s)) (limit_of d s))
    && not (inner_of d s).normal_overflow

retire_original-normal : (l : Locked) → (retire_original l).0.normal ≡ l.0.normal
unfolding retire_original wake_drain
retire_original-normal (i, wakes) = ground arith

complete_original-normal :
    (c : CqeContext) (cqe : Cqe) (d : Driver) (s : SubmissionId)
    → normal_of (complete_original c cqe d).0 s
      ≡ (if (c.state == s) && fits d s then normal_of d s ++ restored c cqe ∷ [] else normal_of d s)
unfolding complete_original deliver_original wake_admission
complete_original-normal c cqe d s =
    let locked : Locked =
      (deliver_original (limit_of d c.state) (restored c cqe)
        (wake_admission (inner_of d c.state, d.wakes))).0 in
    ground (arith, retire_original-normal locked)

complete_original-first :
    (c : CqeContext) (cqe : Cqe) (d : Driver) → (complete_original c cqe d).1 ≡ overflows d c.state
unfolding complete_original deliver_original wake_admission
complete_original-first c cqe d = ground arith

-- The completion as its caller is to see it: the place of its entry and its own `user_data`.
abbrev pub own_completion : CqeContext → Cqe → Completion
own_completion c cqe = record {
  index = c.index;
  cqe = record { user_data = c.original_user_data; result = cqe.result; more = cqe.more };
}

-- What is right of the result when a completion for the context `c` is dispatched.
abbrev pub IsRouted : CqeContext → Cqe → Driver → Driver × Option SubmissionId → Type 0
IsRouted c cqe d (d', overflowed) =
    ((s : SubmissionId)
      → normal_of d' s ≡ (
          if (c.state == s) && fits d s
          then normal_of d s ++ own_completion c cqe ∷ []
          else normal_of d s))
    × (overflowed ≡ (if overflows d c.state then some c.state else none))

dispatch_original-IsRouted :
    (c : CqeContext) (cqe : Cqe) (d : Driver)
    → IsRouted c cqe d (
        dispatch_original cqe.user_data c cqe
          (set_contexts (erase cqe.user_data d.data_.contexts) d))
unfolding dispatch_original
dispatch_original-IsRouted c cqe d =
    let taken : Driver = set_contexts (erase cqe.user_data d.data_.contexts) d in
    (
      (λ s. ground (arith, complete_original-normal c cqe taken s)),
      ground (arith, complete_original-first c cqe taken),
    )

dispatch_raw-original :
    (cqe : Cqe) (d : Driver) (c : CqeContext)
    → Inv d
    → IsExpected cqe d c
    → c.kind ≡ original
    → dispatch_raw cqe d
      ≡ done (
          dispatch_original cqe.user_data c cqe
            (set_contexts (erase cqe.user_data d.data_.contexts) d))
unfolding dispatch_raw dispatch_kind
dispatch_raw-original cqe d c v e k = ground (arith, v.nonnull, e.found, e.phase)

-- A completion of an original of the caller reaches the queue of its submission only, behind what is
-- there, with the index and the `user_data` of the entry of the caller, if it fits; the submission is
-- reported exactly if this is the first that does not fit; and the process does not stop.
pub dispatch_raw-IsRouted :
    (cqe : Cqe) (d : Driver) (c : CqeContext)
    → Inv d
    → IsExpected cqe d c
    → c.kind ≡ original
    → Returns (dispatch_raw cqe d) (IsRouted c cqe d)
dispatch_raw-IsRouted cqe d c v e k =
    rw (dispatch_raw-original cqe d c v e k) (dispatch_original-IsRouted c cqe d)
