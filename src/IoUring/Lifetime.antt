-- ===== src/IoUring/Lifetime.antt =====
-- How long the resources of a submission of src/io_uring.rs are in use: what is left when a submission
-- is drained.
mod Tests
use nosv.Base.{ℕ, ◌≤◌, ◌≡◌, ◌≢◌, ◌↔◌, true, some, List, [], ◌∷◌, arith}
use nosv.Base.Dict.{Dict, lookup, total, total-le, total-zero, le-total, Every-lookup}
use nosv.IoUring.Data.{
  Ptr, SubmissionId, CqeContext, CancelCommand, Waker, Driver, DriverData, inner_of,
}
use nosv.IoUring.Submission.{drained, wait_drained, ready}
use nosv.IoUring.Submit.{Errnos}
use nosv.IoUring.Ledger.{live, cancelling_of, aiming_at, queued_of, queued_at, IsSound, Inv}
use nosv.IoUring.Ledger.Staging.{IsFresh}
use nosv.IoUring.Turns.{Reach, Reach-Inv, started, started-Inv}

-- The registry has no context of the submission, and no cancellation of it waits for a slot: neither
-- the kernel nor the driver refers to its resources.
abbrev pub IsReleased : SubmissionId → Driver → Type 0
IsReleased s d =
    ((p : Ptr) (c : CqeContext) → lookup p d.data_.contexts ≡ some c → c.state ≢ s)
    × (queued_of s d.data_.cancel_queue ≡ 0)

queued_at-le :
    (s : SubmissionId) (t : Ptr) (q : List CancelCommand) → queued_at s t q ≤ queued_of s q
queued_at-le s t [] = omega arith
queued_at-le s t (c ∷ q) = ground (arith, queued_at-le s t q)

module _ (s : SubmissionId) (d : Driver) (v : Inv d) (h : drained (inner_of d s) ≡ true) where
  abbrev contexts : Dict CqeContext
  contexts = d.data_.contexts

  nothing_live :
      (total (live s) contexts ≡ 0)
      × (total (cancelling_of s) contexts ≡ 0)
      × (queued_of s d.data_.cancel_queue ≡ 0)
  unfolding drained
  nothing_live = ground (arith, v.balanced s)

  aiming_at-le : (t : Ptr) → total (aiming_at s t) contexts ≤ total (cancelling_of s) contexts
  aiming_at-le t = total-le (aiming_at s t) (cancelling_of s) contexts (λ c. ground arith)

  not_there : (p : Ptr) (c : CqeContext) → lookup p contexts ≡ some c → c.state ≢ s
  not_there p c e q = ground (
    arith,
    nothing_live,
    le-total (live s) p c contexts e,
    le-total (cancelling_of s) p c contexts e,
    Every-lookup IsSound p c contexts v.sound e,
    v.aimed s p,
    aiming_at-le p,
    queued_at-le s p d.data_.cancel_queue,
  )

  drained-IsReleased : IsReleased s d
  drained-IsReleased = (not_there, nothing_live.2)

module _ (s : SubmissionId) (d : Driver) (v : Inv d) (r : IsReleased s d) where
  no_weight :
      (w : CqeContext → ℕ)
      → ((c : CqeContext) → c.state ≢ s → w c ≡ 0)
      → total w d.data_.contexts ≡ 0
  no_weight w h = total-zero w d.data_.contexts v.is_map (λ p c e. h c (r.0 p c e))

  IsReleased-drained : drained (inner_of d s) ≡ true
  unfolding drained
  IsReleased-drained = ground (
    arith,
    v.balanced s,
    r.1,
    no_weight (live s) (λ c h. ground arith),
    no_weight (cancelling_of s) (λ c h. ground arith),
  )

module _ (alloc : DriverData → Ptr) (fresh : IsFresh alloc) (errnos : Errnos) (limit : ℕ)
    (d : Driver) (reach : Reach alloc errnos (started limit) d) (s : SubmissionId) (w : Waker) where
  reached-Inv : Inv d
  reached-Inv = Reach-Inv alloc fresh errnos (started limit) d (started-Inv limit) reach

  -- From the start of a driver with caller-made entries only, after any sequence of dispatches of
  -- their completions, requests for cancellation, attempts at admission, submissions with the
  -- staging of cancellations, polls of the futures of submissions, and ends of admission:
  -- `WaitDrained` is ready for a submission exactly if neither the kernel nor the driver refers
  -- to its resources.
  pub wait_drained-IsReleased : ((wait_drained w (inner_of d s)).1 ≡ ready tt) ↔ IsReleased s d
  unfolding wait_drained
  wait_drained-IsReleased = (
    (λ h. drained-IsReleased s d reached-Inv (ground arith)),
    (λ r. ground (arith, IsReleased-drained s d reached-Inv r)),
  )
