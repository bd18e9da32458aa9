-- ===== src/IoUring/Ledger/Cancelled.antt =====
-- The completion of a cancellation in `dispatch_raw` of src/io_uring.rs, and the books.
use nosv.Base.{
  ℕ, ◌+◌, ◌≤◌, ◌≡◌, ◌≢◌, ap, true, false, none, some, to_ℕ, ◌==◌, arith, if◌then◌else◌,
  Option-cases, Bool-cases, inl, inr,
}
use nosv.Base.Outcome.{done, Returns}
use nosv.Base.Dict.{
  Dict, lookup, insert, erase, IsMap, total, Every, lookup-insert, lookup-erase, insert-IsMap,
  erase-IsMap, total-insert, total-erase, Every-lookup, Every-insert, Every-erase,
}
use nosv.IoUring.Data.{
  Ptr, SubmissionId, CqeContext, Cqe, original, cancel, submitted, Driver, inner_of, is_original,
  is_terminal,
}
use nosv.IoUring.Dispatch.{restored, set_locked, set_contexts, dispatch_cancel}
use nosv.IoUring.Ledger.{
  live, waiting, cancelling_of, aiming_at, queued_at, owed, times_staged, unaccepted, IsSound,
  Balanced, Inv,
}
use nosv.IoUring.Submission.{Locked, deliver_cancel, retire_cancel}
use nosv.IoUring.Ledger.Counts.{Counted, deliver_cancel-Counted, retire_cancel-Counted}

-- A cancellation `c` at `p` of the context `o` at `t` that has its completion.
module _ (p : Ptr) (c : CqeContext) (cqe : Cqe) (d : Driver) (v : Inv d)
    (at : lookup p d.data_.contexts ≡ some c) (kind : c.kind ≡ cancel) (phase : c.phase ≡ submitted)
    (single : cqe.more ≡ false) where
  abbrev others : Dict CqeContext
  others = erase p d.data_.contexts

  others-lookup : (q : Ptr) → lookup q others ≡ (if p == q then none else lookup q d.data_.contexts)
  others-lookup q = lookup-erase p q d.data_.contexts v.is_map

  others-total : (w : CqeContext → ℕ) → total w others + w c ≡ total w d.data_.contexts
  others-total w = total-erase w p c d.data_.contexts at

  others-IsSound : Every IsSound others
  others-IsSound = Every-erase IsSound p d.data_.contexts v.sound

  c-IsSound : IsSound c
  c-IsSound = Every-lookup IsSound p c d.data_.contexts v.sound at

  -- The target is there, and this cancellation is the one that it waits for.
  owing : (t : Ptr) → c.target ≡ some t → 1 ≤ owed c.state (lookup t d.data_.contexts)
  owing t e = ground (arith, v.aimed c.state t, others-total (aiming_at c.state t))

  module _ (t : Ptr) (target : c.target ≡ some t) (o : CqeContext)
      (there : lookup t d.data_.contexts ≡ some o) where
    awaited :
        (o.kind ≡ original)
        × (o.cancel_queued ≡ true)
        × (o.cancel_seen ≡ false)
        × (o.state ≡ c.state)
    awaited = ground (arith, owing t target)

    apart : p ≢ t
    apart q = ground (arith, awaited)

    o-IsSound : IsSound o
    o-IsSound = Every-lookup IsSound t o d.data_.contexts v.sound there

    still_there : lookup t others ≡ some o
    still_there = ground (arith, others-lookup t, apart)

    abbrev seen : CqeContext
    seen = record o { cancel_seen = true }

    abbrev remains : Dict CqeContext
    remains = if is_terminal o.phase then erase t others else insert t seen others

    others-IsMap : IsMap others
    others-IsMap = erase-IsMap p d.data_.contexts v.is_map

    remains-lookup :
        (q : Ptr)
        → lookup q remains ≡ (
            if t == q
            then (if is_terminal o.phase then none else some seen)
            else if p == q
            then none
            else lookup q d.data_.contexts)
    remains-lookup q = ground (
      arith,
      others-lookup q,
      lookup-erase t q others others-IsMap,
      lookup-insert t q seen others,
    )

    remains-total :
        (w : CqeContext → ℕ)
        → total w remains + w o + w c
          ≡ total w d.data_.contexts + (if is_terminal o.phase then 0 else w seen)
    remains-total w = ground (
      arith,
      others-total w,
      total-erase w t o others still_there,
      total-insert w t seen o others still_there,
    )

    remains-IsMap : IsMap remains
    remains-IsMap =
        ground (arith, erase-IsMap t others others-IsMap, insert-IsMap t seen others others-IsMap)

    seen-IsSound : is_terminal o.phase ≡ false → IsSound seen
    seen-IsSound h = ground (arith, o-IsSound, awaited)

    remains-IsSound : Every IsSound remains
    remains-IsSound = elim (Bool-cases (is_terminal o.phase)) [
      | inl e ↦ rw e (Every-erase IsSound t others others-IsSound)
      | inr e ↦ rw e (Every-insert IsSound t seen others others-IsSound (seen-IsSound e))
    ]

    remains-aimed :
        (s : SubmissionId) (u : Ptr)
        → total (aiming_at s u) remains + queued_at s u d.data_.cancel_queue
          ≡ owed s (lookup u remains)
    remains-aimed s u =
        ground (arith, v.aimed s u, remains-total (aiming_at s u), remains-lookup u, awaited)

    remains-in_order : (q : Ptr) → times_staged q d.data_.staged ≡ unaccepted (lookup q remains)
    remains-in_order q = ground (arith, v.in_order q, remains-lookup q)

    abbrev delivered : Locked
    delivered =
        deliver_cancel (d.states c.state).limit (restored c cqe) (inner_of d c.state, d.wakes)

    abbrev retired : Driver
    retired = set_locked c.state (retire_cancel delivered) (set_contexts others d)

    abbrev after : Driver
    after = set_contexts remains retired

    retired-Counted :
        (s : SubmissionId) → Counted (inner_of d s) (inner_of retired s) 0 (to_ℕ (c.state == s))
    retired-Counted s = ground (
      arith,
      deliver_cancel-Counted (d.states c.state).limit (restored c cqe)
          (inner_of d c.state, d.wakes),
      retire_cancel-Counted delivered,
    )

    remains-Balanced :
        (s : SubmissionId) → Balanced (inner_of after s) s remains d.data_.cancel_queue
    remains-Balanced s = ground (
      arith,
      retired-Counted s,
      v.balanced s,
      remains-total (live s),
      remains-total (waiting s),
      remains-total (cancelling_of s),
      awaited,
      o-IsSound,
    )

    after-Inv : Inv after
    after-Inv = record {
      is_map = remains-IsMap;
      nonnull = ground (arith, remains-lookup 0, v.nonnull, there);
      sound = remains-IsSound;
      balanced = remains-Balanced;
      aimed = remains-aimed;
      in_order = remains-in_order;
      owned_order = v.owned_order;
      cancel_order = v.cancel_order;
    }

    dispatch_cancel-eq : dispatch_cancel c cqe (set_contexts others d) ≡ done (after, none)
    unfolding dispatch_cancel
    dispatch_cancel-eq = ground (arith, still_there)

  pub dispatch_cancel-Inv :
      Returns (dispatch_cancel c cqe (set_contexts others d)) (λ (d', _). Inv d')
  dispatch_cancel-Inv =
      let (t, e) = c-IsSound.aimed (ap is_original kind) in
      elim (Option-cases (lookup t d.data_.contexts)) [
        | inl missing ↦ absurd (ground (arith, owing t e))
        | inr (o, there) ↦ rw (dispatch_cancel-eq t e o there) (after-Inv t e o there)
      ]
