-- ===== src/IoUring/Owned/Requests.antt =====
-- Requests for the cancellation of completion-native operations of src/io_uring.rs, from the request to
-- the submission queue.
use nosv.Base.{
  ℕ, zero, suc, ◌+◌, ◌≡◌, ◌≢◌, refl, ap, true, false, Option, none, some, List, [], ◌∷◌, ◌++◌, ◌==◌,
  arith, if◌then◌else◌, Bool-cases, inl, inr,
}
use nosv.Base.Outcome.{Returns}
use nosv.Base.Dict.{
  Dict, lookup, insert, IsMap, lookup-insert, insert-IsMap, total-insert_new, Every-lookup,
  Every-insert,
}
use nosv.IoUring.Data.{
  Ptr, ControlId, Sqe, SubmissionQueue, OwnedCqeContext, OwnedCancelContext, unsubmitted,
  DriverData,
}
use nosv.IoUring.Owned.{
  is_owned_target, find_owned, request_owned_cancel, context_pointer_in_use, stage_owned_cancel,
  stage_owned_commands, stage_owned_cancellations,
}
use nosv.IoUring.Owned.Books.{aiming_owned, queued_owned, IsSound, OwnedInv}

queued_owned-append :
    (t : Ptr) (ps qs : List Ptr) → queued_owned t (ps ++ qs) ≡ queued_owned t ps + queued_owned t qs
queued_owned-append t [] qs = omega arith
queued_owned-append t (p ∷ ps) qs = omega (arith, queued_owned-append t ps qs)

pub find_owned-found :
    (control : ControlId) (d : Dict OwnedCqeContext) (p : Ptr)
    → IsMap d
    → find_owned control d ≡ some p
    → (c : OwnedCqeContext) × (lookup p d ≡ some c) × (is_owned_target control c ≡ true)
unfolding find_owned
find_owned-found control [] p m e = absurd (ground arith)
find_owned-found control ((q, x) ∷ d) p m e = elim (Bool-cases (is_owned_target control x)) [
  | inl h ↦ (x, ground (arith, h), h)
  | inr h ↦
      let (c, at, found) = find_owned-found control d p m.1 (ground (arith, h)) in
      (c, ground (arith, at, m.0), found)
]

module _ (control : ControlId) (d : DriverData) (v : OwnedInv d) where
  module _ (p : Ptr) (c : OwnedCqeContext) (at : lookup p d.owned_contexts ≡ some c)
      (target : is_owned_target control c ≡ true) where
    abbrev requested : OwnedCqeContext
    requested = record c { cancel_queued = true }

    requested-lookup :
        (q : Ptr)
        → lookup q (insert p requested d.owned_contexts)
          ≡ (if p == q then some requested else lookup q d.owned_contexts)
    requested-lookup q = lookup-insert p q requested d.owned_contexts

    requested-IsSound : IsSound requested
    requested-IsSound = ground (arith, Every-lookup IsSound p c d.owned_contexts v.sound at, target)

    requested-OwnedInv : OwnedInv (record d {
      owned_contexts = insert p requested d.owned_contexts;
      owned_cancel_queue = d.owned_cancel_queue ++ p ∷ [];
    })
    requested-OwnedInv = record {
      is_map = insert-IsMap p requested d.owned_contexts v.is_map;
      cancels_map = v.cancels_map;
      nonnull = ground (arith, requested-lookup 0, v.nonnull, at);
      sound = Every-insert IsSound p requested d.owned_contexts v.sound requested-IsSound;
      aimed = λ t. ground (
        arith,
        v.aimed t,
        requested-lookup t,
        queued_owned-append t d.owned_cancel_queue (p ∷ []),
        at,
        target,
        Every-lookup IsSound p c d.owned_contexts v.sound at,
      );
    }

  found-OwnedInv :
      (o : Option Ptr)
      → find_owned control d.owned_contexts ≡ o
      → Returns (request_owned_cancel control d) OwnedInv
  unfolding request_owned_cancel
  found-OwnedInv none e = ground (arith, v)
  found-OwnedInv (some p) e =
      let (c, at, target) = find_owned-found control d.owned_contexts p v.is_map e in
      ground (arith, requested-OwnedInv p c at target, at)

  -- A request for the cancellation of an operation does not stop the process and keeps the books of
  -- the operations right.
  pub request_owned_cancel-OwnedInv : Returns (request_owned_cancel control d) OwnedInv
  request_owned_cancel-OwnedInv = found-OwnedInv (find_owned control d.owned_contexts) refl

-- The address of a new box is not null and not that of a box that lives.
abbrev pub IsUnused : (DriverData → Ptr) → Type 0
IsUnused alloc = (d : DriverData) → (context_pointer_in_use d (alloc d) ≡ false) × (alloc d ≢ 0)

module _ (alloc : DriverData → Ptr) (unused : IsUnused alloc) where
  module _ (t : Ptr) (ts : List Ptr) (d : DriverData) (v : OwnedInv d)
      (head : d.owned_cancel_queue ≡ t ∷ ts) where
    abbrev popped : DriverData
    popped = record d { owned_cancel_queue = ts }

    abbrev at : Ptr
    at = alloc popped

    abbrev context : OwnedCancelContext
    context = record { phase = unsubmitted; target = t }

    at-free : lookup at d.owned_cancel_contexts ≡ none
    unfolding context_pointer_in_use
    at-free = ground (arith, unused popped)

    staged-OwnedInv : OwnedInv (stage_owned_cancel at t popped)
    staged-OwnedInv = record {
      is_map = v.is_map;
      cancels_map = insert-IsMap at context d.owned_cancel_contexts v.cancels_map;
      nonnull =
          ground (
            arith,
            lookup-insert at 0 context d.owned_cancel_contexts,
            v.nonnull,
            (unused popped).1,
          );
      sound = v.sound;
      aimed = λ u. ground (
        arith,
        v.aimed u,
        ap (queued_owned u) head,
        total-insert_new (aiming_owned u) at context d.owned_cancel_contexts at-free,
      );
    }

  abbrev sq_of : ℕ → List Sqe → SubmissionQueue
  sq_of free pushed = record { free = free; pushed = pushed }

  stage_owned_commands-OwnedInv :
      (ts : List Ptr) (free : ℕ) (pushed : List Sqe) (d : DriverData)
      → OwnedInv d
      → d.owned_cancel_queue ≡ ts
      → Returns (stage_owned_commands alloc ts d (sq_of free pushed)) (λ (d', _). OwnedInv d')
  unfolding stage_owned_commands
  stage_owned_commands-OwnedInv [] free pushed d v e = v
  stage_owned_commands-OwnedInv (t ∷ ts) zero pushed d v e =
      rw ((unused (record d { owned_cancel_queue = ts })).0) (record {
        is_map = v.is_map;
        cancels_map = v.cancels_map;
        nonnull = v.nonnull;
        sound = v.sound;
        aimed = λ u. ground (arith, v.aimed u, ap (queued_owned u) e);
      })
  stage_owned_commands-OwnedInv (t ∷ ts) (suc free) pushed d v e =
      rw ((unused (record d { owned_cancel_queue = ts })).0)
        (stage_owned_commands-OwnedInv ts free _ _ (staged-OwnedInv t ts d v e) refl)

  -- Staging the cancellations of operations keeps the books of the operations right, however many
  -- slots there are, and does not stop the process.
  pub stage_owned_cancellations-OwnedInv :
      (d : DriverData) (sq : SubmissionQueue)
      → OwnedInv d
      → Returns (stage_owned_cancellations alloc d sq) (λ (d', _). OwnedInv d')
  unfolding stage_owned_cancellations
  stage_owned_cancellations-OwnedInv d sq v =
      stage_owned_commands-OwnedInv d.owned_cancel_queue sq.free sq.pushed d v refl
