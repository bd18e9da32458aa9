-- ===== src/IoUring/Ledger/Staging.antt =====
-- Staging in src/io_uring.rs, of cancellations and of a caller's entries, and the books.
use nosv.Base.{
  ℕ, zero, suc, ◌+◌, ◌≡◌, ◌≢◌, refl, ap, none, some, List, [], ◌∷◌, ◌++◌, to_ℕ, ◌==◌, arith,
  if◌then◌else◌,
}
use nosv.Base.Outcome.{done, Returns}
use nosv.Base.Dict.{lookup, total, lookup-insert, insert-IsMap, total-insert_new, Every-insert}
use nosv.IoUring.Data.{
  Ptr, SubmissionId, CqeContext, CancelCommand, StagedContext, raw, owned, owned_cancel, Sqe,
  async_cancel, SubmissionQueue, DriverData, Driver, inner_of,
}
use nosv.IoUring.Cancel.{stage, cancel_context, stage_commands, stage_cancellations}
use nosv.IoUring.Ledger.{
  live, waiting, cancelling_of, aiming_at, queued_of, queued_at, times_staged, times_owned,
  times_cancel, IsSound, Balanced, Inv,
}

-- The address of a new box is not that of a box that lives, and not null.
abbrev pub IsFresh : (DriverData → Ptr) → Type 0
IsFresh alloc = (d : DriverData) → (lookup (alloc d) d.contexts ≡ none) × (alloc d ≢ 0)

pub times_staged-append :
    (p q : Ptr) (xs : List StagedContext)
    → times_staged p (xs ++ raw q ∷ []) ≡ times_staged p xs + to_ℕ (q == p)
times_staged-append p q [] = omega arith
times_staged-append p q (raw r ∷ xs) = omega (arith, times_staged-append p q xs)
times_staged-append p q (owned r ∷ xs) = times_staged-append p q xs
times_staged-append p q (owned_cancel r ∷ xs) = times_staged-append p q xs

pub times_owned-append :
    (p q : Ptr) (xs : List StagedContext) → times_owned p (xs ++ raw q ∷ []) ≡ times_owned p xs
times_owned-append p q [] = refl
times_owned-append p q (raw r ∷ xs) = times_owned-append p q xs
times_owned-append p q (owned r ∷ xs) = omega (arith, times_owned-append p q xs)
times_owned-append p q (owned_cancel r ∷ xs) = times_owned-append p q xs

pub times_cancel-append :
    (p q : Ptr) (xs : List StagedContext) → times_cancel p (xs ++ raw q ∷ []) ≡ times_cancel p xs
times_cancel-append p q [] = refl
times_cancel-append p q (raw r ∷ xs) = times_cancel-append p q xs
times_cancel-append p q (owned r ∷ xs) = times_cancel-append p q xs
times_cancel-append p q (owned_cancel r ∷ xs) = omega (arith, times_cancel-append p q xs)

abbrev pub with_data : Driver → DriverData → Driver
with_data d data' = record d { data_ = data' }

module _ (alloc : DriverData → Ptr) (fresh : IsFresh alloc) where
  -- The command `c` at the head of the queue becomes a context at a new address.
  module _ (c : CancelCommand) (cs : List CancelCommand) (d : Driver) (v : Inv d)
      (head : d.data_.cancel_queue ≡ c ∷ cs) where
    abbrev popped : DriverData
    popped = record d.data_ { cancel_queue = cs }

    abbrev at : Ptr
    at = alloc popped

    abbrev next : DriverData
    next = stage at (cancel_context c) popped

    at-fresh : lookup at d.data_.contexts ≡ none
    at-fresh = (fresh popped).0

    next-total :
        (w : CqeContext → ℕ)
        → total w next.contexts ≡ total w d.data_.contexts + w (cancel_context c)
    next-total w = total-insert_new w at (cancel_context c) d.data_.contexts at-fresh

    next-lookup :
        (q : Ptr)
        → lookup q next.contexts
          ≡ (if at == q then some (cancel_context c) else lookup q d.data_.contexts)
    next-lookup q = lookup-insert at q (cancel_context c) d.data_.contexts

    next-Balanced : (s : SubmissionId) → Balanced (inner_of d s) s next.contexts cs
    next-Balanced s = ground (
      arith,
      v.balanced s,
      ap (queued_of s) head,
      next-total (live s),
      next-total (waiting s),
      next-total (cancelling_of s),
    )

    command-Inv : Inv (with_data d next)
    command-Inv = record {
      is_map = insert-IsMap at (cancel_context c) d.data_.contexts v.is_map;
      nonnull = ground (arith, next-lookup 0, v.nonnull, (fresh popped).1);
      sound = Every-insert IsSound at (cancel_context c) d.data_.contexts v.sound (record {
        zombie = λ e. cc;
        aimed = λ _. (c.target, refl);
        fresh = λ _. refl;
        unseen = λ _. refl;
      });
      balanced = next-Balanced;
      aimed = λ s t. ground (
        arith,
        v.aimed s t,
        ap (queued_at s t) head,
        next-total (aiming_at s t),
        next-lookup t,
        at-fresh,
      );
      in_order = λ p.
          ground
            (arith, v.in_order p, next-lookup p, at-fresh, times_staged-append p at d.data_.staged);
      owned_order = λ p. ground (arith, v.owned_order p, times_owned-append p at d.data_.staged);
      cancel_order = λ p. ground (arith, v.cancel_order p, times_cancel-append p at d.data_.staged);
    }

  abbrev sq_of : ℕ → List Sqe → SubmissionQueue
  sq_of free pushed = record { free = free; pushed = pushed }

  module _ (c : CancelCommand) (cs : List CancelCommand) (d : Driver) (v : Inv d)
      (head : d.data_.cancel_queue ≡ c ∷ cs) (pushed : List Sqe) where
    stage_commands-full :
        stage_commands alloc (c ∷ cs) d.data_ (sq_of zero pushed)
        ≡ done (d.data_, sq_of zero pushed)
    unfolding stage_commands
    stage_commands-full = ground (arith, at-fresh c cs d v head)

    abbrev entry : Sqe
    entry = record { user_data = at c cs d v head; opcode = async_cancel c.target }

    stage_commands-next :
        (free : ℕ)
        → stage_commands alloc (c ∷ cs) d.data_ (sq_of (suc free) pushed)
          ≡ stage_commands alloc cs (next c cs d v head) (sq_of free (entry ∷ pushed))
    unfolding stage_commands
    stage_commands-next free = ground (arith, at-fresh c cs d v head)

  stage_commands-Inv :
      (cs : List CancelCommand) (free : ℕ) (pushed : List Sqe) (d : Driver)
      → Inv d
      → d.data_.cancel_queue ≡ cs
      → Returns
          (stage_commands alloc cs d.data_ (sq_of free pushed))
          (λ (data', _). Inv (with_data d data'))
  stage_commands-Inv [] free pushed d v e = unfold stage_commands in v
  stage_commands-Inv (c ∷ cs) zero pushed d v e = rw (stage_commands-full c cs d v e pushed) v
  stage_commands-Inv (c ∷ cs) (suc free) pushed d v e =
      rw (stage_commands-next c cs d v e pushed free)
        (stage_commands-Inv cs free _ (with_data d (next c cs d v e)) (command-Inv c cs d v e) refl)

  -- Staging the cancellations that wait for a slot keeps the books right, however many slots there
  -- are, and does not stop the process.
  pub stage_cancellations-Inv :
      (d : Driver) (sq : SubmissionQueue)
      → Inv d
      → Returns (stage_cancellations alloc d.data_ sq) (λ (data', _). Inv (with_data d data'))
  unfolding stage_cancellations
  stage_cancellations-Inv d sq v =
      stage_commands-Inv d.data_.cancel_queue sq.free sq.pushed d v refl
