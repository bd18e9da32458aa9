-- ===== src/IoUring/Owned/Staging.antt =====
-- `stage_owned` of src/io_uring.rs loses no operation.
use nosv.Base.{ℕ, zero, suc, ◌+◌, ◌≡◌, refl, Bool, Option, none, some, List, [], ◌∷◌, arith}
use nosv.Base.Outcome.{done, Returns, Returns->>=, Returns-map, ◌>>=◌}
use nosv.Base.Dict.{lookup, total, total-insert_new, lookup-insert, insert-IsMap, Every-insert}
use nosv.IoUring.Data.{
  Ptr, ControlId, Opcode, SubmissionQueue, Handler, QueuedOwnedOp, OwnedCqeContext, DriverData,
}
use nosv.IoUring.Owned.{context_pointer_in_use}
use nosv.IoUring.Owned.Books.{IsSound, OwnedInv}
use nosv.IoUring.Owned.Requests.{IsUnused}
use nosv.IoUring.Owned.Stage.{
  OwnedFailure, next_owned, owned_context, stage_context, Staging, refusal, stage_owned,
}

-- The sums of a weight of handlers over the queued operations, those that are handed out, and the contexts
-- that have one. A weight that is 1 for one handler and 0 for all others counts that one.
abbrev pub queued_weight : (Handler → ℕ) → List QueuedOwnedOp → ℕ
queued_weight w [] = 0
queued_weight w (op ∷ ops) = w op.handler + queued_weight w ops

abbrev pub failed_weight : (Handler → ℕ) → List (Handler × OwnedFailure) → ℕ
failed_weight w [] = 0
failed_weight w ((h, _) ∷ failed) = w h + failed_weight w failed

abbrev pub context_weight : (Handler → ℕ) → OwnedCqeContext → ℕ
context_weight w c = elim c.handler [ none ↦ 0 | some h ↦ w h ]

abbrev pub held : (Handler → ℕ) → List QueuedOwnedOp → DriverData → ℕ
held w queue d =
    queued_weight w queue
    + queued_weight w d.owned_pending
    + total (context_weight w) d.owned_contexts

-- The books are right, and the weight is the same as before, for every weight of handlers.
abbrev pub Conserves : ((Handler → ℕ) → ℕ) → Staging → Type 0
Conserves n (failed, queue, d, sq) =
    OwnedInv d × ((w : Handler → ℕ) → failed_weight w failed + held w queue d ≡ n w)

-- What is held, as a function of the weight.
abbrev pub all_held : List QueuedOwnedOp → DriverData → (Handler → ℕ) → ℕ
all_held queue d w = held w queue d

next_owned-weight :
    (w : Handler → ℕ) (pending queue : List QueuedOwnedOp) (op : QueuedOwnedOp)
    (pending' queue' : List QueuedOwnedOp)
    → next_owned pending queue ≡ some (op, pending', queue')
    → queued_weight w queue + queued_weight w pending
      ≡ w op.handler + (queued_weight w queue' + queued_weight w pending')
unfolding next_owned
next_owned-weight w [] [] op pending' queue' e = absurd (ground arith)
next_owned-weight w [] (x ∷ queue) op pending' queue' e = ground arith
next_owned-weight w (x ∷ pending) queue op pending' queue' e = ground arith

module _ (alloc : DriverData → Ptr) (unused : IsUnused alloc) (is_cancelled : ControlId → Bool)
    (supported : ℕ → Bool) (entry_of : Handler → Opcode) where
  module _ (op : QueuedOwnedOp) (d : DriverData) (v : OwnedInv d) where
    abbrev at : Ptr
    at = alloc d

    at-free : lookup at d.owned_contexts ≡ none
    unfolding context_pointer_in_use
    at-free = ground (arith, unused d)

    staged-OwnedInv : OwnedInv (stage_context at op d)
    staged-OwnedInv = record {
      is_map = insert-IsMap at (owned_context op) d.owned_contexts v.is_map;
      cancels_map = v.cancels_map;
      nonnull =
          ground (
            arith,
            lookup-insert at 0 (owned_context op) d.owned_contexts,
            v.nonnull,
            (unused d).1,
          );
      sound =
          Every-insert IsSound at (owned_context op) d.owned_contexts v.sound
            (record { held = λ h. refl; zombie = λ h. ground arith; unseen = λ h. refl });
      aimed = λ t.
          ground
            (arith, v.aimed t, lookup-insert at t (owned_context op) d.owned_contexts, at-free);
    }

    staged-total :
        (w : Handler → ℕ)
        → total (context_weight w) (stage_context at op d).owned_contexts
          ≡ total (context_weight w) d.owned_contexts + w op.handler
    staged-total w =
        total-insert_new (context_weight w) at (owned_context op) d.owned_contexts at-free

  module _ (n : ℕ) (queue : List QueuedOwnedOp) (d : DriverData) (sq : SubmissionQueue)
      (v : OwnedInv d)
      (later : (queue' : List QueuedOwnedOp) (d' : DriverData) (sq' : SubmissionQueue)
        → OwnedInv d'
        → Returns
            (stage_owned alloc is_cancelled supported entry_of n queue' d' sq')
            (Conserves (all_held queue' d'))) where
    module _ (op : QueuedOwnedOp) (pending queue' : List QueuedOwnedOp)
        (e : next_owned d.owned_pending queue ≡ some (op, pending, queue')) where
      abbrev popped : DriverData
      popped = record d { owned_pending = pending }

      popped-OwnedInv : OwnedInv popped
      popped-OwnedInv = record {
        is_map = v.is_map;
        cancels_map = v.cancels_map;
        nonnull = v.nonnull;
        sound = v.sound;
        aimed = v.aimed;
      }

      popped-held : (w : Handler → ℕ) → held w queue d ≡ w op.handler + held w queue' popped
      popped-held w = omega (arith, next_owned-weight w d.owned_pending queue op pending queue' e)

      refused :
          (failure : OwnedFailure)
          → Returns
              (stage_owned alloc is_cancelled supported entry_of n queue' popped sq
                >>= λ (failed, queue'', d', sq').
                    done ((op.handler, failure) ∷ failed, queue'', d', sq'))
              (Conserves (all_held queue d))
      refused failure =
          Returns->>= (stage_owned alloc is_cancelled supported entry_of n queue' popped sq) _
            (Conserves (all_held queue' popped)) _ (later queue' popped sq popped-OwnedInv)
            (λ (failed, queue'', d', sq') (v', h). (v', λ w. omega (arith, h w, popped-held w)))

      put_back :
          Conserves
            (all_held queue d)
            ([], queue', record popped { owned_pending = op ∷ pending }, sq)
      put_back = (
        record {
          is_map = v.is_map;
          cancels_map = v.cancels_map;
          nonnull = v.nonnull;
          sound = v.sound;
          aimed = v.aimed;
        },
        λ w. omega (arith, popped-held w),
      )

      staged :
          (slots : SubmissionQueue)
          → Returns
              (stage_owned alloc is_cancelled supported entry_of n queue'
                (stage_context (alloc popped) op popped)
                slots)
              (Conserves (all_held queue d))
      staged slots =
          Returns-map
            (stage_owned alloc is_cancelled supported entry_of n queue'
              (stage_context (alloc popped) op popped) slots)
            _ _
            (later queue' (stage_context (alloc popped) op popped) slots
              (staged-OwnedInv op popped popped-OwnedInv))
            (λ (failed, queue'', d', sq') (v', h). (
              v',
              λ w. omega (arith, h w, popped-held w, staged-total op popped popped-OwnedInv w),
            ))

    abbrev RoundConserves : Type 0
    RoundConserves =
        Returns (stage_owned alloc is_cancelled supported entry_of (suc n) queue d sq)
          (Conserves (all_held queue d))

    free-Conserves :
        (op : QueuedOwnedOp) (pending queue' : List QueuedOwnedOp) (free : ℕ)
        → next_owned d.owned_pending queue ≡ some (op, pending, queue')
        → refusal alloc is_cancelled supported entry_of op (record d { owned_pending = pending })
          ≡ none
        → sq.free ≡ free
        → RoundConserves
    unfolding stage_owned
    free-Conserves op pending queue' zero e q f =
        ground (arith, put_back op pending queue' e, (unused (popped op pending queue' e)).0)
    free-Conserves op pending queue' (suc free) e q f = ground (
      arith,
      staged op pending queue' e (record {
        free = free;
        pushed =
            record { user_data = alloc (popped op pending queue' e); opcode = entry_of op.handler }
            ∷ sq.pushed;
      }),
      (unused (popped op pending queue' e)).0,
    )

    refusal-Conserves :
        (op : QueuedOwnedOp) (pending queue' : List QueuedOwnedOp) (r : Option OwnedFailure)
        → next_owned d.owned_pending queue ≡ some (op, pending, queue')
        → refusal alloc is_cancelled supported entry_of op (record d { owned_pending = pending })
          ≡ r
        → RoundConserves
    unfolding stage_owned
    refusal-Conserves op pending queue' (some failure) e q =
        ground (arith, refused op pending queue' e failure)
    refusal-Conserves op pending queue' none e q = free-Conserves op pending queue' sq.free e q refl

    round-Conserves :
        (o : Option (QueuedOwnedOp × List QueuedOwnedOp × List QueuedOwnedOp))
        → next_owned d.owned_pending queue ≡ o
        → RoundConserves
    unfolding stage_owned
    round-Conserves none e = rw (e, Returns, stage_owned) (v, λ w. omega arith)
    round-Conserves (some (op, pending, queue')) e = refusal-Conserves op pending queue' _ e refl

  -- Within any budget and with any number of free slots, no operation is lost, doubled or made up: any
  -- weight of handlers, so also how often a handler occurs, is the same before, over those queued and
  -- in the registry, as after, over those and the ones that are handed out as failed. The books of
  -- the operations stay right, and the process does not stop.
  pub stage_owned-Conserves :
      (n : ℕ) (queue : List QueuedOwnedOp) (d : DriverData) (sq : SubmissionQueue)
      → OwnedInv d
      → Returns
          (stage_owned alloc is_cancelled supported entry_of n queue d sq)
          (Conserves (all_held queue d))
  unfolding stage_owned
  stage_owned-Conserves zero queue d sq v = (v, λ w. omega arith)
  stage_owned-Conserves (suc n) queue d sq v =
      round-Conserves n queue d sq v (λ queue' d' sq' v'. stage_owned-Conserves n queue' d' sq' v')
        (next_owned d.owned_pending queue) refl
