-- ===== src/IoUring/Owned/Stage.antt =====
-- `stage_owned` of src/io_uring.rs: queued operations of the completion-native layer are staged. The
-- concurrent queue is the list of what it gives; which operations are cancelled, which opcodes are
-- supported and the entry of a handler are arguments.
use nosv.Base.{
  ℕ, zero, suc, Bool, false, not, Option, none, some, List, [], ◌∷◌, ◌++◌, if◌then◌else◌,
}
use nosv.Base.Outcome.{Outcome, done, stop, ◌>>=◌}
use nosv.Base.Dict.{insert}
use nosv.IoUring.Data.{
  Ptr, ControlId, Opcode, Sqe, SubmissionQueue, Handler, QueuedOwnedOp, OwnedCqeContext,
  unsubmitted, owned, DriverData,
}
use nosv.IoUring.Cancel.{push}
use nosv.IoUring.Owned.{context_pointer_in_use}

pub data OwnedFailure : Type 0 where
  closed cancelled unsupported : OwnedFailure

-- The next operation, with what is left of the pending ones and of the queue.
unfoldable pub next_owned :
    List QueuedOwnedOp
    → List QueuedOwnedOp
    → Option (QueuedOwnedOp × List QueuedOwnedOp × List QueuedOwnedOp)
next_owned (op ∷ pending) queue = some (op, pending, queue)
next_owned [] (op ∷ queue) = some (op, [], queue)
next_owned [] [] = none

abbrev pub owned_context : QueuedOwnedOp → OwnedCqeContext
owned_context op = record {
  phase = unsubmitted;
  control = op.control;
  handler = some op.handler;
  cancel_queued = false;
  cancel_seen = false;
}

abbrev pub stage_context : Ptr → QueuedOwnedOp → DriverData → DriverData
stage_context pointer op d = record d {
  owned_contexts = insert pointer (owned_context op) d.owned_contexts;
  staged = d.staged ++ owned pointer ∷ [];
}

abbrev pub Staging : Type 0
Staging = List (Handler × OwnedFailure) × List QueuedOwnedOp × DriverData × SubmissionQueue

module _ (alloc : DriverData → Ptr) (is_cancelled : ControlId → Bool) (supported : ℕ → Bool)
    (entry_of : Handler → Opcode) where
  -- Why an operation is not staged.
  unfoldable pub refusal : QueuedOwnedOp → DriverData → Option OwnedFailure
  refusal op d =
      if d.shutdown
      then some closed
      else if is_cancelled op.control
      then some cancelled
      else if not (supported op.handler.opcode)
      then some unsupported
      else none

  -- The budget is the number of rounds.
  unfoldable pub stage_owned :
      ℕ → List QueuedOwnedOp → DriverData → SubmissionQueue → Outcome Staging
  stage_owned zero queue d sq = done ([], queue, d, sq)
  stage_owned (suc n) queue d sq = elim (next_owned d.owned_pending queue) [
    | none ↦ done ([], queue, d, sq)
    | some next ↦
        let (op, pending, queue') = next in
        let popped : DriverData = record d { owned_pending = pending } in
        elim (refusal op popped) [
          | some failure ↦ stage_owned n queue' popped sq >>= λ (failed, queue'', d', sq').
              done ((op.handler, failure) ∷ failed, queue'', d', sq')
          | none ↦
              let pointer = alloc popped in
              let entry : Sqe = record { user_data = pointer; opcode = entry_of op.handler } in
              if context_pointer_in_use popped pointer then stop else elim (push entry sq) [
                | none ↦ done ([], queue', record popped { owned_pending = op ∷ pending }, sq)
                | some slots ↦ stage_owned n queue' (stage_context pointer op popped) slots
              ]
        ]
  ]
