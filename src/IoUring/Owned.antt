-- ===== src/IoUring/Owned.antt =====
-- Completion-native operations in the driver of src/io_uring.rs: requests for cancellation, staging of
-- cancellations, and completions. The handler that is returned is completed outside the locks.
mod Tests
pub mod Books
pub mod Requests
pub mod Stage
pub mod Staging
use nosv.Base.{
  ℕ, zero, suc, Bool, true, false, not, ◌&&◌, ◌||◌, Option, none, some, List, [], ◌∷◌, ◌++◌, ◌==◌,
  if◌then◌else◌,
}
use nosv.Base.Int.{ℤ}
use nosv.Base.Outcome.{Outcome, done, stop, ◌>>=◌}
use nosv.Base.Dict.{Dict, lookup, insert, erase, contains_key}
use nosv.IoUring.Data.{
  Ptr, ControlId, Cqe, Sqe, async_cancel, SubmissionQueue, Handler, OwnedCqeContext,
  OwnedCancelContext, unsubmitted, terminal, StagedContext, owned_cancel, DriverData, is_submitted,
  is_terminal,
}
use nosv.IoUring.Cancel.{push}

-- The context that a request for the operation of `control` targets.
abbrev pub is_owned_target : ControlId → OwnedCqeContext → Bool
is_owned_target control c =
    (c.control == control) && not (is_terminal c.phase) && not c.cancel_queued

-- `find_map` over the registry, in the order of the list.
unfoldable pub find_owned : ControlId → Dict OwnedCqeContext → Option Ptr
find_owned control [] = none
find_owned control ((p, c) ∷ d) =
    let rest = find_owned control d in if is_owned_target control c then some p else rest

-- Without the notification of the driver.
unfoldable pub request_owned_cancel : ControlId → DriverData → Outcome DriverData
request_owned_cancel control d = elim (find_owned control d.owned_contexts) [
  | none ↦ done d
  | some target ↦ elim (lookup target d.owned_contexts) [
    | none ↦ stop
    | some c ↦ done (record d {
      owned_contexts = insert target (record c { cancel_queued = true }) d.owned_contexts;
      owned_cancel_queue = d.owned_cancel_queue ++ target ∷ [];
    })
  ]
]

unfoldable pub context_pointer_in_use : DriverData → Ptr → Bool
context_pointer_in_use d p =
    contains_key p d.contexts
    || contains_key p d.owned_contexts
    || contains_key p d.owned_cancel_contexts

-- The context of a cancellation enters the registry and the order of the submission queue.
abbrev pub stage_owned_cancel : Ptr → Ptr → DriverData → DriverData
stage_owned_cancel pointer target d = record d {
  owned_cancel_contexts =
      insert pointer (record { phase = unsubmitted; target = target }) d.owned_cancel_contexts;
  staged = d.staged ++ owned_cancel pointer ∷ [];
}

module _ (alloc : DriverData → Ptr) where
  unfoldable pub stage_owned_commands :
      List Ptr → DriverData → SubmissionQueue → Outcome (DriverData × SubmissionQueue)
  stage_owned_commands [] d sq = done (d, sq)
  stage_owned_commands (target ∷ targets) d sq =
      let popped : DriverData = record d { owned_cancel_queue = targets } in
      let pointer = alloc popped in
      let entry : Sqe = record { user_data = pointer; opcode = async_cancel target } in
      let rest = λ (next : SubmissionQueue).
        stage_owned_commands targets (stage_owned_cancel pointer target popped) next in
      if context_pointer_in_use popped pointer then stop else elim (push entry sq) [
        | none ↦ done (record popped { owned_cancel_queue = target ∷ targets }, sq)
        | some next ↦ rest next
      ]

  unfoldable pub stage_owned_cancellations :
      DriverData → SubmissionQueue → Outcome (DriverData × SubmissionQueue)
  stage_owned_cancellations d sq = stage_owned_commands d.owned_cancel_queue d sq

abbrev pub Completed : Type 0
Completed = Option (Handler × ℤ)

-- The completion of an operation; `d` no longer holds its context.
unfoldable pub complete_owned :
    Ptr → OwnedCqeContext → Cqe → DriverData → Outcome (DriverData × Completed)
complete_owned pointer c cqe d =
    if not (is_submitted c.phase) || cqe.more then stop else elim c.handler [
      | none ↦ stop
      | some handler ↦
          let kept : OwnedCqeContext = record c { phase = terminal; handler = none } in
          done (
            if c.cancel_queued && not c.cancel_seen
                then record d { owned_contexts = insert pointer kept d.owned_contexts }
                else d,
            some (handler, cqe.result),
          )
    ]

-- The completion of a cancellation; `d` no longer holds its context.
unfoldable pub complete_owned_cancel :
    OwnedCancelContext → Cqe → DriverData → Outcome (DriverData × Completed)
complete_owned_cancel c cqe d =
    if not (is_submitted c.phase) || cqe.more
    then stop
    else elim (lookup c.target d.owned_contexts) [
      | none ↦ stop
      | some found ↦ done (
        record d {
          owned_contexts =
              if is_terminal found.phase
              then erase c.target d.owned_contexts
              else insert c.target (record found { cancel_seen = true }) d.owned_contexts;
        },
        none,
      )
    ]

unfoldable pub dispatch_owned : Cqe → DriverData → Outcome (DriverData × Completed)
dispatch_owned cqe d =
    let pointer = cqe.user_data in
    if pointer == 0 then stop else elim (lookup pointer d.owned_contexts) [
      | some c ↦
          complete_owned pointer c cqe
            (record d { owned_contexts = erase pointer d.owned_contexts })
      | none ↦ elim (lookup pointer d.owned_cancel_contexts) [
        | none ↦ stop
        | some c ↦
            complete_owned_cancel c cqe
              (record d { owned_cancel_contexts = erase pointer d.owned_cancel_contexts })
      ]
    ]
