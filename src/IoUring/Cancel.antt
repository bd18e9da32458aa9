-- ===== src/IoUring/Cancel.antt =====
-- Cancellation in src/io_uring.rs: `request_cancel` and `stage_cancellations`.
use nosv.Base.{
  zero, suc, ◌+◌, Bool, true, false, not, ◌&&◌, ◌||◌, Option, none, some, List, [], ◌∷◌, ◌++◌, ◌==◌,
  length, if◌then◌else◌,
}
use nosv.Base.Outcome.{Outcome, done, stop}
use nosv.Base.Dict.{Dict, insert, contains_key}
use nosv.IoUring.Data.{
  Ptr, SubmissionId, CqeContext, CancelCommand, cancel, unsubmitted, StagedContext, DriverData,
  Driver, SubmissionInner, Delivery, Sqe, SubmissionQueue, async_cancel, inner_of, set_inner,
  is_open, is_detached, is_original, is_terminal,
}

-- The contexts that a request for the submission `s` targets.
abbrev pub is_target : SubmissionId → CqeContext → Bool
is_target s c =
    is_original c.kind && not (is_terminal c.phase) && not c.cancel_queued && (c.state == s)

abbrev pub command : Ptr → CqeContext → CancelCommand
command pointer c = record {
  target = pointer;
  index = c.index;
  original_user_data = c.original_user_data;
  state = c.state;
}

-- `context.cancel_queued = true` on each target.
unfoldable pub mark : SubmissionId → Dict CqeContext → Dict CqeContext
mark s [] = []
mark s ((p, c) ∷ d) = (p, if is_target s c then record c { cancel_queued = true } else c) ∷ mark s d

-- The commands in the order of the map, which the source leaves to the HashMap.
unfoldable pub commands : SubmissionId → Dict CqeContext → List CancelCommand
commands s [] = []
commands s ((p, c) ∷ d) = if is_target s c then command p c ∷ commands s d else commands s d

unfoldable pub close_delivery : Delivery → SubmissionInner → SubmissionInner
close_delivery delivery i =
    let closed : SubmissionInner =
      if is_open i.delivery || is_detached delivery then record i { delivery = delivery } else i in
    if is_detached delivery
    then (record closed {
      normal = [];
      cancellations = [];
      normal_waker = none;
      cancel_waker = none;
    })
    else closed

-- Without the notification of the driver, which `IoUring.Gate` models.
unfoldable pub request_cancel : SubmissionId → Delivery → Driver → Driver
unfolding close_delivery
request_cancel s delivery d =
    let closed : SubmissionInner = close_delivery delivery (inner_of d s) in
    let new = commands s d.data_.contexts in
    let d' : Driver = record d {
      data_ = record d.data_ {
        contexts = mark s d.data_.contexts;
        cancel_queue = d.data_.cancel_queue ++ new;
      };
    } in
    set_inner s (record closed { cancels = closed.cancels + length new }) d'

-- `sq.push` refuses an entry exactly if the queue has no free slot.
abbrev pub push : Sqe → SubmissionQueue → Option SubmissionQueue
push entry sq = elim sq.free [
  | zero ↦ none
  | suc n ↦ some (record { free = n; pushed = entry ∷ sq.pushed })
]

abbrev pub cancel_context : CancelCommand → CqeContext
cancel_context c = record {
  kind = cancel;
  phase = unsubmitted;
  index = c.index;
  original_user_data = c.original_user_data;
  state = c.state;
  target = some c.target;
  cancel_queued = false;
  cancel_seen = false;
}

-- The context enters the registry and the order of the submission queue.
abbrev pub stage : Ptr → CqeContext → DriverData → DriverData
stage pointer context data' = record data' {
  contexts = insert pointer context data'.contexts;
  staged = data'.staged ++ StagedContext.raw pointer ∷ [];
}

-- What the allocator answers is a parameter: the address of a new box beside the live contexts.
module _ (alloc : DriverData → Ptr) where
  -- The commands are popped from the front; one that finds no slot is put back in front.
  unfoldable pub stage_commands :
      List CancelCommand → DriverData → SubmissionQueue → Outcome (DriverData × SubmissionQueue)
  stage_commands [] data' sq = done (data', sq)
  stage_commands (c ∷ cs) data' sq =
      let popped : DriverData = record data' { cancel_queue = cs } in
      let pointer = alloc popped in
      let entry : Sqe = record { user_data = pointer; opcode = async_cancel c.target } in
      let rest = λ (next : SubmissionQueue).
        stage_commands cs (stage pointer (cancel_context c) popped) next in
      if contains_key pointer popped.contexts then stop else elim (push entry sq) [
        | none ↦ done (record popped { cancel_queue = c ∷ cs }, sq)
        | some next ↦ rest next
      ]

  unfoldable pub stage_cancellations :
      DriverData → SubmissionQueue → Outcome (DriverData × SubmissionQueue)
  stage_cancellations data' sq = stage_commands data'.cancel_queue data' sq
