-- ===== src/IoUring/Dispatch.antt =====
-- `dispatch_raw` of src/io_uring.rs: one completion is routed through the context that its
-- `user_data` points to.
use nosv.Base.{Bool, true, not, ◌&&◌, ◌||◌, Option, none, some, ◌==◌, if◌then◌else◌}
use nosv.Base.Outcome.{Outcome, done, stop}
use nosv.Base.Dict.{Dict, lookup, insert, erase}
use nosv.IoUring.Data.{
  Cqe, Completion, CqeContext, ContextKind, original, cancel, terminal, Ptr, SubmissionId, Driver,
  inner_of, set_inner, is_submitted, is_terminal,
}
use nosv.IoUring.Submission.{
  Locked, wake_admission, deliver_original, retire_original, deliver_cancel, retire_cancel,
}

-- The completion with the `user_data` of the caller put back.
abbrev pub restored : CqeContext → Cqe → Completion
restored context cqe = record {
  index = context.index;
  cqe = record cqe { user_data = context.original_user_data };
}

abbrev pub set_locked : SubmissionId → Locked → Driver → Driver
set_locked s (i, wakes) d = record (set_inner s i d) { wakes = wakes }

abbrev pub set_contexts : Dict CqeContext → Driver → Driver
set_contexts ctx d = record d { data_ = record d.data_ { contexts = ctx } }

-- The work under the lock of the submission.
unfoldable pub complete_original : CqeContext → Cqe → Driver → Driver × Bool
complete_original context cqe d =
    let s = context.state in
    let (locked, first) =
      deliver_original (d.states s).limit (restored context cqe)
        (wake_admission (inner_of d s, d.wakes)) in
    (set_locked s (if cqe.more then locked else retire_original locked) d, first)

-- `d` no longer holds the context.
unfoldable pub dispatch_original : Ptr → CqeContext → Cqe → Driver → Driver × Option SubmissionId
unfolding complete_original
dispatch_original pointer context cqe d =
    let (d', first) = complete_original context cqe d in
    let kept : CqeContext = if cqe.more then context else record context { phase = terminal } in
    (
      if cqe.more || (context.cancel_queued && not context.cancel_seen)
          then set_contexts (insert pointer kept d'.data_.contexts) d'
          else d',
      if first then some context.state else none,
    )

unfoldable pub dispatch_cancel : CqeContext → Cqe → Driver → Outcome (Driver × Option SubmissionId)
dispatch_cancel context cqe d = if cqe.more then stop else elim context.target [
  | none ↦ stop
  | some target ↦
      let s = context.state in
      let locked =
        retire_cancel
          (deliver_cancel (d.states s).limit (restored context cqe) (inner_of d s, d.wakes)) in
      let d' : Driver = set_locked s locked d in
      elim (lookup target d'.data_.contexts) [
        | none ↦ stop
        | some found ↦ done (
          set_contexts
              (if is_terminal found.phase
                then erase target d'.data_.contexts
                else insert target (record found { cancel_seen = true }) d'.data_.contexts)
              d',
          none,
        )
      ]
]

unfoldable pub dispatch_kind :
    ContextKind → Ptr → CqeContext → Cqe → Driver → Outcome (Driver × Option SubmissionId)
dispatch_kind original pointer context cqe d = done (dispatch_original pointer context cqe d)
dispatch_kind cancel pointer context cqe d = dispatch_cancel context cqe d

-- The submission that is returned is the one whose delivery overflowed for the first time.
unfoldable pub dispatch_raw : Cqe → Driver → Outcome (Driver × Option SubmissionId)
dispatch_raw cqe d =
    let pointer = cqe.user_data in
    if pointer == 0 then stop else elim (lookup pointer d.data_.contexts) [
      | none ↦ stop
      | some context ↦
          if not (is_submitted context.phase)
          then stop
          else dispatch_kind context.kind pointer context cqe
              (set_contexts (erase pointer d.data_.contexts) d)
    ]
