-- ===== src/IoUring/Submit.antt =====
-- `submit_staged` of src/io_uring.rs.
use nosv.Base.{
  ℕ, zero, suc, ◌+◌, Bool, false, not, ◌||◌, Option, none, some, List, [], ◌∷◌, ◌==◌, ltb, length,
  if◌then◌else◌,
}
use nosv.Base.Outcome.{Outcome, done, stop, ◌>>=◌}
use nosv.Base.Result.{Result, ok, err}
use nosv.Base.Dict.{lookup, insert}
use nosv.IoUring.Data.{
  CqeContext, submitted, StagedContext, raw, owned, owned_cancel, Driver, inner_of, set_inner,
  is_original, is_staged,
}
use nosv.IoUring.Submission.{take_into}

-- The error numbers that `libc` gives.
pub record Errnos : Type 0 where
  pub eintr : ℕ
  pub eagain : ℕ
  pub ebusy : ℕ

-- `is_retryable`; an error that does not come from the system has no number.
unfoldable pub is_retryable : Errnos → Option ℕ → Bool
is_retryable errnos none = false
is_retryable errnos (some e) = e == errnos.eintr || e == errnos.eagain || e == errnos.ebusy

abbrev pub submitted_context : CqeContext → CqeContext
submitted_context c = record c { phase = submitted }

-- The kernel has accepted the entry of one context.
unfoldable pub accept : StagedContext → Driver → Outcome Driver
accept (raw pointer) d = elim (lookup pointer d.data_.contexts) [
  | none ↦ stop
  | some c ↦
      if not (is_staged c.phase)
      then stop
      else let d' : Driver = record d {
        data_ = record d.data_ { contexts = insert pointer (submitted_context c) d.data_.contexts };
      } in
        if is_original c.kind
        then (let i = inner_of d c.state in
            done
              (record (set_inner c.state
                (record i { accepted = i.accepted + 1; admission_waker = none }) d') {
                  wakes = take_into i.admission_waker d.wakes;
                }))
        else done d'
]
accept (owned pointer) d = elim (lookup pointer d.data_.owned_contexts) [
  | none ↦ stop
  | some c ↦
      if not (is_staged c.phase)
      then stop
      else done (record d {
        data_ = record d.data_ {
          owned_contexts = insert pointer (record c { phase = submitted }) d.data_.owned_contexts;
        };
      })
]
accept (owned_cancel pointer) d = elim (lookup pointer d.data_.owned_cancel_contexts) [
  | none ↦ stop
  | some c ↦
      if not (is_staged c.phase)
      then stop
      else done (record d {
        data_ = record d.data_ {
          owned_cancel_contexts =
              insert pointer (record c { phase = submitted }) d.data_.owned_cancel_contexts;
        };
      })
]

-- The first `count` entries of the order of the queue, `staged`, are accepted.
unfoldable pub accept_prefix : ℕ → List StagedContext → Driver → Outcome Driver
accept_prefix zero staged_ d = done (record d { data_ = record d.data_ { staged = staged_ } })
accept_prefix (suc n) [] d = stop
accept_prefix (suc n) (c ∷ rest) d = accept c d >>= accept_prefix n rest

-- The answer of `ring.submit` is the number of accepted entries, or the error number.
unfoldable pub submit_staged : Errnos → Result ℕ (Option ℕ) → Driver → Outcome Driver
submit_staged errnos (ok count) d =
    if ltb (length d.data_.staged) count then stop else accept_prefix count d.data_.staged d
submit_staged errnos (err e) d = if is_retryable errnos e then done d else stop
