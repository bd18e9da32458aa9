-- ===== src/Task/Join.antt =====
-- `JoinState` of src/task.rs, the result cell of a spawned task, and the joiner's poll. A waker is
-- known by a number: two wakers wake the same task exactly if their numbers are equal.
use nosv.Base.{ℕ, Bool, true, false, Option, none, some, ◌==◌, not, if◌then◌else◌}
use nosv.Base.Outcome.{Outcome, done, stop}
use nosv.Base.Result.{Result, err}
use nosv.Error.{JoinError, runtime, invalid_operation}

abbrev pub Waker : Type 0
Waker = ℕ

-- `core::task::Poll`.
pub data Poll {ℓ} (A : Type ℓ) : Type ℓ where
  pending : Poll A
  ready : A → Poll A

-- `slot.as_ref().is_none_or(|old| !old.will_wake(w))`, then `*slot = Some(w.clone())`.
abbrev pub keep_waker : Option Waker → Waker → Option Waker
keep_waker none w = some w
keep_waker (some old) w = if old == w then some old else some w

-- `T` is the output of the future, `P` the payload of a panic.
pub record JoinInner (T P : Type 0) : Type 0 where
  pub result : Option (Result T (JoinError P))
  pub native_completed : Bool
  pub waiter : Option Waker
  pub consumed : Bool

module _ {T P : Type 0} where
  abbrev pub new : JoinInner T P
  new = record { result = none; native_completed = false; waiter = none; consumed = false }

  unfoldable pub store : Result T (JoinError P) → JoinInner T P → Outcome (JoinInner T P)
  store r j = elim j.result [ none ↦ done (record j { result = some r }) | some _ ↦ stop ]

  unfoldable pub replace_error_if_unpublished : JoinError P → JoinInner T P → JoinInner T P
  replace_error_if_unpublished e j =
      if not j.native_completed then record j { result = some (err e) } else j

  -- The waker that is called after the lock is released.
  unfoldable pub publish : JoinInner T P → JoinInner T P × Option Waker
  publish j = (
    record j {
      result = elim j.result [ none ↦ some (err (runtime invalid_operation)) | some r ↦ some r ];
      native_completed = true;
      waiter = none;
    },
    j.waiter,
  )

  -- `<JoinHandle as Future>::poll`.
  unfoldable pub poll :
      Waker → JoinInner T P → Outcome (JoinInner T P × Poll (Result T (JoinError P)))
  poll w j =
      if j.consumed
      then stop
      else if j.native_completed
      then done (
        record j { consumed = true; result = none },
        ready (elim j.result [ none ↦ err (runtime invalid_operation) | some r ↦ r ]),
      )
      else done (record j { waiter = keep_waker j.waiter w }, pending)

  unfoldable pub is_finished : JoinInner T P → Bool
  is_finished j = j.native_completed
