-- ===== src/Task/Run.antt =====
-- The callbacks of src/task.rs: `run_once` polls the future of one task once, and
-- `completed_callback` retires the descriptor. Between two of its transitions other threads, and the
-- future itself, may wake and abort the task; these signals are arguments, for each gap a list.
use nosv.Base.{Bool, false, not, Option, none, some, List, [], ◌∷◌, if◌then◌else◌}
use nosv.Base.Outcome.{Outcome, done, stop, ◌>>=◌}
use nosv.Base.Result.{Result, ok, err}
use nosv.Error.{NativeError, cancelled, panic, runtime, invalid_operation}
use nosv.Task.Gate.{
  TaskCore, TerminalKind, NativeCall, suspend, callback, Outside, log, schedule, request_abort,
  start_poll, finish_pending, finish_terminal, replace_terminal, suspend_failed, retire,
}
use nosv.Task.Gate
use nosv.Task.Join.{JoinInner, Waker, store, publish}

pub data Signal : Type 0 where
  wake abort : Outside → Signal

unfoldable pub signal : Signal → TaskCore → Outcome TaskCore
signal (wake out) c = schedule out c
signal (abort out) c = request_abort out c >>= λ r. done r.0

unfoldable pub signals : List Signal → TaskCore → Outcome TaskCore
unfolding signal
signals [] c = done c
signals (s ∷ ss) c = signal s c >>= signals ss

-- What `Future::poll` gives, with a panic that the executor catches.
pub data Polled (T P : Type 0) : Type 0 where
  pending : Polled T P
  ready : T → Polled T P
  panicked : P → Polled T P

-- The `Runnable` of one task: its core, whether the future slot is filled, and the result cell.
pub record Runnable (T P : Type 0) : Type 0 where
  pub core : TaskCore
  pub future : Bool
  pub join : JoinInner T P

-- One call of the callback as the outside sees it: whether the runtime is still there, what the poll
-- gives, what dropping the future throws, what `ffi::suspend` answers, and the signals of each gap.
pub record Turn (T P : Type 0) : Type 0 where
  pub runtime_alive : Bool
  pub polled : Polled T P
  pub drop_panic : Option P
  pub suspended : Result (Unit {0}) NativeError
  pub during_poll : List Signal
  pub during_drop : List Signal
  pub before_suspend : List Signal

module _ {T P : Type 0} where
  abbrev pub on_core : (TaskCore → Outcome TaskCore) → Runnable T P → Outcome (Runnable T P)
  on_core f r = f r.core >>= λ c. done (record r { core = c })

  abbrev pub on_join :
      (JoinInner T P → Outcome (JoinInner T P)) → Runnable T P → Outcome (Runnable T P)
  on_join f r = f r.join >>= λ j. done (record r { join = j })

  -- `take_and_drop_future`: the destructor may send signals, and may panic if there is a future.
  unfoldable pub take_and_drop_future : Turn T P → Runnable T P → Outcome (Runnable T P × Option P)
  take_and_drop_future t r =
      if r.future
      then (on_core (signals t.during_drop) (record r { future = false })
          >>= (λ r'. done (r', t.drop_panic)))
      else done (r, none)

  unfoldable pub terminal_cancelled : Turn T P → Runnable T P → Outcome (Runnable T P)
  unfolding take_and_drop_future
  terminal_cancelled t r =
      take_and_drop_future t r >>= λ (r', _). on_join (store (err cancelled)) r'

  -- The end of the pending branch, `ffi::suspend` included.
  unfoldable pub suspend_task : Turn T P → Runnable T P → Outcome (Runnable T P)
  unfolding take_and_drop_future
  suspend_task t r = signals t.before_suspend r.core >>= λ c. elim t.suspended [
    | ok _ ↦ done (record r { core = log suspend c })
    | err error ↦
        take_and_drop_future t (record r { core = suspend_failed (log suspend c) }) >>= λ (r', _).
        on_join (store (err (runtime error))) r'
  ]

  unfoldable pub poll_pending : Turn T P → Runnable T P → Outcome (Runnable T P)
  poll_pending t r = finish_pending r.core >>= λ (c, suspends).
      if not suspends
      then terminal_cancelled t (record r { core = c })
      else suspend_task t (record r { core = c })

  unfoldable pub poll_ready : Turn T P → T → Runnable T P → Outcome (Runnable T P)
  unfolding take_and_drop_future
  poll_ready t output r = finish_terminal Gate.ready r.core >>= λ (c, won).
      take_and_drop_future t (record r { core = c }) >>= λ (r', dropped).
      if not won then on_join (store (err cancelled)) r' else elim dropped [
        | some payload ↦
            on_join (store (err (panic payload)))
              (record r' { core = replace_terminal Gate.panicked r'.core })
        | none ↦ on_join (store (ok output)) r'
      ]

  unfoldable pub poll_panicked : Turn T P → P → Runnable T P → Outcome (Runnable T P)
  unfolding take_and_drop_future
  poll_panicked t payload r = finish_terminal Gate.panicked r.core >>= λ (c, panic_wins).
      take_and_drop_future t (record r { core = c }) >>= λ (r', drop_panic).
      if panic_wins
      then on_join (store (err (panic (elim drop_panic [ some p ↦ p | none ↦ payload ])))) r'
      else on_join (store (err cancelled)) r'

  unfoldable pub finish_poll : Turn T P → Polled T P → Runnable T P → Outcome (Runnable T P)
  finish_poll t pending r = poll_pending t r
  finish_poll t (ready output) r = poll_ready t output r
  finish_poll t (panicked payload) r = poll_panicked t payload r

  unfoldable pub run_once : Turn T P → Runnable T P → Outcome (Runnable T P)
  run_once t r = start_poll r.core >>= λ (c, polls).
      if not polls
      then terminal_cancelled t (record r { core = c })
      else if not t.runtime_alive
      then (finish_terminal Gate.runtime_error c >>= (λ (c', _).
          take_and_drop_future t (record r { core = c' })
          >>= (λ (r', _). on_join (store (err (runtime invalid_operation))) r')))
      else if not r.future
      then stop
      else signals t.during_poll c >>= λ c'. finish_poll t t.polled (record r { core = c' })

  -- `completed_callback`: the descriptor is destroyed before the result is published. The Boolean
  -- says that the registry entry is to be removed, the waker is the joiner's.
  unfoldable pub completed_callback :
      Result (Unit {0}) NativeError → Runnable T P → Outcome (Runnable T P × Option Waker)
  completed_callback answer r =
      let (c, retired) = retire answer r.core in
      elim retired [
        | err error ↦ stop
        | ok _ ↦ let (j, waiter) = publish r.join in done (record r { core = c; join = j }, waiter)
      ]
