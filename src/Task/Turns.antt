-- ===== src/Task/Turns.antt =====
-- What one call of the run callback of src/task.rs makes of the future's poll, on every branch.
use nosv.Base.{◌≡◌, ap, ◌∙◌, Bool, true, false, not, ◌||◌, none, some, arith, if◌then◌else◌, All}
use nosv.Base.Outcome.{done, Returns, Returns->>=, ◌>>=◌}
use nosv.Base.Result.{Result, ok, err}
use nosv.Error.{JoinError, cancelled, panic, runtime, invalid_operation}
use nosv.Task.Gate.{
  TaskCore, NativePhase, TerminalKind, live, terminal, Outside, RawTask, schedule, request_abort,
  start_poll, finish_pending, finish_terminal, replace_terminal, suspend_failed, is_terminal,
  retire, suspend, log,
}
use nosv.Task.Join.{store}
use nosv.Task.Run.{
  Signal, wake, abort, signal, signals, Polled, Runnable, Turn, take_and_drop_future, on_join,
  suspend_task, terminal_cancelled, poll_pending, poll_ready, poll_panicked, finish_poll, run_once,
}
use nosv.Task.Gate
use nosv.Task.Run
use nosv.Task.Signals.{IsAccepted, aborted, IsLive, Signalled, signals-Signalled, signals-ended}

-- How a turn ends: the future is to be polled again, or the task has its result.
pub data Ending (T P : Type 0) : Type 0 where
  again : Ending T P
  settled : Result T (JoinError P) → Ending T P

module _ {T P : Type 0} where
  -- What the outside learns of a task whose future was polled, where no abort came before.
  abbrev pub ending_of_poll : Turn T P → Polled T P → Ending T P
  ending_of_poll t Run.pending = elim t.suspended [
    | ok _ ↦ again
    | err error ↦ settled (err (runtime error))
  ]
  ending_of_poll t (Run.ready output) = elim t.drop_panic [
    | none ↦ settled (ok output)
    | some payload ↦ settled (err (panic payload))
  ]
  ending_of_poll t (Run.panicked payload) = elim t.drop_panic [
    | none ↦ settled (err (panic payload))
    | some later ↦ settled (err (panic later))
  ]

  abbrev pub after_poll : Turn T P → Bool → Polled T P → Ending T P
  after_poll t requested p = if requested then settled (err cancelled) else ending_of_poll t p

  abbrev pub ending : Turn T P → Bool → Ending T P
  ending t requested =
      if requested
      then settled (err cancelled)
      else if not t.runtime_alive
      then settled (err (runtime invalid_operation))
      else after_poll t (aborted t.during_poll) t.polled

  -- The task before a turn: live, idle, with its future, and with no result.
  pub record IsIdle (raw : RawTask) (r : Runnable T P) : Type 0 where
    pub live_core : IsLive raw r.core
    pub idle : r.core.native.polling ≡ false
    pub has_future : r.future ≡ true
    pub no_result : r.join.result ≡ none

  -- The task has ended with the result `res`, which is stored and not yet published, the future is
  -- dropped, and the descriptor is still there for the completed callback.
  pub record HasEnded (raw : RawTask) (res : Result T (JoinError P)) (r : Runnable T P)
      : Type 0 where
    pub ended : is_terminal r.core.native.phase ≡ true
    pub kept : r.core.native.task ≡ some raw
    pub dropped : r.future ≡ false
    pub stored : r.join.result ≡ some res

  abbrev pub Ends : RawTask → Ending T P → Runnable T P → Type 0
  Ends raw again r = IsIdle raw r
  Ends raw (settled res) r = HasEnded raw res r

  pub record AllAccepted (t : Turn T P) : Type 0 where
    pub polls : All IsAccepted t.during_poll
    pub drops : All IsAccepted t.during_drop
    pub suspends : All IsAccepted t.before_suspend

  module _ (raw : RawTask) (t : Turn T P) where
    -- A core in the middle of a poll.
    record IsPolled (c : TaskCore) : Type 0 where
      live_core : IsLive raw c
      busy : c.native.polling ≡ true

    abbrev with_core : Runnable T P → TaskCore → Runnable T P
    with_core r c = record r { core = c }

    terminal_cancelled-Ends :
        (r : Runnable T P)
        → is_terminal r.core.native.phase ≡ true
        → r.core.native.task ≡ some raw
        → r.future ≡ true
        → r.join.result ≡ none
        → Returns (terminal_cancelled t r) (HasEnded raw (err cancelled))
    unfolding terminal_cancelled take_and_drop_future store
    terminal_cancelled-Ends r e k f n = ground (arith, signals-ended t.during_drop r.core e)

    -- The core that `finish_terminal` leaves.
    abbrev ended_core : TerminalKind → TaskCore → TaskCore
    ended_core kind c = record c {
      native = record c.native {
        polling = false;
        phase = terminal (if c.native.cancel_requested then Gate.cancelled else kind);
      };
    }

    module _ (r : Runnable T P) (polled : IsPolled r.core) (f : r.future ≡ true)
        (n : r.join.result ≡ none) where
      poll_ready-Ends :
          (v : T)
          → Returns
              (poll_ready t v r)
              (Ends raw (after_poll t r.core.native.cancel_requested (Run.ready v)))
      unfolding poll_ready finish_terminal take_and_drop_future store replace_terminal
      poll_ready-Ends v =
          ground
            (arith, signals-ended t.during_drop (ended_core Gate.ready r.core), polled.live_core)

      poll_panicked-Ends :
          (p : P)
          → Returns
              (poll_panicked t p r)
              (Ends raw (after_poll t r.core.native.cancel_requested (Run.panicked p)))
      unfolding poll_panicked finish_terminal take_and_drop_future store
      poll_panicked-Ends p =
          ground
            (arith, signals-ended t.during_drop (ended_core Gate.panicked r.core), polled.live_core)

    suspended-Ends :
        (r : Runnable T P) (d : TaskCore)
        → IsLive raw d
        → d.native.polling ≡ false
        → r.future ≡ true
        → r.join.result ≡ none
        → Returns
            (elim t.suspended [
              | ok _ ↦ done (record r { core = log suspend d })
              | err error ↦
                  take_and_drop_future t (record r { core = suspend_failed (log suspend d) })
                  >>= λ (r', _). on_join (store (err (runtime error))) r'
            ])
            (Ends raw (ending_of_poll t Run.pending))
    unfolding take_and_drop_future store suspend_failed
    suspended-Ends r d l p f n =
        ground (arith, signals-ended t.during_drop (suspend_failed (log suspend d)))

    suspend_task-Ends :
        (r : Runnable T P)
        → IsLive raw r.core
        → r.core.native.polling ≡ false
        → r.future ≡ true
        → r.join.result ≡ none
        → AllAccepted t
        → Returns (suspend_task t r) (Ends raw (ending_of_poll t Run.pending))
    unfolding suspend_task
    suspend_task-Ends r l p f n a =
        Returns->>= (signals t.before_suspend r.core) _
          (Signalled raw r.core (aborted t.before_suspend)) _
          (signals-Signalled raw t.before_suspend r.core a.suspends l)
          λ d q. suspended-Ends r d q.0 (q.1 ∙ p) f n

    finish_poll-Ends :
        (p : Polled T P) (r : Runnable T P)
        → IsPolled r.core
        → r.future ≡ true
        → r.join.result ≡ none
        → AllAccepted t
        → Returns (finish_poll t p r) (Ends raw (after_poll t r.core.native.cancel_requested p))
    unfolding finish_poll poll_pending finish_pending
    finish_poll-Ends Run.pending r c f n a =
        let idle : TaskCore = record r.core { native = record r.core.native { polling = false } } in
        ground (
          arith,
          c.live_core,
          suspend_task-Ends (with_core r idle),
          terminal_cancelled-Ends (with_core r (ended_core Gate.cancelled r.core)),
        )
    finish_poll-Ends (Run.ready v) r c f n a = poll_ready-Ends r c f n v
    finish_poll-Ends (Run.panicked p) r c f n a = poll_panicked-Ends r c f n p

    polled-Ends :
        (r : Runnable T P) (c : TaskCore)
        → IsPolled c
        → c.native.cancel_requested ≡ false
        → r.future ≡ true
        → r.join.result ≡ none
        → AllAccepted t
        → Returns
            (signals t.during_poll c >>= λ c'. finish_poll t t.polled (record r { core = c' }))
            (Ends raw (after_poll t (aborted t.during_poll) t.polled))
    polled-Ends r c p e f n a =
        Returns->>= (signals t.during_poll c) _ (Signalled raw c (aborted t.during_poll)) _
          (signals-Signalled raw t.during_poll c a.polls p.live_core)
          λ d q.
            let requested : d.native.cancel_requested ≡ aborted t.during_poll =
              q.2 ∙ ap (λ b. b || aborted t.during_poll) e in
            rw (← requested) (
              finish_poll-Ends t.polled (with_core r d)
                (record { live_core = q.0; busy = q.1 ∙ p.busy }) f n a)

    -- One call of the run callback on an idle task, with nOS-V accepting the submissions of the
    -- signals: it never stops the process, and it ends as `ending` says. A cancellation that was
    -- requested before the callback or during the poll wins over whatever the poll gives. Otherwise
    -- an output is the result unless dropping the future panics, a panic while dropping replaces one
    -- while polling, and a pending future is idle again unless nOS-V cannot suspend the task.
    -- Whenever the task ends, its future is dropped, exactly one result is stored, and the
    -- descriptor is still held for the completed callback.
    pub run_once-Ends :
        (r : Runnable T P)
        → IsIdle raw r
        → AllAccepted t
        → Returns (run_once t r) (Ends raw (ending t r.core.native.cancel_requested))
    unfolding run_once start_poll finish_terminal take_and_drop_future store
    run_once-Ends r i a =
        let polled : TaskCore = record r.core {
          native = record r.core.native { polling = true; wake_submitted = false };
        } in
        let dropped : TaskCore = record r.core {
          native = record r.core.native {
            polling = false;
            wake_submitted = false;
            phase = terminal Gate.cancelled;
          };
        } in
        ground (
          arith,
          i.live_core,
          terminal_cancelled-Ends (with_core r dropped),
          signals-ended t.during_drop (ended_core Gate.runtime_error polled),
          polled-Ends r polled,
        )
