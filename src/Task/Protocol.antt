-- ===== src/Task/Protocol.antt =====
-- The protocol of one spawned task of src/task.rs: wakes and aborts from any thread, in any order,
-- between the transitions of the run callback and up to the end of the descriptor.
use nosv.Base.{
  ℕ, suc, ◌+◌, ◌<◌, ◌≡◌, ◌≢◌, ◌≤◌, ◌↔◌, Bool, true, false, not, ◌||◌, none, some, List, [], ◌∷◌,
  to_ℕ, arith,
}
use nosv.Base.Outcome.{done, Returns}
use nosv.Base.Result.{Result, ok}
use nosv.Task.Gate.{
  TaskCore, NativePhase, is_live, ready, live, terminal, TerminalKind, NativeCall, submit, suspend,
  destroy, callback, RawTask, Outside, log, schedule, request_abort, start_poll, finish_pending,
  finish_terminal, replace_terminal, suspend_failed, retire, spawned,
}

abbrev pub submits : List NativeCall → ℕ
submits [] = 0
submits (submit ∷ cs) = suc (submits cs)
submits (suspend ∷ cs) = submits cs
submits (destroy ∷ cs) = submits cs
submits (callback ∷ cs) = submits cs

abbrev pub callbacks : List NativeCall → ℕ
callbacks [] = 0
callbacks (submit ∷ cs) = callbacks cs
callbacks (suspend ∷ cs) = callbacks cs
callbacks (destroy ∷ cs) = callbacks cs
callbacks (callback ∷ cs) = suc (callbacks cs)

abbrev pub destroys : List NativeCall → ℕ
destroys [] = 0
destroys (submit ∷ cs) = destroys cs
destroys (suspend ∷ cs) = destroys cs
destroys (destroy ∷ cs) = suc (destroys cs)
destroys (callback ∷ cs) = destroys cs

-- Nothing is done to the descriptor once it is destroyed, and it is destroyed once.
abbrev pub IsSealed : List NativeCall → Type 0
IsSealed [] = Unit
IsSealed (c ∷ cs) = (destroys cs ≡ 0) × IsSealed cs

-- One step of the task. nOS-V enters the callback only for a submission that it has not served yet,
-- never twice at once, and not after the callback has ended the task.
pub data Step (c d : TaskCore) : Type 0 where
  wakes : (out : Outside) → schedule out c ≡ done d → Step c d
  aborts : (out : Outside) (won : Bool) → request_abort out c ≡ done (d, won) → Step c d
  enters :
      (polls : Bool)
      → callbacks c.calls < submits c.calls
      → start_poll (log callback c) ≡ done (d, polls)
      → Step c d
  pends : (suspends : Bool) → finish_pending c ≡ done (d, suspends) → Step c d
  ends : (kind : TerminalKind) (won : Bool) → finish_terminal kind c ≡ done (d, won) → Step c d
  replaces : (kind : TerminalKind) → d ≡ replace_terminal kind c → Step c d
  fails : c.native.polling ≡ false → d ≡ suspend_failed c → Step c d
  retires :
      (answer : Result (Unit {0}) _) (r : Result (Unit {0}) _) → retire answer c ≡ (d, r) → Step c d

pub data Reach (raw : RawTask) : TaskCore → Type 0 where
  start : Reach raw (spawned raw)
  next : {c d : TaskCore} → Reach raw c → Step c d → Reach raw d

abbrev pub holds_task : NativePhase → Bool
holds_task live = true
holds_task (terminal _) = true
holds_task _ = false

pub record IsValid (raw : RawTask) (c : TaskCore) : Type 0 where
  pub owned : holds_task c.native.phase ≡ true → c.native.task ≡ some raw
  pub given_up : holds_task c.native.phase ≡ false → c.native.task ≡ none
  pub undestroyed : holds_task c.native.phase ≡ true → destroys c.calls ≡ 0
  pub destroyed_once : holds_task c.native.phase ≡ false → destroys c.calls ≡ 1
  pub sealed : IsSealed c.calls
  pub balanced : submits c.calls ≡ callbacks c.calls + to_ℕ c.native.wake_submitted
  pub polls_live : c.native.polling ≡ true → c.native.phase ≡ live

module _ (raw : RawTask) (c d : TaskCore) (v : IsValid raw c) where
  schedule-IsValid : (out : Outside) → schedule out c ≡ done d → IsValid raw d
  unfolding schedule
  schedule-IsValid out e = ground arith

  request_abort-IsValid :
      (out : Outside) (won : Bool) → request_abort out c ≡ done (d, won) → IsValid raw d
  unfolding request_abort
  request_abort-IsValid out won e = ground arith

  start_poll-IsValid :
      (polls : Bool)
      → callbacks c.calls < submits c.calls
      → start_poll (log callback c) ≡ done (d, polls)
      → IsValid raw d
  unfolding start_poll
  start_poll-IsValid polls h e = ground arith

  finish_pending-IsValid : (suspends : Bool) → finish_pending c ≡ done (d, suspends) → IsValid raw d
  unfolding finish_pending
  finish_pending-IsValid suspends e = ground arith

  finish_terminal-IsValid :
      (kind : TerminalKind) (won : Bool) → finish_terminal kind c ≡ done (d, won) → IsValid raw d
  unfolding finish_terminal
  finish_terminal-IsValid kind won e = ground arith

  replace_terminal-IsValid : (kind : TerminalKind) → d ≡ replace_terminal kind c → IsValid raw d
  unfolding replace_terminal
  replace_terminal-IsValid kind e = ground arith

  suspend_failed-IsValid : c.native.polling ≡ false → d ≡ suspend_failed c → IsValid raw d
  unfolding suspend_failed
  suspend_failed-IsValid p e = ground arith

  retire-IsValid :
      (answer : Result (Unit {0}) _) (r : Result (Unit {0}) _)
      → retire answer c ≡ (d, r)
      → IsValid raw d
  unfolding retire
  retire-IsValid answer r e = ground arith

Step-IsValid : (raw : RawTask) {c d : TaskCore} → Step c d → IsValid raw c → IsValid raw d
Step-IsValid raw {c} {d} (wakes out e) v = schedule-IsValid raw c d v out e
Step-IsValid raw {c} {d} (aborts out won e) v = request_abort-IsValid raw c d v out won e
Step-IsValid raw {c} {d} (enters polls h e) v = start_poll-IsValid raw c d v polls h e
Step-IsValid raw {c} {d} (pends suspends e) v = finish_pending-IsValid raw c d v suspends e
Step-IsValid raw {c} {d} (ends kind won e) v = finish_terminal-IsValid raw c d v kind won e
Step-IsValid raw {c} {d} (replaces kind e) v = replace_terminal-IsValid raw c d v kind e
Step-IsValid raw {c} {d} (fails p e) v = suspend_failed-IsValid raw c d v p e
Step-IsValid raw {c} {d} (retires answer r e) v = retire-IsValid raw c d v answer r e

spawned-IsValid : (raw : RawTask) → IsValid raw (spawned raw)
spawned-IsValid raw = ground arith

-- In every state that a spawned task can reach, under any interleaving of wakes, aborts and
-- transitions of the callback: the descriptor is held exactly until its destruction; until then no call
-- has destroyed it, after that exactly one has, and nothing is done to it afterwards; the submissions exceed the callbacks that nOS-V has made
-- by one if a wake is recorded and not at all otherwise, and only a live task is being polled.
pub Reach-IsValid : (raw : RawTask) {c : TaskCore} → Reach raw c → IsValid raw c
Reach-IsValid raw start = spawned-IsValid raw
Reach-IsValid raw (next r st) = Step-IsValid raw st (Reach-IsValid raw r)

-- A wake of a live task from within its process, when nOS-V takes the submission, does not stop the
-- process and leaves exactly one submission that no callback has served yet, however often the task
-- was woken before: no wake is lost, and none is doubled.
pub schedule_delivers :
    (raw : RawTask) (c : TaskCore) (out : Outside)
    → Reach raw c
    → c.native.phase ≡ live
    → out.runtime_here ≡ true
    → out.submitted ≡ ok tt
    → Returns (schedule out c) (λ d.
      (submits d.calls ≡ callbacks d.calls + 1)
      × (d.native.phase ≡ live)
      × (callbacks d.calls ≡ callbacks c.calls))
unfolding schedule
schedule_delivers raw c out r l h k = ground (arith, Reach-IsValid raw r)

-- A wake or an abort of a task that is not live makes no call into nOS-V and changes nothing, and
-- the abort reports that it did not win.
pub late_signals :
    (c : TaskCore) (out : Outside)
    → c.native.phase ≢ live
    → (schedule out c ≡ done c) × (request_abort out c ≡ done (c, false))
unfolding schedule request_abort
late_signals c out l = ground arith

-- An abort wins exactly if it is made within the process on a live task that no abort has reached
-- before. A winning abort is recorded and leaves one submission for the callback to serve, so that
-- an idle task wakes up to see it.
pub request_abort_wins :
    (raw : RawTask) (c : TaskCore) (out : Outside)
    → Reach raw c
    → out.submitted ≡ ok tt
    → Returns (request_abort out c) (λ (d, won).
      ((won ≡ true) ↔ (
        (out.runtime_here ≡ true) × (c.native.phase ≡ live) × (c.native.cancel_requested ≡ false)))
      × (won ≡ true
          → (d.native.cancel_requested ≡ true) × (submits d.calls ≡ callbacks d.calls + 1)))
unfolding request_abort
request_abort_wins raw c out r h = ground (arith, Reach-IsValid raw r)

abbrev pub is_ready : NativePhase → Bool
is_ready (terminal ready) = true
is_ready _ = false

-- What a task may become in any number of steps. The source replaces the outcome of a task that has
-- ended by a panic only, so that no such step makes it `ready`.
pub data Later (c : TaskCore) : TaskCore → Type 0 where
  now : Later c c
  after :
      {d e : TaskCore}
      → Later c d
      → Step d e
      → is_live d.native.phase || not (is_ready e.native.phase) ≡ true
      → Later c e

-- An aborted task: while it is live, it is where it was when the abort came, in the same poll or in none;
-- once it has ended, it is in no poll, its outcome is not `ready`, and at most one more callback
-- has been entered.
pub record IsAborted (c d : TaskCore) : Type 0 where
  pub recorded : d.native.cancel_requested ≡ true
  pub waits :
      d.native.phase ≡ live
      → (d.native.polling ≡ c.native.polling) × (callbacks d.calls ≡ callbacks c.calls)
  pub stays : d.native.polling ≡ true → d.native.phase ≡ live
  pub ends : is_ready d.native.phase ≡ false
  pub enters : callbacks d.calls ≤ callbacks c.calls + 1
