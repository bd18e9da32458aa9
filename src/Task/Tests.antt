-- ===== src/Task/Tests.antt =====
-- Runs of src/task.rs on concrete tasks.
use nosv.Base.{ℕ, ◌+◌, ◌≡◌, refl, true, false, none, some, [], ◌∷◌, arith}
use nosv.Base.Outcome.{done, stop, Returns}
use nosv.Base.Result.{ok, err}
use nosv.Error.{busy, cancelled}
use nosv.Task.Gate.{
  TaskCore, live, terminal, destroyed, Outside, schedule, start_poll, finish_terminal, spawned,
  submit, destroy, log, callback,
}
use nosv.Task.Gate
use nosv.Task.Protocol.{
  enters, Reach, start, next, submits, callbacks, Reach-IsValid, schedule_delivers, late_signals,
}
use nosv.Task.Protocol
use nosv.Task.Spawn.{Registry, Answers, IsSpawned, IsValid, spawn_on, spawn_on-IsSpawned}
use nosv.Task.Join.{JoinInner, ready, new, poll}
use nosv.Task.Run.{Runnable, Turn, wake, abort, run_once, completed_callback}
use nosv.Task.Run
use nosv.Task.Turns.{IsIdle, HasEnded, AllAccepted, run_once-Ends}
use nosv.Task.Joining.{completed_callback-delivers}

abbrev here : Outside
here = record { runtime_here = true; submitted = ok tt }

-- A task that nOS-V has entered once and that was polled and went to sleep.
abbrev polling_task : TaskCore
polling_task = record (spawned 7) {
  native = record (spawned 7).native { wake_submitted = false; polling = true };
  calls = callback ∷ submit ∷ [];
}

entered : start_poll (log callback (spawned 7)) ≡ done (polling_task, true)
unfolding start_poll
entered = refl

polling-Reach : Reach 7 polling_task
polling-Reach = next start (enters true (omega arith) entered)

Reach-IsValid_example : Protocol.IsValid 7 polling_task
Reach-IsValid_example = Reach-IsValid 7 polling-Reach

schedule_delivers_example : Returns (schedule here polling_task) (λ d.
    (submits d.calls ≡ callbacks d.calls + 1) × (d.native.phase ≡ live) × (callbacks d.calls ≡ 1))
schedule_delivers_example = schedule_delivers 7 polling_task here polling-Reach refl refl refl

abbrev ended_task : TaskCore
ended_task = record polling_task {
  native = record polling_task.native { polling = false; phase = terminal Gate.ready };
}

abbrev aborted_task : TaskCore
aborted_task = record polling_task {
  native = record polling_task.native { cancel_requested = true; wake_submitted = true };
  calls = submit ∷ callback ∷ submit ∷ [];
}

abbrev cancelled_task : TaskCore
cancelled_task = record aborted_task {
  native = record aborted_task.native { polling = false; phase = terminal Gate.cancelled };
}

abbrev idle_task : Runnable ℕ ℕ
idle_task = record { core = spawned 7; future = true; join = new }

-- The future gives 5, is aborted from elsewhere while it does, and panics when it is dropped.
abbrev turn : Turn ℕ ℕ
turn = record {
  runtime_alive = true;
  polled = Run.ready 5;
  drop_panic = some 9;
  suspended = ok tt;
  during_poll = wake here ∷ abort here ∷ [];
  during_drop = [];
  before_suspend = [];
}

idle_task-IsIdle : IsIdle 7 idle_task
idle_task-IsIdle = ground arith

turn-AllAccepted : AllAccepted turn
turn-AllAccepted = ground arith

run_once-Ends_example : Returns (run_once turn idle_task) (HasEnded 7 (err cancelled))
run_once-Ends_example = run_once-Ends 7 turn idle_task idle_task-IsIdle turn-AllAccepted

abbrev finished_task : Runnable ℕ ℕ
finished_task = record {
  core = ended_task;
  future = false;
  join = record new { result = some (ok 5); waiter = some 3 };
}

finished_task-HasEnded : HasEnded 7 (ok 5) finished_task
finished_task-HasEnded = ground arith

completed_callback-delivers_example :
    Returns (completed_callback (ok tt) finished_task) (λ (r, woken).
      (r.core.native.phase ≡ destroyed)
      × (r.core.native.task ≡ none)
      × (r.core.calls ≡ destroy ∷ finished_task.core.calls)
      × (woken ≡ some 3)
      × Returns (poll 4 r.join) (λ (j, p). (p ≡ ready (ok 5)) × (poll 4 j ≡ stop)))
completed_callback-delivers_example =
    completed_callback-delivers 7 (ok 5) finished_task 4 finished_task-HasEnded refl

abbrev waiting_join : JoinInner ℕ ℕ
waiting_join = new

-- One task is registered, and nOS-V refuses the submission of another.
abbrev registry : Registry
registry = record { running = true; next_task_id = 2; tasks = (1, spawned 7) ∷ [] }

abbrev answers : Answers
answers = record {
  process_matches = true;
  affinity = ok tt;
  create = ok 9;
  metadata = ok tt;
  submitted = err busy;
  destroyed = err busy;
}

registry-IsValid : IsValid registry
registry-IsValid = record { is_map = (refl, tt); numbered = λ id h. ground arith }

spawn_on-IsSpawned_example :
    Returns
      (spawn_on answers registry)
      (λ (result, calls, r). IsSpawned answers registry.tasks (result, calls, r) × IsValid r)
spawn_on-IsSpawned_example = spawn_on-IsSpawned answers registry registry-IsValid (omega arith)
