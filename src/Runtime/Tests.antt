-- ===== src/Runtime/Tests.antt =====
-- Each theorem about the runtime at an input.
use nosv.Base.{
  not, ℕ, ◌≤◌, ◌≡◌, refl, Bool, true, false, none, some, List, [], ◌∷◌, arith, if◌then◌else◌, ltb,
}
use nosv.Base.Outcome.{done}
use nosv.Base.Result.{ok, err}
use nosv.Error.{busy, timeout}
use nosv.Runtime.{
  Lifecycle, running, closing, RuntimeState, is_same, task_type, task_completed, library,
}
use nosv.Runtime.Build.{whole, build, Balanced, build-Balanced}
use nosv.Runtime.Shutdown.{
  Runtime, Answers, native, IsOpen, Ends, shutdown_inner, shutdown, shutdown_inner-ShutDown,
  failed_shutdown-repeats,
}
use nosv.Runtime.Parker.{
  Blocked, blocked, begin_poll, wake_by_ref, polling, resumed, pausing, over, Reach, start, next,
  begin, was_pending, wake, no_lost_wake,
}
use nosv.Runtime.BlockOn.{
  Thread, Driven, output, returns, ready, pending, gives_output, try_block_on, finish, Waits,
  Restores, try_block_on-Gives, try_block_on-Restores,
}

abbrev open_runtime : Runtime
open_runtime = record {
  state = record { lifecycle = running; tasks = (4, tt) ∷ (6, tt) ∷ [] };
  held = some whole;
  io_uring_ended = false;
  timer_ended = false;
  active = true;
  aborted = [];
}

open_runtime-IsOpen : IsOpen open_runtime
open_runtime-IsOpen = record {
  is_whole = refl;
  io_uring_runs = refl;
  timer_runs = refl;
  is_running = refl;
}

abbrev all_well : List ℕ → Answers
all_well completions = record {
  on_owner_thread = true;
  process_matches = true;
  completions = completions;
  io_uring_type = ok tt;
  timer_type = ok tt;
  task_type = ok tt;
  library = ok tt;
}

shutdown_inner-ShutDown_example :
    Ends (all_well (6 ∷ 4 ∷ [])) open_runtime (shutdown_inner (all_well (6 ∷ 4 ∷ [])) open_runtime)
shutdown_inner-ShutDown_example =
    shutdown_inner-ShutDown (all_well (6 ∷ 4 ∷ [])) open_runtime open_runtime-IsOpen

abbrev idle_runtime : Runtime
idle_runtime = record open_runtime { state = record { lifecycle = running; tasks = [] } }

idle_runtime-IsOpen : IsOpen idle_runtime
idle_runtime-IsOpen = record {
  is_whole = refl;
  io_uring_runs = refl;
  timer_runs = refl;
  is_running = refl;
}

abbrev timer_type_busy : Answers
timer_type_busy = record (all_well []) { timer_type = err busy }

abbrev broken_runtime : Runtime
broken_runtime = record {
  state = record { lifecycle = closing; tasks = [] };
  held = none;
  io_uring_ended = true;
  timer_ended = true;
  active = true;
  aborted = [];
}

failed_shutdown_runs :
    shutdown timer_type_busy timer_type_busy idle_runtime ≡ some (broken_runtime, err (native busy))
unfolding shutdown
failed_shutdown_runs = refl

failed_shutdown-repeats_example : broken_runtime.held ≡ none
failed_shutdown-repeats_example =
    failed_shutdown-repeats timer_type_busy timer_type_busy idle_runtime busy idle_runtime-IsOpen
      refl refl refl refl refl refl refl refl refl refl refl broken_runtime failed_shutdown_runs

abbrev everything : nosv.Runtime.Build.Answers
everything = record {
  in_task = false;
  prepared = ok tt;
  inited = ok tt;
  task_typed = ok tt;
  io_uring_typed = ok tt;
  io_uring_started = ok tt;
  timer_typed = ok tt;
  timer_started = err timeout;
  accepts = λ r. not (is_same r task_type);
}

build-Balanced_example : Balanced everything (build everything)
build-Balanced_example = build-Balanced everything

-- A wake while the root future is polled, and then a pause.
abbrev polled : Blocked
polled = record {
  gate = record { live = true; wake_submitted = false };
  phase = polling;
  submits = 0;
  woken = false;
}

abbrev woken_up : Blocked
woken_up = record polled {
  gate = record { live = true; wake_submitted = true };
  submits = 1;
  woken = true;
}

abbrev paused : Blocked
paused = record woken_up { phase = pausing }

paused-Reach : Reach paused
unfolding blocked begin_poll wake_by_ref
paused-Reach =
    next {b = woken_up} (next {b = polled} (next {b = blocked} start (begin refl)) (wake true refl))
      (was_pending refl)

no_lost_wake_example :
    (1 ≤ 1)
    × (pausing ≡ pausing → true ≡ true → ◌≡◌ {A = ℕ} 1 1)
    × (pausing ≡ resumed → ◌≡◌ {A = ℕ} 1 0)
    × (pausing ≡ over
        → (accepts : Bool) → wake_by_ref true accepts paused.gate ≡ done (paused.gate, false))
no_lost_wake_example = no_lost_wake paused paused-Reach

-- Two pending rounds, and then the output.
abbrev third_time : nosv.Runtime.BlockOn.Answers ℕ ℕ
third_time = record {
  on_owner_thread = true;
  process_matches = true;
  in_task = false;
  attach = ok tt;
  detach = ok tt;
  poll = λ n. if ltb n 2 then pending else ready 42;
  pause = λ n. ok tt;
}

third_time-Waits : Waits third_time 2
third_time-Waits k lt = (ground arith, refl)

abbrev main_thread : Thread
main_thread = record { current = none; in_block_on = false; attached = false }

try_block_on-Gives_example :
    try_block_on third_time 3 9 open_runtime.state main_thread ≡ some (main_thread, returns (ok 42))
try_block_on-Gives_example =
    try_block_on-Gives third_time 3 9 2 open_runtime.state main_thread (returns (ok 42)) refl refl
      refl refl refl refl third_time-Waits (gives_output refl refl) (omega arith)

try_block_on-Restores_example :
    Restores third_time main_thread (try_block_on third_time 3 9 open_runtime.state main_thread)
try_block_on-Restores_example = try_block_on-Restores third_time 3 9 open_runtime.state main_thread
