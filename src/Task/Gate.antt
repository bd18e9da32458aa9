-- ===== src/Task/Gate.antt =====
-- `NativeGate` and `TaskCore` of src/task.rs. The calls that a method makes into nOS-V while it holds
-- the gate are added to `calls`, newest first; what nOS-V answers is an argument.
use nosv.Base.{ℕ, Bool, true, false, not, ◌||◌, Option, none, some, List, [], ◌∷◌, if◌then◌else◌}
use nosv.Base.Outcome.{Outcome, done, stop, ◌>>=◌}
use nosv.Base.Result.{Result, ok, err}
use nosv.Error.{NativeError, invalid_operation}

-- A pointer to a native descriptor.
abbrev pub RawTask : Type 0
RawTask = ℕ

pub data TerminalKind : Type 0 where
  ready cancelled panicked runtime_error : TerminalKind

pub data NativePhase : Type 0 where
  building live : NativePhase
  terminal : TerminalKind → NativePhase
  destroying destroyed : NativePhase

pub record NativeGate : Type 0 where
  pub task : Option RawTask
  pub phase : NativePhase
  pub wake_submitted : Bool
  pub polling : Bool
  pub cancel_requested : Bool

-- `callback` is a call of the run callback by nOS-V, the others are calls into it.
pub data NativeCall : Type 0 where
  submit suspend destroy callback : NativeCall

pub record TaskCore : Type 0 where
  pub native : NativeGate
  pub calls : List NativeCall

abbrev pub phase : TaskCore → NativePhase
phase c = c.native.phase

-- What the outside answers to a wake or an abort: whether the runtime is still there in this process
-- (`runtime.upgrade()` and `process_matches()`), and the result of `ffi::submit`.
pub record Outside : Type 0 where
  pub runtime_here : Bool
  pub submitted : Result (Unit {0}) NativeError

abbrev pub is_live : NativePhase → Bool
is_live live = true
is_live _ = false

abbrev pub is_terminal : NativePhase → Bool
is_terminal (terminal _) = true
is_terminal _ = false

abbrev pub log : NativeCall → TaskCore → TaskCore
log call c = record c { calls = call ∷ c.calls }

-- The descriptor is submitted; a missing one or a refusal stops the process.
unfoldable pub submit_live : Outside → TaskCore → Outcome TaskCore
submit_live out c = elim c.native.task [
  | none ↦ stop
  | some raw ↦ elim out.submitted [ ok _ ↦ done (log submit c) | err _ ↦ stop ]
]

unfoldable pub schedule : Outside → TaskCore → Outcome TaskCore
unfolding submit_live
schedule out c =
    if not out.runtime_here
    then done c
    else if not (is_live c.native.phase) || c.native.wake_submitted
    then done c
    else submit_live out (record c { native = record c.native { wake_submitted = true } })

-- The Boolean says whether this call installed the request.
unfoldable pub request_abort : Outside → TaskCore → Outcome (TaskCore × Bool)
unfolding submit_live
request_abort out c =
    if not out.runtime_here
    then done (c, false)
    else if not (is_live c.native.phase) || c.native.cancel_requested
    then done (c, false)
    else let requested = record c { native = record c.native { cancel_requested = true } } in
      if not c.native.wake_submitted
      then submit_live out
          (record c { native = record c.native { cancel_requested = true; wake_submitted = true } })
        >>= (λ c'. done (c', true))
      else done (requested, true)

-- The entry of the run callback. `false`: cancellation was pending, and the task is terminal.
unfoldable pub start_poll : TaskCore → Outcome (TaskCore × Bool)
start_poll c =
    if not (is_live c.native.phase) || c.native.polling
    then stop
    else if c.native.cancel_requested
    then done (
      record c {
        native = record c.native {
          polling = false;
          wake_submitted = false;
          phase = terminal cancelled;
        };
      },
      false,
    )
    else done
        (record c { native = record c.native { polling = true; wake_submitted = false } }, true)

unfoldable pub finish_pending : TaskCore → Outcome (TaskCore × Bool)
finish_pending c =
    if not (is_live c.native.phase) || not c.native.polling
    then stop
    else if c.native.cancel_requested
    then done (
      record c { native = record c.native { polling = false; phase = terminal cancelled } },
      false,
    )
    else done (record c { native = record c.native { polling = false } }, true)

unfoldable pub finish_terminal : TerminalKind → TaskCore → Outcome (TaskCore × Bool)
finish_terminal kind c =
    if not (is_live c.native.phase) || not c.native.polling
    then stop
    else let cancel = c.native.cancel_requested in
      done (
        record c {
          native = record c.native {
            polling = false;
            phase = terminal (if cancel then cancelled else kind);
          };
        },
        not cancel,
      )

unfoldable pub replace_terminal : TerminalKind → TaskCore → TaskCore
replace_terminal kind c =
    if is_terminal c.native.phase
    then record c { native = record c.native { phase = terminal kind } }
    else c

unfoldable pub suspend_failed : TaskCore → TaskCore
suspend_failed c =
    if is_live c.native.phase
    then record c { native = record c.native { phase = terminal runtime_error } }
    else c

-- `destroyed_ok` is the answer of `ffi::destroy`. On a failure the phase stays `destroying`.
unfoldable pub retire :
    Result (Unit {0}) NativeError → TaskCore → TaskCore × Result (Unit {0}) NativeError
retire destroyed_ok c =
    if not (is_terminal c.native.phase) then (c, err invalid_operation) else elim c.native.task [
      | none ↦ (record c { native = record c.native { phase = destroying } }, err invalid_operation)
      | some raw ↦ elim destroyed_ok [
        | ok _ ↦ (
          log destroy (record c { native = record c.native { phase = destroyed; task = none } }),
          ok tt,
        )
        | err e ↦ (
          log destroy (record c { native = record c.native { phase = destroying; task = none } }),
          err e,
        )
      ]
    ]

-- The gate that `spawn_on` leaves behind after its first submission.
abbrev pub spawned : RawTask → TaskCore
spawned raw = record {
  native = record {
    task = some raw;
    phase = live;
    wake_submitted = true;
    polling = false;
    cancel_requested = false;
  };
  calls = submit ∷ [];
}
