-- ===== src/Runtime/Build.antt =====
-- `RuntimeBuilder::build` of src/runtime.rs, with the native calls that it makes.
use nosv.Base.{ℕ, ◌≡◌, Bool, ◌||◌, List, [], ◌∷◌, ◌++◌, if◌then◌else◌, arith}
use nosv.Base.Result.{Result, ok, err}
use nosv.Error.{NativeError}
use nosv.IoUring.Config.{InvalidIoUringConfig}
use nosv.Runtime.{
  Resource, library, task_type, io_uring_type, io_uring, timer_type, timer, Attempt, acquired,
  given_back, refused, is_same, acquisitions, releases, left_after,
}

-- `io_uring_error` has the number of the error of the system.
pub data InitError : Type 0 where
  already_in_task : InitError
  invalid_io_uring_config : InvalidIoUringConfig → InitError
  io_uring_error : ℕ → InitError
  native : NativeError → InitError

-- The answers of the outside to each call, made or not. `accepts` says of a resource whether a call of a
-- rollback that gives it back succeeds.
pub record Answers : Type 0 where
  pub in_task : Bool
  pub prepared : Result (Unit {0}) InitError
  pub inited : Result (Unit {0}) NativeError
  pub task_typed : Result (Unit {0}) NativeError
  pub io_uring_typed : Result (Unit {0}) NativeError
  pub io_uring_started : Result (Unit {0}) NativeError
  pub timer_typed : Result (Unit {0}) NativeError
  pub timer_started : Result (Unit {0}) NativeError
  pub accepts : Resource → Bool

-- Whether there is a runtime, and what was acquired and given back, in order.
abbrev pub Built : Type 0
Built = Result (Unit {0}) InitError × List Attempt

-- `let _ = ffi::type_destroy(..)` and `let _ = ffi::shutdown()`: the answer is not looked at.
abbrev pub release : Answers → Resource → Attempt
release a r = if a.accepts r then given_back r else refused r

unfoldable pub start_timer : Answers → List Attempt → Built
start_timer a calls = elim a.timer_started [
  | ok _ ↦ (ok tt, calls ++ acquired timer ∷ [])
  | err e ↦ (
    err (native e),
    calls
        ++ (release a timer_type
            ∷ given_back io_uring
            ∷ release a io_uring_type
            ∷ release a task_type
            ∷ release a library
            ∷ []),
  )
]

unfoldable pub make_timer : Answers → List Attempt → Built
unfolding start_timer
make_timer a calls = elim a.timer_typed [
  | ok _ ↦ start_timer a (calls ++ acquired timer_type ∷ [])
  | err e ↦ (
    err (native e),
    calls
        ++ (given_back io_uring
            ∷ release a io_uring_type
            ∷ release a task_type
            ∷ release a library
            ∷ []),
  )
]

unfoldable pub make_io_uring : Answers → List Attempt → Built
unfolding make_timer
make_io_uring a calls = elim a.io_uring_typed [
  | err e ↦ (err (native e), calls ++ (release a task_type ∷ release a library ∷ []))
  | ok _ ↦ elim a.io_uring_started [
    | ok _ ↦ make_timer a (calls ++ (acquired io_uring_type ∷ acquired io_uring ∷ []))
    | err e ↦ (
      err (native e),
      calls
          ++ (acquired io_uring_type
              ∷ release a io_uring_type
              ∷ release a task_type
              ∷ release a library
              ∷ []),
    )
  ]
]

-- `RuntimeBuilder::build`
unfoldable pub build : Answers → Built
unfolding make_io_uring
build a = if a.in_task then (err already_in_task, []) else elim a.prepared [
  | err e ↦ (err e, [])
  | ok _ ↦ elim a.inited [
    | err e ↦ (err (native e), [])
    | ok _ ↦ elim a.task_typed [
      | err e ↦ (err (native e), acquired library ∷ release a library ∷ [])
      | ok _ ↦ make_io_uring a (acquired library ∷ acquired task_type ∷ [])
    ]
  ]
]

-- What a runtime holds.
abbrev pub whole : List Resource
whole = timer ∷ timer_type ∷ io_uring ∷ io_uring_type ∷ task_type ∷ library ∷ []

-- Of these resources, those that cannot be given back. A driver always is, by `shutdown_and_wait`.
abbrev pub leaks : Answers → List Resource → List Resource
leaks a [] = []
leaks a (r ∷ rs) = if is_same r io_uring || a.accepts r then leaks a rs else r ∷ leaks a rs

abbrev pub Balanced : Answers → Built → Type 0
Balanced a (ok _, calls) = left_after calls [] ≡ whole
Balanced a (err _, calls) =
    (releases calls ≡ acquisitions calls [])
    × (left_after calls [] ≡ leaks a (acquisitions calls []))

-- Wherever the building of a runtime fails, everything that was acquired is given back, each thing once
-- and in the reverse order, and what is left is exactly that which nOS-V refused to take back; a runtime
-- that is built holds the library, the types and the drivers.
pub build-Balanced : (a : Answers) → Balanced a (build a)
unfolding build
build-Balanced a = ground arith
