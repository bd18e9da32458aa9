-- ===== src/Runtime.antt =====
-- src/runtime.rs, with the features `time` and `io-uring`: what the runtime holds of the outside, and the
-- state that handles check. `Build` makes a runtime, `Shutdown` ends it, `BlockOn` drives the root
-- future and `Parker` wakes it.
pub mod Build
pub mod Shutdown
pub mod Parker
pub mod BlockOn
mod Tests
use nosv.Base.{
  ℕ, ◌≡◌, Bool, true, false, not, ◌||◌, ◌&&◌, Option, none, some, List, [], ◌∷◌, ◌++◌, is_empty,
  if◌then◌else◌,
}
use nosv.Base.Result.{Result, ok, err}
use nosv.Base.Dict.{Dict, erase}
use nosv.Error.{NativeError, not_initialized}

-- What a runtime has to give back: the library, the three task types and the two drivers.
pub data Resource : Type 0 where
  library task_type io_uring_type io_uring timer_type timer : Resource

abbrev pub is_same : Resource → Resource → Bool
is_same library library = true
is_same task_type task_type = true
is_same io_uring_type io_uring_type = true
is_same io_uring io_uring = true
is_same timer_type timer_type = true
is_same timer timer = true
is_same _ _ = false

-- A driver rests on its task type, and a task type on the library.
abbrev pub rests_on : Resource → Resource → Bool
rests_on io_uring io_uring_type = true
rests_on timer timer_type = true
rests_on task_type library = true
rests_on io_uring_type library = true
rests_on timer_type library = true
rests_on _ _ = false

abbrev pub holds : Resource → List Resource → Bool
holds r [] = false
holds r (x ∷ held) = is_same r x || holds r held

abbrev pub is_used : Resource → List Resource → Bool
is_used r [] = false
is_used r (x ∷ held) = rests_on x r || is_used r held

abbrev pub remove : Resource → List Resource → List Resource
remove r [] = []
remove r (x ∷ held) = if is_same r x then held else x ∷ remove r held

-- What is left after a release. Only what is held, and what nothing held rests on, may be released; else
-- there is a use of what is gone.
abbrev pub released : Resource → Option (List Resource) → Option (List Resource)
released r none = none
released r (some held) = if holds r held && not (is_used r held) then some (remove r held) else none

-- `refused`: a release that nOS-V answers with an error, after which the resource is still there.
pub data Attempt : Type 0 where
  acquired given_back refused : Resource → Attempt

-- What was acquired, newest first, and what a release was tried of, in order.
abbrev pub acquisitions : List Attempt → List Resource → List Resource
acquisitions [] rs = rs
acquisitions (acquired r ∷ calls) rs = acquisitions calls (r ∷ rs)
acquisitions (given_back _ ∷ calls) rs = acquisitions calls rs
acquisitions (refused _ ∷ calls) rs = acquisitions calls rs

abbrev pub releases : List Attempt → List Resource
releases [] = []
releases (acquired _ ∷ calls) = releases calls
releases (given_back r ∷ calls) = r ∷ releases calls
releases (refused r ∷ calls) = r ∷ releases calls

-- What is still there after some calls.
abbrev pub left_after : List Attempt → List Resource → List Resource
left_after [] held = held
left_after (acquired r ∷ calls) held = left_after calls (r ∷ held)
left_after (given_back r ∷ calls) held = left_after calls (remove r held)
left_after (refused _ ∷ calls) held = left_after calls held

pub data Lifecycle : Type 0 where
  running closing closed : Lifecycle

abbrev pub is_running : Lifecycle → Bool
is_running running = true
is_running _ = false

-- `RuntimeState`; a task is known by its identifier.
pub record RuntimeState : Type 0 where
  pub lifecycle : Lifecycle
  pub tasks : Dict (Unit {0})

pub data RuntimeClosed : Type 0 where
  runtime_closed : RuntimeClosed

-- `RuntimeCore::ensure_running`; `process_matches` says whether this is the process of the runtime.
unfoldable pub ensure_running : Bool → RuntimeState → Result (Unit {0}) RuntimeClosed
ensure_running process_matches s =
    if not process_matches || not (is_running s.lifecycle) then err runtime_closed else ok tt

-- `RuntimeCore::task_completed`; the Boolean says that the waiters for the drain are notified.
unfoldable pub task_completed : ℕ → RuntimeState → RuntimeState × Bool
task_completed id s = let rest = erase id s.tasks in (record s { tasks = rest }, is_empty rest)

-- `Handle::memory_stats`, with the answer of the query.
unfoldable pub memory_stats :
    {M : Type 0} → Bool → RuntimeState → Result M NativeError → Result M NativeError
memory_stats process_matches s query =
    if not process_matches
    then err not_initialized
    else if not (is_running s.lifecycle)
    then err not_initialized
    else query
