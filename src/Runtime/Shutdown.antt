-- ===== src/Runtime/Shutdown.antt =====
-- `Runtime::shutdown`, `shutdown_inner` and `Drop` of src/runtime.rs.
use nosv.Base.{
  ℕ, ◌≡◌, refl, Bool, true, false, not, Option, none, some, List, [], ◌∷◌, is_empty, if◌then◌else◌,
  arith, ap, ap,
}
use nosv.Base.Result.{Result, ok, err}
use nosv.Base.Dict.{Dict}
use nosv.Error.{NativeError}
use nosv.Runtime.{
  Resource, library, task_type, io_uring_type, io_uring, timer_type, timer, released, running,
  closing, closed, RuntimeState, task_completed,
}
use nosv.Runtime.Build.{whole}

pub data ShutdownError : Type 0 where
  wrong_thread forked_process : ShutdownError
  native : NativeError → ShutdownError

-- `held` is what the runtime holds, or `none` once something was released that it does not hold. The
-- drivers say whether they have ended, and `aborted` which tasks were asked to end, newest request first.
pub record Runtime : Type 0 where
  pub state : RuntimeState
  pub held : Option (List Resource)
  pub io_uring_ended : Bool
  pub timer_ended : Bool
  pub active : Bool
  pub aborted : List ℕ

-- What a call meets: the thread and the process, the tasks that complete while it waits, and the answers of
-- nOS-V to the destructions.
pub record Answers : Type 0 where
  pub on_owner_thread : Bool
  pub process_matches : Bool
  pub completions : List ℕ
  pub io_uring_type : Result (Unit {0}) NativeError
  pub timer_type : Result (Unit {0}) NativeError
  pub task_type : Result (Unit {0}) NativeError
  pub library : Result (Unit {0}) NativeError

abbrev pub give_back : Resource → Runtime → Runtime
give_back r rt = record rt { held = released r rt.held }

-- `shutdown_and_wait` of a driver: the first call ends it, and a later one finds it ended.
abbrev pub end_io_uring : Runtime → Runtime
end_io_uring rt =
    if rt.io_uring_ended then rt else record (give_back io_uring rt) { io_uring_ended = true }

abbrev pub end_timer : Runtime → Runtime
end_timer rt = if rt.timer_ended then rt else record (give_back timer rt) { timer_ended = true }

-- The tasks that end while the call waits for the drain.
unfoldable pub complete_all : List ℕ → RuntimeState → RuntimeState
unfolding task_completed
complete_all [] s = s
complete_all (id ∷ ids) s = complete_all ids (task_completed id s).0

abbrev pub abort_all : Dict (Unit {0}) → List ℕ → List ℕ
abort_all [] aborted = aborted
abort_all ((id, _) ∷ tasks) aborted = abort_all tasks (id ∷ aborted)

-- The destructions, each of which ends the call if it fails.
unfoldable pub destroy_all : Answers → Runtime → Runtime × Result (Unit {0}) ShutdownError
destroy_all a rt =
    let rt1 = end_io_uring rt in
    elim a.io_uring_type [
      | err e ↦ (rt1, err (native e))
      | ok _ ↦
          let rt2 = end_timer (give_back io_uring_type rt1) in
          elim a.timer_type [
            | err e ↦ (rt2, err (native e))
            | ok _ ↦
                let rt3 = give_back timer_type rt2 in
                elim a.task_type [
                  | err e ↦ (rt3, err (native e))
                  | ok _ ↦
                      let rt4 = give_back task_type rt3 in
                      elim a.library [
                        | err e ↦ (rt4, err (native e))
                        | ok _ ↦ (
                          record (give_back library rt4) {
                            state = record rt4.state { lifecycle = closed };
                          },
                          ok tt,
                        )
                      ]
                ]
          ]
    ]

-- The part of `shutdown_inner` after the runtime is closing; `none`: it waits for a task that does not end.
unfoldable pub close_down : Answers → Runtime → Option (Runtime × Result (Unit {0}) ShutdownError)
unfolding destroy_all complete_all
close_down a rt =
    let drained : RuntimeState =
      complete_all a.completions (record rt.state { lifecycle = closing }) in
    if is_empty drained.tasks
    then some (
        destroy_all a
          (record rt { state = drained; aborted = abort_all rt.state.tasks rt.aborted }))
    else none

-- `Runtime::shutdown_inner`
unfoldable pub shutdown_inner :
    Answers → Runtime → Option (Runtime × Result (Unit {0}) ShutdownError)
unfolding close_down
shutdown_inner a rt =
    if not a.on_owner_thread
    then some (rt, err wrong_thread)
    else if not a.process_matches
    then some (rt, err forked_process)
    else elim rt.state.lifecycle [
      | closed ↦ some (rt, ok tt)
      | running ↦ close_down a rt
      | closing ↦ close_down a rt
    ]

-- `<Runtime as Drop>::drop`
unfoldable pub drop : Answers → Runtime → Option Runtime
unfolding shutdown_inner
drop a rt =
    if rt.active
    then elim (shutdown_inner a rt) [
      | none ↦ none
      | some (rt', ok _) ↦ some (record rt' { active = false })
      | some (rt', err _) ↦ some rt'
    ]
    else some rt

-- `Runtime::shutdown`, which takes the runtime, so that it is dropped at the end; that meets `later`.
unfoldable pub shutdown :
    Answers → Answers → Runtime → Option (Runtime × Result (Unit {0}) ShutdownError)
unfolding shutdown_inner drop
shutdown a later rt = elim (shutdown_inner a rt) [
  | none ↦ none
  | some (rt', ok _) ↦ elim (drop later (record rt' { active = false })) [
    | none ↦ none
    | some rt'' ↦ some (rt'', ok tt)
  ]
  | some (rt', err e) ↦ elim (drop later rt') [ none ↦ none | some rt'' ↦ some (rt'', err e) ]
]

-- A runtime as `build` makes it, and as tasks and handles use it.
pub record IsOpen (rt : Runtime) : Type 0 where
  pub is_whole : rt.held ≡ some whole
  pub io_uring_runs : rt.io_uring_ended ≡ false
  pub timer_runs : rt.timer_ended ≡ false
  pub is_running : rt.state.lifecycle ≡ running

-- Which destruction ends a call with an error, and what is still held then: the answers before it are
-- successes.
pub data Failed (a : Answers) (e : NativeError) : List Resource → Type 0 where
  at_io_uring_type :
      a.io_uring_type ≡ err e
      → Failed a e (timer ∷ timer_type ∷ io_uring_type ∷ task_type ∷ library ∷ [])
  at_timer_type :
      a.io_uring_type ≡ ok tt
      → a.timer_type ≡ err e
      → Failed a e (timer_type ∷ task_type ∷ library ∷ [])
  at_task_type :
      a.io_uring_type ≡ ok tt
      → a.timer_type ≡ ok tt
      → a.task_type ≡ err e
      → Failed a e (task_type ∷ library ∷ [])
  at_library :
      a.io_uring_type ≡ ok tt
      → a.timer_type ≡ ok tt
      → a.task_type ≡ ok tt
      → a.library ≡ err e
      → Failed a e (library ∷ [])

abbrev pub AllDestroyed : Answers → Type 0
AllDestroyed a =
    (a.io_uring_type ≡ ok tt) × (a.timer_type ≡ ok tt) × (a.task_type ≡ ok tt) × (a.library ≡ ok tt)

-- How a call ends: every destruction succeeded and every resource is given back, or an error says why not.
-- After the error of a destruction the runtime is closing and holds what was not destroyed.
abbrev pub ShutDown : Answers → Runtime → Runtime × Result (Unit {0}) ShutdownError → Type 0
ShutDown a rt (rt', ok _) =
    AllDestroyed a
    × (rt'.held ≡ some [])
    × (rt'.state.lifecycle ≡ closed)
    × (is_empty rt'.state.tasks ≡ true)
    × (rt'.aborted ≡ abort_all rt.state.tasks rt.aborted)
ShutDown a rt (rt', err (native e)) =
    ((held : List Resource) × (rt'.held ≡ some held) × Failed a e held)
    × (rt'.state.lifecycle ≡ closing)
    × (is_empty rt'.state.tasks ≡ true)
    × (rt'.aborted ≡ abort_all rt.state.tasks rt.aborted)
ShutDown a rt (rt', err wrong_thread) = (rt' ≡ rt) × (a.on_owner_thread ≡ false)
ShutDown a rt (rt', err forked_process) =
    (rt' ≡ rt) × (a.on_owner_thread ≡ true) × (a.process_matches ≡ false)

-- A call that does not end waits for a task that does not.
abbrev pub Ends : Answers → Runtime → Option (Runtime × Result (Unit {0}) ShutdownError) → Type 0
Ends a rt none =
    is_empty (complete_all a.completions (record rt.state { lifecycle = closing })).tasks ≡ false
Ends a rt (some x) = ShutDown a rt x

complete_all_lifecycle :
    (ids : List ℕ) (s : RuntimeState) → (complete_all ids s).lifecycle ≡ s.lifecycle
unfolding complete_all
complete_all_lifecycle [] s = refl
complete_all_lifecycle (id ∷ ids) s = complete_all_lifecycle ids (task_completed id s).0

module _ (a : Answers) (rt rt0 : Runtime) (h : rt0.held ≡ some whole)
    (i : rt0.io_uring_ended ≡ false) (t : rt0.timer_ended ≡ false)
    (l : rt0.state.lifecycle ≡ closing) (e : is_empty rt0.state.tasks ≡ true)
    (ab : rt0.aborted ≡ abort_all rt.state.tasks rt.aborted) where
  destroy_by :
      (q1 q2 q3 q4 : Result (Unit {0}) NativeError)
      → a.io_uring_type ≡ q1
      → a.timer_type ≡ q2
      → a.task_type ≡ q3
      → a.library ≡ q4
      → ShutDown a rt (destroy_all a rt0)
  unfolding destroy_all
  destroy_by (err x) q2 q3 q4 e1 e2 e3 e4 =
      let h1 = ap (released io_uring) h in
      rw (e1, ShutDown, destroy_all)
        ((_, ground (arith, h1), at_io_uring_type e1), ground arith, ground arith, ground arith)
  destroy_by (ok _) (err x) q3 q4 e1 e2 e3 e4 =
      let h1 = ap (released io_uring) h in
      let h2 = ap (released io_uring_type) h1 in
      let h3 = ap (released timer) h2 in
      rw (e1, e2, ShutDown, destroy_all)
        (
          (_, ground (arith, h1, h2, h3), at_timer_type e1 e2),
          ground arith,
          ground arith,
          ground arith,
        )
  destroy_by (ok _) (ok _) (err x) q4 e1 e2 e3 e4 =
      let h1 = ap (released io_uring) h in
      let h2 = ap (released io_uring_type) h1 in
      let h3 = ap (released timer) h2 in
      let h4 = ap (released timer_type) h3 in
      rw (e1, e2, e3, ShutDown, destroy_all)
        (
          (_, ground (arith, h1, h2, h3, h4), at_task_type e1 e2 e3),
          ground arith,
          ground arith,
          ground arith,
        )
  destroy_by (ok _) (ok _) (ok _) (err x) e1 e2 e3 e4 =
      let h1 = ap (released io_uring) h in
      let h2 = ap (released io_uring_type) h1 in
      let h3 = ap (released timer) h2 in
      let h4 = ap (released timer_type) h3 in
      let h5 = ap (released task_type) h4 in
      rw (e1, e2, e3, e4, ShutDown, destroy_all)
        (
          (_, ground (arith, h1, h2, h3, h4, h5), at_library e1 e2 e3 e4),
          ground arith,
          ground arith,
          ground arith,
        )
  destroy_by (ok _) (ok _) (ok _) (ok _) e1 e2 e3 e4 =
      let h1 = ap (released io_uring) h in
      let h2 = ap (released io_uring_type) h1 in
      let h3 = ap (released timer) h2 in
      let h4 = ap (released timer_type) h3 in
      let h5 = ap (released task_type) h4 in
      let h6 = ap (released library) h5 in ground (arith, h1, h2, h3, h4, h5, h6)

  destroy_all-ShutDown : ShutDown a rt (destroy_all a rt0)
  destroy_all-ShutDown =
      destroy_by a.io_uring_type a.timer_type a.task_type a.library refl refl refl refl

-- A shutdown of an open runtime. By the wrong thread or in a forked process it changes nothing. Else it
-- ends unless a task is left that does not complete, and when it ends, every task has been aborted and
-- has completed. Either every destruction succeeded and every resource has been given back, once and not
-- before what rests on it, and the runtime is closed; or the error is that of the first destruction that
-- failed, what comes before it has been given back, the rest is held, and the runtime is closing.
pub shutdown_inner-ShutDown :
    (a : Answers) (rt : Runtime) → IsOpen rt → Ends a rt (shutdown_inner a rt)
unfolding shutdown_inner
shutdown_inner-ShutDown a rt o =
    let s : RuntimeState = record rt.state { lifecycle = closing } in
    let drained = complete_all a.completions s in
    ground (
      arith,
      o.is_running,
      destroy_all-ShutDown a rt
          (record rt { state = drained; aborted = abort_all rt.state.tasks rt.aborted }) o.is_whole
          o.io_uring_runs o.timer_runs (complete_all_lifecycle a.completions s),
    )

-- A shutdown whose destruction of the timer type fails is repeated when the runtime is dropped, and the
-- repetition destroys the task type of the ring driver once more, which has been destroyed: what the
-- runtime holds is then undefined.
pub failed_shutdown-repeats :
    (a later : Answers) (rt : Runtime) (e : NativeError)
    → IsOpen rt
    → rt.active ≡ true
    → rt.state.tasks ≡ []
    → a.on_owner_thread ≡ true
    → a.process_matches ≡ true
    → a.completions ≡ []
    → a.io_uring_type ≡ ok tt
    → a.timer_type ≡ err e
    → later.on_owner_thread ≡ true
    → later.process_matches ≡ true
    → later.completions ≡ []
    → later.io_uring_type ≡ ok tt
    → (rt' : Runtime) → shutdown a later rt ≡ some (rt', err (native e))
    → rt'.held ≡ none
unfolding shutdown
failed_shutdown-repeats a later rt e o act empty t1 p1 c1 i1 m1 t2 p2 c2 i2 rt' ended =
    ground (arith, o.is_running, o.is_whole, o.io_uring_runs, o.timer_runs)
