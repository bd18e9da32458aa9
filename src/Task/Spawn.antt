-- ===== src/Task/Spawn.antt =====
-- `spawn_on` of src/task.rs, with its rollback. The lock of the runtime state is held throughout, so
-- that nothing of the runtime comes in between.
use nosv.Base.{
  ℕ, ◌+◌, ◌≤◌, ◌<◌, ◌-◌, ◌^◌, ◌≡◌, refl, sym, subst, Bool, not, none, some, List, [], ◌∷◌, ◌==◌,
  arith, if◌then◌else◌,
}
use nosv.Base.Outcome.{Outcome, done, stop, Returns, ◌>>=◌}
use nosv.Base.Result.{Result, ok, err}
use nosv.Base.Dict.{
  Dict, lookup, insert, erase, IsMap, lookup-insert, lookup-erase, insert-IsMap, erase-IsMap,
}
use nosv.Error.{NativeError}
use nosv.Task.Gate.{RawTask, TaskCore, destroyed, submit, destroy, log, spawned}

pub data SpawnError : Type 0 where
  runtime_closed forked_process : SpawnError
  native : NativeError → SpawnError

-- What `spawn_on` reads and changes of the runtime.
pub record Registry : Type 0 where
  pub running : Bool
  pub next_task_id : ℕ
  pub tasks : Dict TaskCore

-- What the outside answers: whether the process is that of the runtime, the raw affinity if one is
-- configured, and nOS-V to each of its calls.
pub record Answers : Type 0 where
  pub process_matches : Bool
  pub affinity : Result (Unit {0}) NativeError
  pub create : Result RawTask NativeError
  pub metadata : Result (Unit {0}) NativeError
  pub submitted : Result (Unit {0}) NativeError
  pub destroyed : Result (Unit {0}) NativeError

abbrev pub u64_max : ℕ
u64_max = 2 ^ 64 - 1

-- `RuntimeCore::next_task_id`
unfoldable pub next_task_id : Registry → Outcome (ℕ × Registry)
next_task_id r =
    if r.next_task_id == u64_max
    then stop
    else done (r.next_task_id, record r { next_task_id = r.next_task_id + 1 })

-- The gate before the first submission, and the one that is left after it failed.
abbrev pub prepared : RawTask → TaskCore
prepared raw = record (spawned raw) { calls = [] }

-- A call that makes a descriptor or gives one back, with what nOS-V answers to that.
pub data DescriptorCall : Type 0 where
  creates : RawTask → DescriptorCall
  destroys : RawTask → Result (Unit {0}) NativeError → DescriptorCall

-- What a spawn gives: its result, the descriptor calls that it made, in order, and the registry.
abbrev pub Spawned : Type 0
Spawned = Result ℕ SpawnError × List DescriptorCall × Registry

-- The gate gives up its descriptor, which is destroyed; the answer to that is not looked at.
unfoldable pub rolled_back :
    Result (Unit {0}) NativeError → TaskCore → Outcome (TaskCore × List DescriptorCall)
rolled_back answer c = elim c.native.task [
  | none ↦ stop
  | some raw ↦ done (
    log destroy (record c { native = record c.native { task = none; phase = destroyed } }),
    destroys raw answer ∷ [],
  )
]

-- The part after the descriptor is there and has its metadata.
unfoldable pub submit_new : Answers → ℕ → RawTask → Registry → Outcome Spawned
unfolding rolled_back
submit_new out id raw r =
    let core : TaskCore = log submit (prepared raw) in
    let tasks : Dict TaskCore = insert id core r.tasks in
    elim out.submitted [
      | ok _ ↦ done (ok id, creates raw ∷ [], record r { tasks = tasks })
      | err error ↦ rolled_back out.destroyed core >>= λ (_, undone).
          done (err (native error), creates raw ∷ undone, record r { tasks = erase id tasks })
    ]

-- A descriptor without metadata is destroyed; here, too, the answer is not looked at.
unfoldable pub create_new : Answers → ℕ → Registry → Outcome Spawned
unfolding submit_new
create_new out id r = elim out.create [
  | err error ↦ done (err (native error), [], r)
  | ok raw ↦ elim out.metadata [
    | err error ↦ done (err (native error), creates raw ∷ destroys raw out.destroyed ∷ [], r)
    | ok _ ↦ submit_new out id raw r
  ]
]

unfoldable pub spawn_on : Answers → Registry → Outcome Spawned
spawn_on out r =
    if not out.process_matches then done (err forked_process, [], r) else elim out.affinity [
      | err error ↦ done (err (native error), [], r)
      | ok _ ↦
          if not r.running
          then done (err runtime_closed, [], r)
          else next_task_id r >>= λ (id, r'). create_new out id r'
    ]

-- The descriptor calls of a spawn that fails.
pub data Undone (out : Answers) : List DescriptorCall → Type 0 where
  none_made : Undone out []
  made :
      {raw : RawTask}
      → out.create ≡ ok raw
      → Undone out (creates raw ∷ destroys raw out.destroyed ∷ [])

-- What a spawn may leave behind: on an error, a descriptor that was made has been destroyed, and the
-- registry is as it was; otherwise one live descriptor has been made and submitted once, under an
-- identifier that was free.
abbrev pub IsSpawned : Answers → Dict TaskCore → Spawned → Type 0
IsSpawned out tasks (err error, calls, r') =
    Undone out calls × ((id : ℕ) → lookup id r'.tasks ≡ lookup id tasks)
IsSpawned out tasks (ok id, calls, r') =
    (lookup id tasks ≡ none)
    × ((t : RawTask) × (out.create ≡ ok t)
        × (calls ≡ creates t ∷ [])
        × ((j : ℕ) → lookup j r'.tasks ≡ (if id == j then some (spawned t) else lookup j tasks)))

-- A registry in order.
pub record IsValid (r : Registry) : Type 0 where
  pub is_map : IsMap r.tasks
  pub numbered : (id : ℕ) → r.next_task_id ≤ id → lookup id r.tasks ≡ none

abbrev InOrder : Answers → Registry → Spawned → Type 0
InOrder out r (result, calls, r') = IsSpawned out r.tasks (result, calls, r') × IsValid r'

module _ (id : ℕ) (r : Registry) (m : IsMap r.tasks)
    (unused : (j : ℕ) → id ≤ j → lookup j r.tasks ≡ none) (given : r.next_task_id ≡ id + 1) where
  abbrev registered : RawTask → Dict TaskCore
  registered raw = insert id (spawned raw) r.tasks

  registered-IsMap : (raw : RawTask) → IsMap (registered raw)
  registered-IsMap raw = insert-IsMap id (spawned raw) r.tasks m

  registered-lookup :
      (raw : RawTask) (j : ℕ)
      → lookup j (registered raw) ≡ (if id == j then some (spawned raw) else lookup j r.tasks)
  registered-lookup raw j = lookup-insert id j (spawned raw) r.tasks

  removed-lookup : (raw : RawTask) (j : ℕ) → lookup j (erase id (registered raw)) ≡ lookup j r.tasks
  removed-lookup raw j = ground (
    arith,
    lookup-erase id j (registered raw) (registered-IsMap raw),
    registered-lookup raw j,
    unused j,
  )

  submitted-InOrder :
      (out : Answers) (raw : RawTask) (q : Result (Unit {0}) NativeError)
      → out.create ≡ ok raw
      → out.submitted ≡ q
      → Returns (submit_new out id raw r) (InOrder out r)
  unfolding submit_new
  submitted-InOrder out raw (ok _) e f =
      rw (f, Returns, submit_new)
        (
          (unused id (omega arith), (raw, e, refl, registered-lookup raw)),
          record {
            is_map = registered-IsMap raw;
            numbered = λ j h. ground (arith, registered-lookup raw j, unused j, given);
          },
        )
  submitted-InOrder out raw (err error) e f =
      rw (f, Returns, submit_new)
        (
          (made e, removed-lookup raw),
          record {
            is_map = erase-IsMap id (registered raw) (registered-IsMap raw);
            numbered = λ j h. ground (arith, removed-lookup raw j, unused j, given);
          },
        )

  as_before : IsValid r
  as_before = record { is_map = m; numbered = λ j h. unused j (omega (arith, given)) }

  created-InOrder :
      (out : Answers) (q : Result RawTask NativeError) (p : Result (Unit {0}) NativeError)
      → out.create ≡ q
      → out.metadata ≡ p
      → Returns (create_new out id r) (InOrder out r)
  unfolding create_new
  created-InOrder out (err error) p e f =
      rw (e, Returns, create_new) ((none_made, λ j. refl), as_before)
  created-InOrder out (ok raw) (err error) e f =
      let ends : create_new out id r
          ≡ done (err (native error), creates raw ∷ destroys raw out.destroyed ∷ [], r) =
        ground (arith, e, f) in
      subst (λ m. Returns m (InOrder out r)) (sym ends) ((made e, λ j. refl), as_before)
  created-InOrder out (ok raw) (ok _) e f =
      let goes_on : create_new out id r ≡ submit_new out id raw r = ground (arith, e, f) in
      subst (λ m. Returns m (InOrder out r)) (sym goes_on)
        (submitted-InOrder out raw out.submitted e refl)

-- While identifiers remain, a spawn does not stop the process. Whatever fails in it, a descriptor that it
-- made is destroyed by one call, whose answer it does not look at, and the registry holds what it held;
-- if it succeeds, it has made one descriptor, and the registry has gained its live task that was
-- submitted once, under an identifier that no task had. The registry is in order again.
pub spawn_on-IsSpawned :
    (out : Answers) (r : Registry)
    → IsValid r
    → r.next_task_id < u64_max
    → Returns
        (spawn_on out r)
        (λ (result, calls, r'). IsSpawned out r.tasks (result, calls, r') × IsValid r')
unfolding spawn_on next_task_id
spawn_on-IsSpawned out r v h =
    let next : Registry = record r { next_task_id = r.next_task_id + 1 } in
    let rest =
      created-InOrder r.next_task_id next v.is_map v.numbered refl out out.create out.metadata refl
        refl in
    let nothing : Undone out [] = none_made in ground (arith, v, rest, nothing)
