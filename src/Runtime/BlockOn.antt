-- ===== src/Runtime/BlockOn.antt =====
-- `Runtime::try_block_on` and the thread-local state of src/runtime.rs.
use nosv.Base.{
  ℕ, zero, suc, ◌+◌, ◌<◌, ◌≤◌, ◌≡◌, Bool, true, false, not, Option, none, some, arith,
  if◌then◌else◌, Bool-cases, ltb, inl, inr,
}
use nosv.Base.Result.{Result, ok, err}
use nosv.Error.{NativeError}
use nosv.Runtime.{RuntimeState, is_running, RuntimeClosed, runtime_closed}

pub data BlockOnError : Type 0 where
  wrong_thread forked_process closed_runtime already_in_task nested : BlockOnError
  native : NativeError → BlockOnError

-- The thread: `CURRENT`, a handle known by a number, `IN_BLOCK_ON`, and whether nOS-V has it attached.
pub record Thread : Type 0 where
  pub current : Option ℕ
  pub in_block_on : Bool
  pub attached : Bool

-- `Handle::try_current`
unfoldable pub try_current : Thread → Result ℕ RuntimeClosed
try_current t = elim t.current [ none ↦ err runtime_closed | some handle ↦ ok handle ]

-- `enter_current` with the guard that it gives, which holds what was current before; `leave_current` is
-- the guard's drop.
unfoldable pub enter_current : ℕ → Thread → Thread × Option ℕ
enter_current handle t = (record t { current = some handle }, t.current)

unfoldable pub leave_current : Option ℕ → Thread → Thread
leave_current previous t = record t { current = previous }

-- What one poll of the root future gives: `P` is the payload of a panic.
pub data Polled (T P : Type 0) : Type 0 where
  ready : T → Polled T P
  pending : Polled T P
  panics : P → Polled T P

-- How the loop ends, caught by `catch_unwind`.
pub data Driven (T P : Type 0) : Type 0 where
  output : T → Driven T P
  failed : NativeError → Driven T P
  payload : P → Driven T P

-- What the caller of `try_block_on` meets.
pub data Blocked (T P : Type 0) : Type 0 where
  returns : Result T BlockOnError → Blocked T P
  unwinds : P → Blocked T P

-- The answers of the outside; `poll` and `pause` are those of the n-th round.
pub record Answers (T P : Type 0) : Type 0 where
  pub on_owner_thread : Bool
  pub process_matches : Bool
  pub in_task : Bool
  pub attach : Result (Unit {0}) NativeError
  pub detach : Result (Unit {0}) NativeError
  pub poll : ℕ → Polled T P
  pub pause : ℕ → Result (Unit {0}) NativeError

module _ {T P : Type 0} (a : Answers T P) where
  -- The loop from the n-th round on; `none` means that the fuel ran out.
  unfoldable pub drive : ℕ → ℕ → Option (Driven T P)
  drive zero n = none
  drive (suc fuel) n = elim (a.poll n) [
    | ready value ↦ some (output value)
    | panics p ↦ some (payload p)
    | pending ↦ elim (a.pause n) [ err e ↦ some (failed e) | ok _ ↦ drive fuel (n + 1) ]
  ]

  -- The end of `try_block_on`, with the answer to the detaching.
  unfoldable pub finish : Driven T P → Blocked T P
  finish (output value) = elim a.detach [
    | ok _ ↦ returns (ok value)
    | err e ↦ returns (err (native e))
  ]
  finish (failed e) = returns (err (native e))
  finish (payload p) = unwinds p

  -- `Runtime::try_block_on` by the runtime of the handle `handle`.
  unfoldable pub try_block_on : ℕ → ℕ → RuntimeState → Thread → Option (Thread × Blocked T P)
  unfolding drive finish enter_current leave_current
  try_block_on fuel handle s t =
      if not a.on_owner_thread
      then some (t, returns (err wrong_thread))
      else if not a.process_matches
      then some (t, returns (err forked_process))
      else if not (is_running s.lifecycle)
      then some (t, returns (err closed_runtime))
      else if a.in_task
      then some (t, returns (err already_in_task))
      else if t.in_block_on
      then some (record t { in_block_on = true }, returns (err nested))
      else let entered : Thread = record t { in_block_on = true } in
        elim a.attach [
          | err e ↦ some (record entered { in_block_on = false }, returns (err (native e)))
          | ok _ ↦
              let (inside, previous) = enter_current handle (record entered { attached = true }) in
              elim (drive fuel 0) [
                | none ↦ none
                | some driven ↦
                    let left = leave_current previous inside in
                    some (
                      record left {
                        in_block_on = false;
                        attached = elim a.detach [ ok _ ↦ false | err _ ↦ left.attached ];
                      },
                      finish driven,
                    )
              ]
        ]

  -- The rounds before the n-th are pending, and their pauses end.
  abbrev pub Waits : ℕ → Type 0
  Waits n = (k : ℕ) → k < n → (a.poll k ≡ pending) × (a.pause k ≡ ok tt)

  -- What the n-th round ends the loop with.
  data Last (n : ℕ) : Driven T P → Type 0 where
    last_ready : {value : T} → a.poll n ≡ ready value → Last n (output value)
    last_panics : {p : P} → a.poll n ≡ panics p → Last n (payload p)
    last_failed : {e : NativeError} → a.poll n ≡ pending → a.pause n ≡ err e → Last n (failed e)

  -- How the call ends when the n-th round ends the loop: an error of the detaching is seen only with an
  -- output.
  pub data Gives (n : ℕ) : Blocked T P → Type 0 where
    gives_output :
        {value : T} → a.poll n ≡ ready value → a.detach ≡ ok tt → Gives n (returns (ok value))
    gives_detach_error :
        {value : T} {e : NativeError}
        → a.poll n ≡ ready value
        → a.detach ≡ err e
        → Gives n (returns (err (native e)))
    gives_pause_error :
        {e : NativeError}
        → a.poll n ≡ pending
        → a.pause n ≡ err e
        → Gives n (returns (err (native e)))
    gives_panic : {p : P} → a.poll n ≡ panics p → Gives n (unwinds p)

  drive-Last : (fuel n : ℕ) (d : Driven T P) → Last n d → drive (suc fuel) n ≡ some d
  unfolding drive
  drive-Last fuel n d (last_ready p) = ground (arith, p)
  drive-Last fuel n d (last_panics p) = ground (arith, p)
  drive-Last fuel n d (last_failed p q) = ground (arith, p, q)

  drive-Waits :
      (fuel i n : ℕ) (d : Driven T P)
      → i ≤ n
      → n < fuel + i
      → Waits n
      → Last n d
      → drive fuel i ≡ some d
  unfolding drive
  drive-Waits zero i n d le lt w l = absurd (omega arith)
  drive-Waits (suc fuel) i n d le lt w l = elim (Bool-cases (ltb i n)) [
    | inl before ↦
        let more = w i (ground arith) in
        let rest = drive-Waits fuel (i + 1) n d (ground arith) (omega arith) w l in
        ground (arith, more, rest)
    | inr here ↦ let e : i ≡ n = ground arith in rw e (drive-Last fuel n d l)
  ]

  -- What is left of the thread: the runtime that was current and the mark are as before, and the thread is
  -- attached only if it was, or if nOS-V refused to detach it.
  abbrev pub Restores : Thread → Option (Thread × Blocked T P) → Type 0
  Restores t none = Unit
  Restores t (some (t', r)) =
      (t'.current ≡ t.current)
      × (t'.in_block_on ≡ t.in_block_on)
      × (a.detach ≡ ok tt → t.attached ≡ false → t'.attached ≡ false)

  -- The call that blocks on a future leaves the thread as it found it, whichever check refuses it and however
  -- the future ends.
  pub try_block_on-Restores :
      (fuel handle : ℕ) (s : RuntimeState) (t : Thread) → Restores t (try_block_on fuel handle s t)
  unfolding try_block_on
  try_block_on-Restores fuel handle s t = ground arith

  try_block_on-finish :
      (fuel handle n : ℕ) (s : RuntimeState) (t : Thread) (d : Driven T P)
      → a.on_owner_thread ≡ true
      → a.process_matches ≡ true
      → is_running s.lifecycle ≡ true
      → a.in_task ≡ false
      → t.in_block_on ≡ false
      → a.attach ≡ ok tt
      → Waits n
      → Last n d
      → n < fuel
      → try_block_on fuel handle s t
        ≡ some (record t { attached = elim a.detach [ ok _ ↦ false | err _ ↦ true ] }, finish d)
  unfolding try_block_on
  try_block_on-finish fuel handle n s t d o p r i b at w l lt =
      let e = drive-Waits fuel 0 n d (omega arith) (omega arith) w l in ground (arith, e)

  -- When no check refuses the call and all rounds before the n-th wait, the call ends with what the n-th
  -- gives: the output or the error of the detaching, the error of its pause, or the panic, which goes on.
  -- The thread is left as it was but for a detaching that failed.
  pub try_block_on-Gives :
      (fuel handle n : ℕ) (s : RuntimeState) (t : Thread) (r : Blocked T P)
      → a.on_owner_thread ≡ true
      → a.process_matches ≡ true
      → is_running s.lifecycle ≡ true
      → a.in_task ≡ false
      → t.in_block_on ≡ false
      → a.attach ≡ ok tt
      → Waits n
      → Gives n r
      → n < fuel
      → try_block_on fuel handle s t
        ≡ some (record t { attached = elim a.detach [ ok _ ↦ false | err _ ↦ true ] }, r)
  unfolding finish
  try_block_on-Gives fuel handle n s t r o p i k b at w (gives_output {value} g d) lt = ground (
    arith,
    try_block_on-finish fuel handle n s t (output value) o p i k b at w (last_ready g) lt,
    d,
  )
  try_block_on-Gives fuel handle n s t r o p i k b at w (gives_detach_error {value} g d) lt =
      ground (
        arith,
        try_block_on-finish fuel handle n s t (output value) o p i k b at w (last_ready g) lt,
        d,
      )
  try_block_on-Gives fuel handle n s t r o p i k b at w (gives_pause_error {e} g q) lt =
      ground (
        arith,
        try_block_on-finish fuel handle n s t (failed e) o p i k b at w (last_failed g q) lt,
      )
  try_block_on-Gives fuel handle n s t r o p i k b at w (gives_panic {p = q} g) lt =
      ground
        (arith, try_block_on-finish fuel handle n s t (payload q) o p i k b at w (last_panics g) lt)
