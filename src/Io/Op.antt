-- ===== src/Io/Op.antt =====
-- `OwnedOp` of src/io.rs: the future of one operation and the record that the driver holds for it.
use nosv.Base.{
  ℕ, Bool, true, false, not, ◌&&◌, Option, none, some, List, [], ◌∷◌, ◌==◌, if◌then◌else◌,
}
use nosv.Base.Outcome.{Outcome, done, stop, ◌>>=◌}
use nosv.Io.{OpWork, Terminal, ended, runtime_closed_error}

abbrev pub Waker : Type 0
Waker = ℕ

pub data Poll {ℓ} (A : Type ℓ) : Type ℓ where
  pending : Poll A
  ready : A → Poll A

pub record OwnedControl : Type 0 where
  pub cancelled : Bool
  pub completed : Bool
  pub waker : Option Waker

-- `OwnedOp` with the `OwnedState` that it shares with its handler. `handler` is the work item while the
-- future has it, and `retained` the one in the record that the driver has.
pub record OwnedOp (W T : Type 0) : Type 0 where
  pub control : OwnedControl
  pub result : Option T
  pub handler : Option W
  pub retained : Option W
  pub queued : Bool
  pub done : Bool

-- `OwnedControl::publish`; the waiter is returned.
abbrev pub publish : OwnedControl → OwnedControl × Option Waker
publish c = (record c { completed = true; waker = none }, c.waker)

-- The waiter is replaced unless the old one wakes the same task.
abbrev pub keep_waker : Option Waker → Waker → Option Waker
keep_waker none w = some w
keep_waker (some old) w = if old == w then some old else some w

abbrev pub wake : Option Waker → List Waker
wake none = []
wake (some w) = w ∷ []

module _ {W T : Type 0} where
  -- `OwnedOp::new`
  unfoldable pub new : W → OwnedOp W T
  new work = record {
    control = record { cancelled = false; completed = false; waker = none };
    result = none;
    handler = some work;
    retained = none;
    queued = false;
    done = false;
  }

  -- `TypedHandler::complete` and `TypedHandler::fail`: the value is stored, and then published.
  unfoldable pub store : T → OwnedOp W T → OwnedOp W T × Option Waker
  store value op =
      (record op { result = some value; control = (publish op.control).0 }, (publish op.control).1)

  -- `<OwnedOp as Drop>::drop`; the Boolean says that the driver is told.
  unfoldable pub drop : OwnedOp W T → OwnedOp W T × Bool
  drop op =
      if op.queued && not op.done
      then (record op { control = record op.control { cancelled = true } }, true)
      else (op, false)

module _ {W T : Type 0} (work_of : OpWork W T) where
  -- The driver ends the operation that it holds and wakes the waiter; without one it does nothing.
  unfoldable pub terminal : Option Terminal → OwnedOp W T → OwnedOp W T × List Waker
  unfolding store
  terminal none op = (op, [])
  terminal (some t) op = elim op.retained [
    | none ↦ (op, [])
    | some work ↦
        let (op', waiter) = store (ended work_of work t) (record op { retained = none }) in
        (op', wake waiter)
  ]

  -- The first poll hands the work item to the driver, which `running` and `accepts` say that it takes.
  -- A handler that is not there stops the process (`expect`).
  unfoldable pub first_poll : Bool → Bool → OwnedOp W T → Outcome (OwnedOp W T × List Waker)
  unfolding store
  first_poll running accepts op = if op.queued then done (op, []) else elim op.handler [
    | none ↦ stop
    | some work ↦
        let taken : OwnedOp W T = record op { handler = none } in
        if running && accepts
        then done (record taken { queued = true; retained = some work }, [])
        else let (op', waiter) = store (work_of.fail work runtime_closed_error) taken in
          done (op', wake waiter)
  ]

  -- The output is taken once; a published result that is missing stops the process (`expect`).
  unfoldable pub take_result : OwnedOp W T → Outcome (OwnedOp W T × Poll T)
  take_result op = elim op.result [
    | none ↦ stop
    | some value ↦ done (record op { done = true; result = none }, ready value)
  ]

  abbrev pub register_waker : Waker → OwnedOp W T → OwnedOp W T
  register_waker w op = record op {
    control = record op.control { waker = keep_waker op.control.waker w };
  }

  -- `<OwnedOp as Future>::poll` by the task `w`. The driver runs on another thread: it may end the
  -- operation before the first look at `completed`, before the waiter is registered, and before the
  -- second look, as `first`, `second` and `third` say. The list is of the tasks that were woken.
  unfoldable pub poll :
      Bool
      → Bool
      → Option Terminal
      → Option Terminal
      → Option Terminal
      → Waker
      → OwnedOp W T
      → Outcome (OwnedOp W T × Poll T)
  unfolding first_poll terminal take_result
  poll running accepts first second third w op =
      if op.done
      then stop
      else first_poll running accepts op >>= λ (op1, _).
          let op2 = (terminal first op1).0 in
          if op2.control.completed
          then take_result op2
          else let op3 = (terminal third (register_waker w (terminal second op2).0)).0 in
            if op3.control.completed then take_result op3 else done (op3, pending)
