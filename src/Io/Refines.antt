-- ===== src/Io/Refines.antt =====
-- `OwnedOp` implements an operation that is started once, ends once, and gives its result once.
use nosv.Base.{◌≡◌, Bool, true, false, not, ◌&&◌, Option, none, some, [], ◌∷◌, arith}
use nosv.Base.Outcome.{Outcome, done, stop}
use nosv.Io.{OpWork, Terminal, ended, runtime_closed_error}
use nosv.Io.Op.{OwnedOp, Waker, Poll, pending, ready, terminal, wake, keep_waker, poll, new, drop}

-- The operation as its caller sees it: not started, with the kernel for a waiting task, ended with a
-- result that nobody has taken, or over.
pub data Stage (W T : Type 0) : Type 0 where
  fresh : W → Stage W T
  in_flight : W → Option Waker → Stage W T
  ended_with : T → Stage W T
  taken : Stage W T

module _ {W T : Type 0} where
  -- The future and the record of the driver stand for a stage.
  abbrev pub Implements : OwnedOp W T → Stage W T → Type 0
  Implements op (fresh work) =
      (op.handler ≡ some work)
      × (op.retained ≡ none)
      × (op.result ≡ none)
      × (op.queued ≡ false)
      × (op.done ≡ false)
      × (op.control.completed ≡ false)
      × (op.control.waker ≡ none)
  Implements op (in_flight work waiter) =
      (op.retained ≡ some work)
      × (op.result ≡ none)
      × (op.queued ≡ true)
      × (op.done ≡ false)
      × (op.control.completed ≡ false)
      × (op.control.waker ≡ waiter)
  Implements op (ended_with value) =
      (op.retained ≡ none)
      × (op.result ≡ some value)
      × (op.queued ≡ true)
      × (op.done ≡ false)
      × (op.control.completed ≡ true)
  Implements op taken = (op.retained ≡ none) × (op.result ≡ none) × (op.done ≡ true)

module _ {W T : Type 0} (work_of : OpWork W T) where
  -- What a poll gives, and the stage after it: the first of the three chances that the driver uses ends
  -- an operation in flight.
  abbrev pub arrive :
      W
      → Option Waker
      → Waker
      → Option Terminal
      → Option Terminal
      → Option Terminal
      → Stage W T × Poll T
  arrive work waiter w (some t) second third = (taken, ready (ended work_of work t))
  arrive work waiter w none (some t) third = (taken, ready (ended work_of work t))
  arrive work waiter w none none (some t) = (taken, ready (ended work_of work t))
  arrive work waiter w none none none = (in_flight work (keep_waker waiter w), pending)

  abbrev pub spec_poll :
      Bool
      → Option Terminal
      → Option Terminal
      → Option Terminal
      → Waker
      → Stage W T
      → Outcome (Stage W T × Poll T)
  spec_poll true first second third w (fresh work) = done (arrive work none w first second third)
  spec_poll false first second third w (fresh work) =
      done (taken, ready (work_of.fail work runtime_closed_error))
  spec_poll takes first second third w (in_flight work waiter) =
      done (arrive work waiter w first second third)
  spec_poll takes first second third w (ended_with value) = done (taken, ready value)
  spec_poll takes first second third w taken = stop

  -- Both return, with the same answer and a stage that the future implements, or both stop.
  abbrev pub Agrees : Outcome (OwnedOp W T × Poll T) → Outcome (Stage W T × Poll T) → Type 0
  Agrees (done (op, p)) (done (s, q)) = Implements op s × (p ≡ q)
  Agrees stop stop = Unit
  Agrees _ _ = ⊥

  -- A future that implements a stage answers a poll as the stage does, whatever the driver does
  -- meanwhile: the result is given exactly once, a started operation that has not ended stays with
  -- the driver with the task registered, and the only poll that stops the process is one after the result.
  pub poll-Agrees :
      (running accepts : Bool) (first second third : Option Terminal) (w : Waker) (op : OwnedOp W T)
      (s : Stage W T)
      → Implements op s
      → Agrees
          (poll work_of running accepts first second third w op)
          (spec_poll (running && accepts) first second third w s)
  unfolding poll
  poll-Agrees running accepts first second third w op (fresh work) i = ground arith
  poll-Agrees running accepts first second third w op (in_flight work waiter) i = ground arith
  poll-Agrees running accepts first second third w op (ended_with value) i = ground arith
  poll-Agrees running accepts first second third w op taken i = ground arith

  -- A new future is not started.
  pub new-Implements : (work : W) → Implements (new {T = T} work) (fresh work)
  unfolding new
  new-Implements work = ground arith

  -- The driver ends an operation in flight with the value of its work item and wakes the task that
  -- waits; outside of that stage it has no handler and changes nothing.
  pub terminal-Implements :
      (t : Terminal) (op : OwnedOp W T) (work : W) (waiter : Option Waker)
      → Implements op (in_flight work waiter)
      → Implements (terminal work_of (some t) op).0 (ended_with (ended work_of work t))
        × ((terminal work_of (some t) op).1 ≡ wake waiter)
  unfolding terminal
  terminal-Implements t op work waiter i = ground arith

  -- A dropped future tells the driver exactly if its operation is started and has not given its result,
  -- and stays at its stage: what the driver holds is kept until the kernel is done with it.
  pub drop-Implements :
      (op : OwnedOp W T) (s : Stage W T)
      → Implements op s
      → Implements (drop op).0 s
        × ((drop op).1 ≡ (op.queued && not op.done))
        × ((drop op).1 ≡ true → (drop op).0.control.cancelled ≡ true)
  unfolding drop
  drop-Implements op (fresh work) i = ground arith
  drop-Implements op (in_flight work waiter) i = ground arith
  drop-Implements op (ended_with value) i = ground arith
  drop-Implements op taken i = ground arith

  -- A started operation whose poll is pending wakes the task of that poll when the driver ends it, and
  -- the next poll, by any task, gives the value that the work item makes of the answer.
  pub pending_then_ready :
      (running accepts : Bool) (w w' : Waker) (t : Terminal) (op : OwnedOp W T) (work : W)
      → Implements op (in_flight work none)
      → Agrees
          (poll work_of running accepts none none none w op)
          (done (in_flight work (some w), pending))
        × ((op' : OwnedOp W T)
            → Implements op' (in_flight work (some w))
            → ((terminal work_of (some t) op').1 ≡ w ∷ [])
              × Agrees
                  (poll work_of running accepts none none none w' (terminal work_of (some t) op').0)
                  (done (taken, ready (ended work_of work t))))
  pending_then_ready running accepts w w' t op work i = (
    poll-Agrees running accepts none none none w op (in_flight work none) i,
    λ op' i'.
        let e = terminal-Implements t op' work (some w) i' in
        (
          e.1,
          poll-Agrees running accepts none none none w' _ (ended_with (ended work_of work t)) e.0,
        ),
  )
