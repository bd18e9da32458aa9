-- ===== src/Time/Sleep.antt =====
-- The futures of src/time.rs: `Sleep` and `Timeout`.
use nosv.Base.{
  ◌≤◌, ◌<◌, ◌≡◌, ◌⊎◌, ◌↔◌, Bool, true, false, not, ◌||◌, Option, none, some, arith, leb, ◌==◌,
  if◌then◌else◌,
}
use nosv.Base.Outcome.{Outcome, done, stop, Returns, ◌>>=◌}
use nosv.Base.Result.{Result, ok, err}
use nosv.Time.{Instant, Waker, StateId, set_state, TimerDriver, cancel, u64_max, register}
use nosv.Time.Order.{IsOrdered, register-IsOrdered}

-- `driver` says whether the future is bound to a driver.
pub record Sleep : Type 0 where
  pub deadline : Instant
  pub state : StateId
  pub driver : Bool

pub data Poll {ℓ} (A : Type ℓ) : Type ℓ where
  pending : Poll A
  ready : A → Poll A

-- The waiter is replaced unless the old one wakes the same task.
abbrev pub keep_waiter : Option Waker → Waker → Option Waker
keep_waiter none w = some w
keep_waiter (some old) w = if old == w then some old else some w

-- `<Sleep as Future>::poll` at the time `now`, with the driver of the current runtime; `running` says
-- whether there is one, open and of this process, without which the poll panics.
unfoldable pub poll :
    Instant → Bool → Waker → Sleep → TimerDriver → Outcome (Sleep × TimerDriver × Poll (Unit {0}))
poll now running w sleep d =
    let t = d.states sleep.state in
    if t.fired || leb sleep.deadline now
    then done (
      sleep,
      record d { states = set_state sleep.state (record t { fired = true }) d.states },
      ready tt,
    )
    else let waiting : TimerDriver = record d {
      states = set_state sleep.state (record t { waiter = keep_waiter t.waiter w }) d.states;
    } in
      if sleep.driver
      then done (sleep, waiting, pending)
      else if not running
      then stop
      else register sleep.deadline sleep.state waiting >>= λ (d', _).
          done (record sleep { driver = true }, d', pending)

-- `<Sleep as Drop>::drop`; the Boolean says that the driver is notified.
unfoldable pub drop : Sleep → TimerDriver → TimerDriver × Bool
drop sleep d = (
  record d { states = set_state sleep.state (cancel (d.states sleep.state)) d.states },
  sleep.driver,
)

pub data Elapsed : Type 0 where
  elapsed : Elapsed

-- `<Timeout as Future>::poll`, with what the poll of the operation gives.
unfoldable pub poll_timeout :
    {T : Type 0}
    → Poll T
    → Instant
    → Bool
    → Waker
    → Sleep
    → TimerDriver
    → Outcome (Sleep × TimerDriver × Poll (Result T Elapsed))
poll_timeout (ready output) now running w sleep d = done (sleep, d, ready (ok output))
poll_timeout pending now running w sleep d = poll now running w sleep d >>= λ (sleep', d', p).
    done (sleep', d', elim p [ ready _ ↦ ready (err elapsed) | pending ↦ pending ])

module _ (now : Instant) (w : Waker) (sleep : Sleep) (d : TimerDriver) (v : IsOrdered d)
    (h : d.next_id < u64_max) where
  -- A poll within a runtime, while identifiers remain, does not stop the process. It is ready exactly
  -- if the timer has fired or its deadline has come. Otherwise the task of this poll is the one that
  -- waits, the timers stay in order, the future is bound, and a future that was bound before adds no
  -- timer.
  pub poll-ready : Returns (poll now true w sleep d) (λ (sleep', d', p).
      ((p ≡ ready tt) ↔ (((d.states sleep.state).fired ≡ true) ⊎ (sleep.deadline ≤ now)))
      × IsOrdered d'
      × (p ≡ pending
          → (sleep'.driver ≡ true)
            × (sleep.driver ≡ true → d'.timers ≡ d.timers)
            × (d.shutdown ≡ false → ((d'.states sleep.state).waiter ≡ some w))))
  unfolding poll register
  poll-ready =
      let t = d.states sleep.state in
      let waiting : TimerDriver = record d {
        states = set_state sleep.state (record t { waiter = keep_waiter t.waiter w }) d.states;
      } in
      let ordered : IsOrdered waiting = record { sorted = v.sorted; numbered = v.numbered } in
      ground (arith, v, register-IsOrdered sleep.deadline sleep.state waiting ordered h)
