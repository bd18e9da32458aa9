-- ===== src/Time/Waking.antt =====
-- A sleeping task of src/time.rs, from its first poll to the pass that wakes it.
use nosv.Base.{◌+◌, ◌≤◌, ◌<◌, ◌≡◌, refl, true, false, List, [], ◌∷◌, arith}
use nosv.Base.Outcome.{done, Returns}
use nosv.Time.{Instant, Waker, TimerEntry, TimerDriver, set_state, push, u64_max, register}
use nosv.Time.Order.{IsOrdered, IsSorted, push-IsSorted}
use nosv.Time.Pass.{pass}
use nosv.Time.Expiry.{is_due, mem}
use nosv.Time.Rounds.{pass-fires}
use nosv.Time.Sleep.{Sleep, pending, keep_waiter, poll}

due-push :
    (now : Instant) (e : TimerEntry) (es : List TimerEntry)
    → e.deadline ≤ now
    → is_due now e.state (push e es) ≡ true
unfolding push
due-push now e [] h = ground arith
due-push now e (x ∷ es) h = ground (arith, due-push now e es h)

-- The driver that a first poll leaves when it is pending.
abbrev registered : Sleep → Waker → TimerDriver → TimerDriver
registered sleep w d =
    let t = d.states sleep.state in
    record d {
      timers =
          push (record { deadline = sleep.deadline; id = d.next_id; state = sleep.state }) d.timers;
      next_id = d.next_id + 1;
      states = set_state sleep.state (record t { waiter = keep_waiter t.waiter w }) d.states;
    }

module _ (now later : Instant) (w : Waker) (sleep : Sleep) (d : TimerDriver) (v : IsOrdered d)
    (h : d.next_id < u64_max) (unbound : sleep.driver ≡ false) (live : d.shutdown ≡ false)
    (kept : (d.states sleep.state).cancelled ≡ false)
    (unfired : (d.states sleep.state).fired ≡ false) (early : now < sleep.deadline)
    (due : sleep.deadline ≤ later) where
  poll-first :
      poll now true w sleep d ≡ done (record sleep { driver = true }, registered sleep w d, pending)
  unfolding poll register
  poll-first = ground arith

  registered-IsSorted : IsSorted (registered sleep w d).timers
  registered-IsSorted =
      push-IsSorted (record { deadline = sleep.deadline; id = d.next_id; state = sleep.state })
        d.timers v.numbered v.sorted

  -- The first poll of a sleep before its deadline, on a driver in order that is not shut down, is
  -- pending; and the next pass at or after the deadline fires the timer and wakes the task.
  pub pass-wakes : Returns (poll now true w sleep d) (λ (_, d', p).
      let (d'', _, wake) = pass later d' in
      (p ≡ pending) × ((d''.states sleep.state).fired ≡ true) × (mem w wake ≡ true))
  pass-wakes =
      let entry : TimerEntry = record {
        deadline = sleep.deadline;
        id = d.next_id;
        state = sleep.state;
      } in
      let (states, _, _, _, woken) =
        pass-fires later (registered sleep w d) registered-IsSorted live in
      let is_now_due : is_due later sleep.state (push entry d.timers) ≡ true =
        due-push later entry d.timers due in
      rw poll-first (
        refl,
        ground (arith, states sleep.state, is_now_due),
        woken.0 sleep.state w is_now_due (ground arith) (ground arith),
      )
