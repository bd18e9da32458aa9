-- ===== src/Time/Tests.antt =====
-- Two timers of src/time.rs and a task that sleeps on one of them.
use nosv.Base.{
  ℕ, ◌≤◌, ◌≡◌, ◌⊎◌, ◌↔◌, refl, true, false, none, some, [], ◌∷◌, All, arith, if◌then◌else◌, ◌==◌,
}
use nosv.Base.Outcome.{Returns}
use nosv.Time.{TimerState, TimerEntry, TimerDriver, States}
use nosv.Time.Order.{IsOrdered, IsSorted}
use nosv.Time.Pass.{pass, round}
use nosv.Time.Expiry.{is_due, open_timers, mem, IsNext}
use nosv.Time.Rounds.{HasExpired, Wakes, pass-fires, round-ends}
use nosv.Time.Sleep.{Sleep, pending, ready, poll, poll-ready}
use nosv.Time.Waking.{pass-wakes}

abbrev fresh : TimerState
fresh = record { fired = false; cancelled = false; waiter = none }

-- The state 1 is waited for, the state 2 was dropped.
abbrev states : States
states s =
    if s == 1
    then record fresh { waiter = some 7 }
    else if s == 2
    then record fresh { cancelled = true }
    else fresh

abbrev two_timers : TimerDriver
two_timers = record {
  timers =
      record { deadline = 10; id = 2; state = 1 }
      ∷ record { deadline = 20; id = 1; state = 2 }
      ∷ [];
  shutdown = false;
  next_id = 3;
  states = states;
}

two_timers-IsOrdered : IsOrdered two_timers
two_timers-IsOrdered = ground arith

abbrev later : TimerEntry
later = record { deadline = 15; id = 3; state = 4 }

pass-fires_example :
    let (d, wait, wake) = pass 12 two_timers in
    ((s : ℕ) → HasExpired (is_due 12 s two_timers.timers) (states s) (d.states s))
    × IsSorted d.timers
    × ((s : ℕ) → open_timers 12 s d.states d.timers ≡ open_timers 12 s d.states two_timers.timers)
    × IsNext 12 d.states d.timers wait
    × Wakes 12 two_timers wake
pass-fires_example = pass-fires 12 two_timers two_timers-IsOrdered.sorted refl

round-ends_example :
    let ((d, _, _), ends) = round 12 true two_timers in
    (false ≡ true
      → (ends ≡ true)
        × (d.timers ≡ [])
        × All (λ e. (d.states e.state).cancelled ≡ true) two_timers.timers)
    × (false ≡ false
        → (ends ≡ true)
          × (d.timers ≡ (pass 12 two_timers).0.timers)
          × (d.states ≡ (pass 12 two_timers).0.states))
round-ends_example = round-ends 12 true two_timers

abbrev sleeper : Sleep
sleeper = record { deadline = 15; state = 4; driver = false }

poll-ready_example : Returns (poll 11 true 8 sleeper two_timers) (λ (sleep, d, p).
    ((p ≡ ready tt) ↔ ((false ≡ true) ⊎ (15 ≤ 11)))
    × IsOrdered d
    × (p ≡ pending
        → (sleep.driver ≡ true)
          × (false ≡ true → d.timers ≡ two_timers.timers)
          × (false ≡ false → (d.states 4).waiter ≡ some 8)))
poll-ready_example = poll-ready 11 8 sleeper two_timers two_timers-IsOrdered (omega arith)

pass-wakes_example : Returns (poll 11 true 8 sleeper two_timers) (λ (_, d, p).
    let (d', _, wake) = pass 16 d in
    (p ≡ pending) × ((d'.states 4).fired ≡ true) × (mem 8 wake ≡ true))
pass-wakes_example =
    pass-wakes 11 16 8 sleeper two_timers two_timers-IsOrdered (omega arith) refl refl refl refl
      (omega arith) (omega arith)
