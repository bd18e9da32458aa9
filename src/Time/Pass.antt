-- ===== src/Time/Pass.antt =====
-- One pass of the timer driver of src/time.rs: the first part of the loop of `run`, under its lock.
use nosv.Base.{ℕ, ◌-◌, Bool, true, Option, none, some, List, [], ◌∷◌, leb, if◌then◌else◌}
use nosv.Time.{Instant, Waker, TimerState, TimerEntry, States, set_state, TimerDriver, cancel}

-- `Option::take` of a waiter that is then pushed on the wakers.
abbrev pub take_waiter : Option Waker → List Waker → List Waker
take_waiter none wake = wake
take_waiter (some w) wake = w ∷ wake

-- A state whose deadline has passed.
abbrev pub fire : TimerState → TimerState
fire t = if t.cancelled then t else record t { fired = true; waiter = none }

abbrev pub waiter_of : TimerState → Option Waker
waiter_of t = if t.cancelled then none else t.waiter

-- The entries whose deadline has passed are popped; the wakers are collected newest first.
unfoldable pub expire :
    Instant → List TimerEntry → States → List Waker → List TimerEntry × States × List Waker
expire now [] states wake = ([], states, wake)
expire now (e ∷ es) states wake =
    let t = states e.state in
    let rest = expire now es (set_state e.state (fire t) states) (take_waiter (waiter_of t) wake) in
    if leb e.deadline now then rest else (e ∷ es, states, wake)

-- Cancelled entries at the top are popped.
unfoldable pub drop_stale : States → List TimerEntry → List TimerEntry
drop_stale states [] = []
drop_stale states (e ∷ es) =
    let rest = drop_stale states es in if (states e.state).cancelled then rest else e ∷ es

unfoldable pub cancel_all : List TimerEntry → States → States
cancel_all [] states = states
cancel_all (e ∷ es) states = cancel_all es (set_state e.state (cancel (states e.state)) states)

-- `saturating_duration_since` of the next deadline.
abbrev pub next_wait : Instant → List TimerEntry → Option ℕ
next_wait now [] = none
next_wait now (e ∷ es) = some (e.deadline - now)

-- The driver, how long to wait, and the wakers to call.
unfoldable pub pass : Instant → TimerDriver → TimerDriver × Option ℕ × List Waker
unfolding expire drop_stale cancel_all
pass now d =
    if d.shutdown
    then (record d { timers = []; states = cancel_all d.timers d.states }, none, [])
    else let (left, states, wake) = expire now d.timers d.states [] in
      let timers = drop_stale states left in
      (record d { timers = timers; states = states }, next_wait now timers, wake)

-- A round of the loop of `run` up to its second look at `shutdown`, which may have been set after the
-- pass. The Boolean says that the driver ends.
unfoldable pub round : Instant → Bool → TimerDriver → (TimerDriver × Option ℕ × List Waker) × Bool
unfolding pass
round now arrives d =
    let (d', wait, wake) = pass now d in
    let seen : TimerDriver = record d' { shutdown = if arrives then true else d'.shutdown } in
    ((seen, wait, wake), seen.shutdown)
