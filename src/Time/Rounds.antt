-- ===== src/Time/Rounds.antt =====
-- Passes of the timer driver of src/time.rs as a whole, and the end of the driver.
use nosv.Base.{
  ◌≡◌, refl, Bool, true, false, not, ◌&&◌, ◌||◌, inl, inr, none, some, List, [], ◌∷◌, All, arith,
  if◌then◌else◌,
}
use nosv.Time.{
  Instant, Waker, TimerState, StateId, TimerEntry, States, set_state, TimerDriver, cancel,
}
use nosv.Time.Order.{IsSorted}
use nosv.Time.Pass.{expire, cancel_all, pass, round}
use nosv.Time.Expiry.{
  is_due, open_timers, mem, IsNext, expire-states, expire-left, expire-open, drop_stale-open,
  drop_stale-IsNext, expire-wakes, expire-waited,
}

cancel_all-cancels :
    (es : List TimerEntry) (states : States)
    → ((s : StateId) → (states s).cancelled ≡ true → (cancel_all es states s).cancelled ≡ true)
      × All (λ e. (cancel_all es states e.state).cancelled ≡ true) es
unfolding cancel_all
cancel_all-cancels [] states = ((λ s h. h), tt)
cancel_all-cancels (e ∷ es) states =
    let (kept, all) = cancel_all-cancels es (set_state e.state (cancel (states e.state)) states) in
    ((λ s h. kept s (ground arith)), (kept e.state (ground arith), all))

-- What a pass makes of a state, which is due or not. A cancelled one stays as it is.
abbrev pub HasExpired : Bool → TimerState → TimerState → Type 0
HasExpired due t t' =
    (t'.cancelled ≡ t.cancelled)
    × (t'.fired ≡ (t.fired || (due && not t.cancelled)))
    × (t'.waiter ≡ (if due && not t.cancelled then none else t.waiter))

-- The tasks that are woken are those that wait for a due timer which is not cancelled.
abbrev pub Wakes : Instant → TimerDriver → List Waker → Type 0
Wakes now d wake =
    ((s : StateId) (w : Waker)
      → is_due now s d.timers ≡ true
      → (d.states s).cancelled ≡ false
      → (d.states s).waiter ≡ some w
      → mem w wake ≡ true)
    × ((w : Waker)
        → mem w wake ≡ true
        → (s : StateId) × (is_due now s d.timers ≡ true)
          × ((d.states s).cancelled ≡ false)
          × ((d.states s).waiter ≡ some w))

waited_for :
    (now : Instant) (d : TimerDriver) (w : Waker)
    → mem w (expire now d.timers d.states []).2 ≡ true
    → (s : StateId) × (is_due now s d.timers ≡ true)
      × ((d.states s).cancelled ≡ false)
      × ((d.states s).waiter ≡ some w)
waited_for now d w m = elim (expire-waited now d.timers d.states [] w m) [
  | inl none_yet ↦ absurd (ground (arith, none_yet))
  | inr found ↦ found
]

-- A pass of a driver that is not shut down, with its timers in order, fires the states of the due
-- timers that are not cancelled and takes their waiters, and every other state stays as it is; it leaves
-- the timers in order, none of them due, and every timer that is neither due nor cancelled; and it says
-- how long to wait for the next that is not cancelled, or that no timer is left. The tasks that are
-- woken are those that wait for a due timer which is not cancelled.
pub pass-fires :
    (now : Instant) (d : TimerDriver)
    → IsSorted d.timers
    → d.shutdown ≡ false
    → let (d', wait, wake) = pass now d in
      ((s : StateId) → HasExpired (is_due now s d.timers) (d.states s) (d'.states s))
      × IsSorted d'.timers
      × ((s : StateId)
          → open_timers now s d'.states d'.timers ≡ open_timers now s d'.states d.timers)
      × IsNext now d'.states d'.timers wait
      × Wakes now d wake
unfolding pass
pass-fires now d h live =
    let popped = expire now d.timers d.states [] in
    let (later, sorted) = expire-left now d.timers d.states [] h in
    let (next, kept) = drop_stale-IsNext now popped.1 popped.0 later sorted in
    rw live (
      (λ s. ground (arith, expire-states now d.timers d.states [] s h)),
      kept,
      (λ s. ground (
        arith,
        drop_stale-open now popped.0 popped.1 s,
        expire-open now d.timers d.states [] s popped.1,
      )),
      next,
      (
        (λ s w due c e. expire-wakes now d.timers d.states [] s w h due (ground (arith, c, e))),
        (λ w m. waited_for now d w m),
      ),
    )

pass-shutdown :
    (now : Instant) (d : TimerDriver)
    → d.shutdown ≡ true
    → let (d', wait, wake) = pass now d in
      (d'.timers ≡ []) × All (λ e. (d'.states e.state).cancelled ≡ true) d.timers × (wake ≡ [])
unfolding pass
pass-shutdown now d h = rw h (refl, (cancel_all-cancels d.timers d.states).1, refl)

-- A driver that is shut down before its pass cancels every timer, retains none and ends. One that is
-- shut down after its pass, in the same round, ends as well, but the timers that the pass left are
-- retained with their states as the pass left them.
pub round-ends :
    (now : Instant) (arrives : Bool) (d : TimerDriver)
    → let ((d', _, _), ends) = round now arrives d in
      (d.shutdown ≡ true
        → (ends ≡ true)
          × (d'.timers ≡ [])
          × All (λ e. (d'.states e.state).cancelled ≡ true) d.timers)
      × (d.shutdown ≡ false
          → (ends ≡ arrives)
            × (d'.timers ≡ (pass now d).0.timers)
            × (d'.states ≡ (pass now d).0.states))
unfolding round pass
round-ends now arrives d = (
  (λ h. (ground arith, (pass-shutdown now d h).0, (pass-shutdown now d h).1)),
  (λ h. (ground arith, refl, refl)),
)
