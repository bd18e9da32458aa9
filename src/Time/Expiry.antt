-- ===== src/Time/Expiry.antt =====
-- What a pass of the timer driver of src/time.rs pops, fires and leaves.
use nosv.Base.{
  ℕ, ◌+◌, ◌-◌, ◌≤◌, ◌<◌, ◌≡◌, refl, Bool, true, false, not, ◌&&◌, Option, none, some, List, [], ◌∷◌,
  All, to_ℕ, arith, leb, ltb, ◌==◌, if◌then◌else◌, Bool-cases, inl, inr, ◌⊎◌,
}
use nosv.Time.{Instant, Waker, StateId, TimerEntry, States, set_state}
use nosv.Time.Order.{Before, IsSorted}
use nosv.Time.Pass.{take_waiter, fire, waiter_of, expire, drop_stale, next_wait}

-- Whether a timer of this state is due.
abbrev pub is_due : Instant → StateId → List TimerEntry → Bool
is_due now s [] = false
is_due now s (e ∷ es) = if (e.state == s) && leb e.deadline now then true else is_due now s es

-- How many timers of a state are neither due nor cancelled.
abbrev pub open_timers : Instant → StateId → States → List TimerEntry → ℕ
open_timers now s states [] = 0
open_timers now s states (e ∷ es) =
    to_ℕ ((e.state == s) && ltb now e.deadline && not (states s).cancelled)
    + open_timers now s states es

due-none :
    (now : Instant) (s : StateId) (e : TimerEntry) (es : List TimerEntry)
    → now < e.deadline
    → All (Before e) es
    → is_due now s es ≡ false
due-none now s e [] h b = refl
due-none now s e (x ∷ es) h b = ground (arith, due-none now s e es h b.1)

-- In order, the states of the due timers fire, and no others.
pub expire-states :
    (now : Instant) (es : List TimerEntry) (states : States) (wake : List Waker) (s : StateId)
    → IsSorted es
    → (expire now es states wake).1 s ≡ (if is_due now s es then fire (states s) else states s)
unfolding expire
expire-states now [] states wake s h = refl
expire-states now (e ∷ es) states wake s h =
    let fired : States = set_state e.state (fire (states e.state)) states in
    ground (
      arith,
      expire-states now es fired (take_waiter (waiter_of (states e.state)) wake) s h.1,
      due-none now s e es,
      h,
    )

All-later :
    (now : Instant) (e : TimerEntry) (es : List TimerEntry)
    → now < e.deadline
    → All (Before e) es
    → All (λ x. now < x.deadline) es
All-later now e [] h b = tt
All-later now e (x ∷ es) h b = (ground (arith, b.0), All-later now e es h b.1)

pub expire-left :
    (now : Instant) (es : List TimerEntry) (states : States) (wake : List Waker)
    → IsSorted es
    → All (λ e. now < e.deadline) (expire now es states wake).0
      × IsSorted (expire now es states wake).0
unfolding expire
expire-left now [] states wake h = (tt, tt)
expire-left now (e ∷ es) states wake h =
    let fired : States = set_state e.state (fire (states e.state)) states in
    elim (Bool-cases (leb e.deadline now)) [
      | inl q ↦ rw q (expire-left now es fired (take_waiter (waiter_of (states e.state)) wake) h.1)
      | inr q ↦
          let later : now < e.deadline = ground arith in
          rw q ((later, All-later now e es later h.0), h)
    ]

-- The open timers of a state are all still there.
pub expire-open :
    (now : Instant) (es : List TimerEntry) (states : States) (wake : List Waker) (s : StateId)
    (final : States)
    → open_timers now s final (expire now es states wake).0 ≡ open_timers now s final es
unfolding expire
expire-open now [] states wake s final = refl
expire-open now (e ∷ es) states wake s final =
    let fired : States = set_state e.state (fire (states e.state)) states in
    ground (arith, expire-open now es fired (take_waiter (waiter_of (states e.state)) wake) s final)

pub drop_stale-open :
    (now : Instant) (es : List TimerEntry) (states : States) (s : StateId)
    → open_timers now s states (drop_stale states es) ≡ open_timers now s states es
unfolding drop_stale
drop_stale-open now [] states s = refl
drop_stale-open now (e ∷ es) states s = ground (arith, drop_stale-open now es states s)

abbrev pub mem : ℕ → List ℕ → Bool
mem n [] = false
mem n (x ∷ xs) = if x == n then true else mem n xs

expire-keeps :
    (now : Instant) (es : List TimerEntry) (states : States) (wake : List Waker) (w : Waker)
    → mem w wake ≡ true
    → mem w (expire now es states wake).2 ≡ true
unfolding expire
expire-keeps now [] states wake w h = h
expire-keeps now (e ∷ es) states wake w h =
    let fired : States = set_state e.state (fire (states e.state)) states in
    ground (arith, expire-keeps now es fired (take_waiter (waiter_of (states e.state)) wake) w)

-- The task that waits for a due timer is among those that are woken.
pub expire-wakes :
    (now : Instant) (es : List TimerEntry) (states : States) (wake : List Waker) (s : StateId)
    (w : Waker)
    → IsSorted es
    → is_due now s es ≡ true
    → waiter_of (states s) ≡ some w
    → mem w (expire now es states wake).2 ≡ true
unfolding expire
expire-wakes now [] states wake s w h d e = absurd (ground arith)
expire-wakes now (e ∷ es) states wake s w h d q =
    let fired : States = set_state e.state (fire (states e.state)) states in
    let taken = take_waiter (waiter_of (states e.state)) wake in
    ground (
      arith,
      expire-keeps now es fired taken w,
      expire-wakes now es fired taken s w h.1,
      due-none now s e es,
      h,
    )

-- A task that is woken waits for a due timer that is not cancelled.
pub expire-waited :
    (now : Instant) (es : List TimerEntry) (states : States) (wake : List Waker) (w : Waker)
    → mem w (expire now es states wake).2 ≡ true
    → (mem w wake ≡ true)
      ⊎ ((s : StateId) × (is_due now s es ≡ true)
          × ((states s).cancelled ≡ false)
          × ((states s).waiter ≡ some w))
unfolding expire
expire-waited now [] states wake w h = inl h
expire-waited now (e ∷ es) states wake w h = elim (Bool-cases (leb e.deadline now)) [
  | inr q ↦ inl (ground (arith, q))
  | inl q ↦
      let fired : States = set_state e.state (fire (states e.state)) states in
      elim (expire-waited now es fired (take_waiter (waiter_of (states e.state)) wake) w
        (ground (arith, q))) [
          | inr (s, due, live, waits) ↦
              inr (s, ground (arith, q), ground (arith, live), ground (arith, live, waits))
          | inl k ↦ elim (Bool-cases (mem w wake)) [
            | inl m ↦ inl m
            | inr m ↦ inr (e.state, ground (arith, q), ground (arith, k, m), ground (arith, k, m))
          ]
        ]
]

-- The next timer is not cancelled, and none that is left comes before it.
abbrev pub IsNext : Instant → States → List TimerEntry → Option ℕ → Type 0
IsNext now states es none = es ≡ []
IsNext now states [] (some t) = ⊥
IsNext now states (e ∷ es) (some t) =
    ((states e.state).cancelled ≡ false)
    × (e.deadline ≡ now + t)
    × (0 < t)
    × All (λ x. now + t ≤ x.deadline) es

no-sooner :
    (now t : ℕ) (e : TimerEntry) (es : List TimerEntry)
    → e.deadline ≡ now + t
    → All (Before e) es
    → All (λ x. now + t ≤ x.deadline) es
no-sooner now t e [] h b = tt
no-sooner now t e (x ∷ es) h b = (ground (arith, b.0), no-sooner now t e es h b.1)

pub drop_stale-IsNext :
    (now : Instant) (states : States) (es : List TimerEntry)
    → All (λ e. now < e.deadline) es
    → IsSorted es
    → IsNext now states (drop_stale states es) (next_wait now (drop_stale states es))
      × IsSorted (drop_stale states es)
unfolding drop_stale
drop_stale-IsNext now states [] l h = (refl, tt)
drop_stale-IsNext now states (e ∷ es) l h = elim (Bool-cases (states e.state).cancelled) [
  | inl q ↦ rw q (drop_stale-IsNext now states es l.1 h.1)
  | inr q ↦ rw q (
    (
      q,
      omega (arith, l.0),
      omega (arith, l.0),
      no-sooner now (e.deadline - now) e es (omega (arith, l.0)) h.0,
    ),
    h,
  )
]
