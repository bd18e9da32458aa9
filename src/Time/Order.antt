-- ===== src/Time/Order.antt =====
-- The order in which src/time.rs serves its timers.
use nosv.Base.{
  ℕ, ◌+◌, ◌≤◌, ◌<◌, ◌≡◌, ◌⊎◌, ◌↔◌, inl, inr, Bool-cases, true, false, List, [], ◌∷◌, All, arith,
}
use nosv.Base.Outcome.{Returns}
use nosv.Time.{Instant, StateId, TimerEntry, cmp, is_greater, push, TimerDriver, u64_max, register}

-- The earlier deadline goes first, and of two equal ones the timer that was registered first.
abbrev pub Before : TimerEntry → TimerEntry → Type 0
Before a b = (a.deadline < b.deadline) ⊎ ((a.deadline ≡ b.deadline) × (a.id < b.id))

cmp-Before : (a b : TimerEntry) → (is_greater (cmp a b) ≡ true) ↔ Before a b
unfolding cmp
cmp-Before a b = ((λ h. ground arith), (λ h. ground arith))

abbrev pub IsSorted : List TimerEntry → Type 0
IsSorted [] = Unit
IsSorted (e ∷ es) = All (Before e) es × IsSorted es

-- A driver whose timers are in order, with identifiers that were given out.
pub record IsOrdered (d : TimerDriver) : Type 0 where
  pub sorted : IsSorted d.timers
  pub numbered : All (λ e. e.id < d.next_id) d.timers

All-push :
    (P : TimerEntry → Type 0) (e : TimerEntry) (es : List TimerEntry)
    → P e
    → All P es
    → All P (push e es)
unfolding push
All-push P e [] p h = (p, tt)
All-push P e (x ∷ es) p h = ground (arith, All-push P e es p h.1)

Before-trans : (a b c : TimerEntry) → Before a b → Before b c → Before a c
Before-trans a b c h k = ground arith

All-Before :
    (a b : TimerEntry) (es : List TimerEntry) → Before a b → All (Before b) es → All (Before a) es
All-Before a b [] h k = tt
All-Before a b (e ∷ es) h k = (Before-trans a b e h k.0, All-Before a b es h k.1)

later-Before : (e x : TimerEntry) → x.id < e.id → is_greater (cmp e x) ≡ false → Before x e
unfolding cmp
later-Before e x h k = ground arith

pub push-IsSorted :
    (e : TimerEntry) (es : List TimerEntry)
    → All (λ x. x.id < e.id) es
    → IsSorted es
    → IsSorted (push e es)
unfolding push
push-IsSorted e [] n h = (tt, tt)
push-IsSorted e (x ∷ xs) n h = elim (Bool-cases (is_greater (cmp e x))) [
  | inl q ↦
      let first : Before e x = (cmp-Before e x).0 q in
      rw q ((first, All-Before e x xs first h.0), h)
  | inr q ↦ rw q (All-push (Before x) e xs (later-Before e x n.0 q) h.0, push-IsSorted e xs n.1 h.1)
]

weaken : (n m : ℕ) (es : List TimerEntry) → n ≤ m → All (λ x. x.id < n) es → All (λ x. x.id < m) es
weaken n m [] h k = tt
weaken n m (e ∷ es) h k = (omega (arith, k.0), weaken n m es h k.1)

-- While identifiers remain, a registration does not stop the process and leaves the timers in the
-- order of their deadlines, the earlier registration first where these are equal. After a shutdown it
-- adds nothing and the timer is cancelled; before it the driver is notified.
pub register-IsOrdered :
    (deadline : Instant) (s : StateId) (d : TimerDriver)
    → IsOrdered d
    → d.next_id < u64_max
    → Returns (register deadline s d) (λ (d', notified).
      IsOrdered d'
      × (d.shutdown ≡ true → (d'.timers ≡ d.timers) × ((d'.states s).cancelled ≡ true))
      × (d.shutdown ≡ false
          → (notified ≡ true)
            × (d'.timers
                ≡ push (record { deadline = deadline; id = d.next_id; state = s }) d.timers)))
unfolding register
register-IsOrdered deadline s d v h =
    let entry : TimerEntry = record { deadline = deadline; id = d.next_id; state = s } in
    ground (
      arith,
      push-IsSorted entry d.timers v.numbered v.sorted,
      weaken d.next_id (d.next_id + 1) d.timers (omega arith) v.numbered,
      All-push (λ x. x.id < d.next_id + 1) entry d.timers,
      v,
    )
