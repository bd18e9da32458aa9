-- ===== src/Time.antt =====
-- src/time.rs: timers. An instant is its number of nanoseconds since an origin, a state shared by
-- `Arc` and a waker are known by numbers. `Order` is about the heap, `Pass`, `Expiry` and
-- `Rounds` about the driver, `Park` about its gate, `Sleep` and `Waking` about the futures.
pub mod Order
pub mod Pass
pub mod Expiry
pub mod Rounds
pub mod Sleep
pub mod Waking
pub mod Park
mod Tests
use nosv.Base.{
  ℕ, ◌+◌, ◌-◌, ◌^◌, Bool, true, false, not, Option, none, some, List, [], ◌∷◌, ◌==◌, leb, ltb,
  if◌then◌else◌,
}
use nosv.Base.Outcome.{Outcome, done, stop}

abbrev pub Instant : Type 0
Instant = ℕ

abbrev pub Waker : Type 0
Waker = ℕ

abbrev pub StateId : Type 0
StateId = ℕ

pub record TimerState : Type 0 where
  pub fired : Bool
  pub cancelled : Bool
  pub waiter : Option Waker

pub record TimerEntry : Type 0 where
  pub deadline : Instant
  pub id : ℕ
  pub state : StateId

-- `core::cmp::Ordering`, with `Ord::cmp` of the integers and `then_with`.
pub data Ordering : Type 0 where
  less equal greater : Ordering

abbrev pub cmp_ℕ : ℕ → ℕ → Ordering
cmp_ℕ a b = if ltb a b then less else if a == b then equal else greater

abbrev pub then_with : Ordering → Ordering → Ordering
then_with equal o = o
then_with less o = less
then_with greater o = greater

-- `<TimerEntry as Ord>::cmp`
unfoldable pub cmp : TimerEntry → TimerEntry → Ordering
cmp a b = then_with (cmp_ℕ b.deadline a.deadline) (cmp_ℕ b.id a.id)

abbrev pub is_greater : Ordering → Bool
is_greater greater = true
is_greater _ = false

-- `BinaryHeap::push`; the heap is the list of its entries in the order in which `pop` gives them, the
-- greatest first.
unfoldable pub push : TimerEntry → List TimerEntry → List TimerEntry
unfolding cmp
push e [] = e ∷ []
push e (x ∷ xs) = if is_greater (cmp e x) then e ∷ x ∷ xs else x ∷ push e xs

abbrev pub States : Type 0
States = StateId → TimerState

abbrev pub set_state : StateId → TimerState → States → States
set_state s t states j = if s == j then t else states j

-- The data of the driver, with its identifier counter and the timer states it shares with the futures.
pub record TimerDriver : Type 0 where
  pub timers : List TimerEntry
  pub shutdown : Bool
  pub next_id : ℕ
  pub states : States

-- `TimerState::cancelled = true` and the waiter dropped.
abbrev pub cancel : TimerState → TimerState
cancel t = record t { cancelled = true; waiter = none }

abbrev pub u64_max : ℕ
u64_max = 2 ^ 64 - 1

-- The Boolean says that the driver is notified.
unfoldable pub register : Instant → StateId → TimerDriver → Outcome (TimerDriver × Bool)
register deadline s d =
    if d.next_id == u64_max
    then stop
    else let counted : TimerDriver = record d { next_id = d.next_id + 1 } in
      if d.shutdown
      then done (record counted { states = set_state s (cancel (d.states s)) d.states }, false)
      else done (
        record counted {
          timers = push (record { deadline = deadline; id = d.next_id; state = s }) d.timers;
        },
        true,
      )
