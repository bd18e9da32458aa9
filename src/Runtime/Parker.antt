-- ===== src/Runtime/Parker.antt =====
-- `Parker` of src/runtime.rs: how the wakes of the root future end the pauses of `try_block_on`.
use nosv.Base.{ℕ, ◌+◌, ◌≤◌, ◌≡◌, ◌≢◌, Bool, true, false, not, ◌||◌, to_ℕ, arith, if◌then◌else◌}
use nosv.Base.Outcome.{Outcome, done, stop}

-- `ParkerGate`; the descriptor and the process of it stand outside.
pub record ParkerGate : Type 0 where
  pub live : Bool
  pub wake_submitted : Bool

-- The gate that `try_block_on` makes.
unfoldable pub new_gate : ParkerGate
new_gate = record { live = true; wake_submitted = true }

-- `Parker::begin_poll` and `Parker::close`
unfoldable pub begin_poll : ParkerGate → ParkerGate
begin_poll gate = record gate { wake_submitted = false }

unfoldable pub close : ParkerGate → ParkerGate
close gate = record gate { live = false }

-- `Parker::wake_by_ref`; the Boolean of the result says that the thread's task was submitted. nOS-V that
-- refuses the submission stops the process.
unfoldable pub wake_by_ref : Bool → Bool → ParkerGate → Outcome (ParkerGate × Bool)
wake_by_ref same_process accepts gate =
    if not same_process
    then done (gate, false)
    else if not gate.live || gate.wake_submitted
    then done (gate, false)
    else if accepts
    then done (record gate { wake_submitted = true }, true)
    else stop

-- Where the blocked thread is: before a poll, in a poll, in a pause, or past the loop.
pub data Phase : Type 0 where
  resumed polling pausing over : Phase

-- `submits` are the submissions that no pause has taken, and `woken` says that a wake came since the last
-- poll began.
pub record Blocked : Type 0 where
  pub gate : ParkerGate
  pub phase : Phase
  pub submits : ℕ
  pub woken : Bool

unfoldable pub blocked : Blocked
unfolding new_gate
blocked = record { gate = new_gate; phase = resumed; submits = 0; woken = false }

-- The thread and its wakers, in any interleaving. A pause ends exactly with a submission.
pub data Step (b : Blocked) : Blocked → Type 0 where
  begin :
      b.phase ≡ resumed
      → Step b (record b { gate = begin_poll b.gate; phase = polling; woken = false })
  was_pending : b.phase ≡ polling → Step b (record b { phase = pausing })
  pause_ends :
      {n : ℕ}
      → b.phase ≡ pausing
      → b.submits ≡ n + 1
      → Step b (record b { phase = resumed; submits = n })
  leave : b.phase ≢ over → Step b (record b { gate = close b.gate; phase = over })
  wake :
      {gate : ParkerGate} {submitted : Bool} (accepts : Bool)
      → wake_by_ref true accepts b.gate ≡ done (gate, submitted)
      → Step b (record b { gate = gate; submits = b.submits + to_ℕ submitted; woken = true })

pub data Reach : Blocked → Type 0 where
  start : Reach blocked
  next : {b b' : Blocked} → Reach b → Step b b' → Reach b'

-- What the submissions are in each phase.
abbrev pub Fits : Phase → Blocked → Type 0
Fits resumed b = (b.gate.live ≡ true) × (b.gate.wake_submitted ≡ true) × (b.submits ≡ 0)
Fits polling b =
    (b.gate.live ≡ true)
    × (b.submits ≡ to_ℕ b.gate.wake_submitted)
    × (b.woken ≡ true → b.gate.wake_submitted ≡ true)
Fits pausing b =
    (b.gate.live ≡ true)
    × (b.submits ≡ to_ℕ b.gate.wake_submitted)
    × (b.woken ≡ true → b.gate.wake_submitted ≡ true)
Fits over b = (b.gate.live ≡ false) × (b.submits ≤ 1)

Step-Fits : (b b' : Blocked) → Step b b' → Fits b.phase b → Fits b'.phase b'
unfolding begin_poll close wake_by_ref
Step-Fits b b' (begin p) f = ground arith
Step-Fits b b' (was_pending p) f = ground arith
Step-Fits b b' (pause_ends p s) f = ground arith
Step-Fits b b' (leave p) f = ground arith
Step-Fits b b' (wake accepts e) f = ground arith

Reach-Fits : (b : Blocked) → Reach b → Fits b.phase b
unfolding blocked
Reach-Fits b start = ground arith
Reach-Fits b (next {b = before} r step) = Step-Fits before b step (Reach-Fits before r)

-- In every reachable state at most one submission is outstanding, and none when a poll is about to begin. A
-- wake since the last poll began has left one that ends the pause, so that it is not lost; a wake that
-- finds the loop left submits nothing.
pub no_lost_wake :
    (b : Blocked)
    → Reach b
    → (b.submits ≤ 1)
      × (b.phase ≡ pausing → b.woken ≡ true → b.submits ≡ 1)
      × (b.phase ≡ resumed → b.submits ≡ 0)
      × (b.phase ≡ over → (accepts : Bool) → wake_by_ref true accepts b.gate ≡ done (b.gate, false))
unfolding wake_by_ref
no_lost_wake b r =
    let f = Reach-Fits b r in
    (ground arith, λ p w. ground arith, λ p. ground arith, λ p accepts. ground arith)
