-- ===== src/Task/Signals.antt =====
-- Wakes and aborts that reach a task of src/task.rs between two transitions of its callback.
use nosv.Base.{◌≡◌, refl, Bool, true, false, ◌||◌, some, List, [], ◌∷◌, arith, All}
use nosv.Base.Outcome.{done, Returns, Returns->>=, Returns-map}
use nosv.Base.Result.{ok}
use nosv.Task.Gate.{TaskCore, live, Outside, RawTask, schedule, request_abort, is_terminal}
use nosv.Task.Run.{Signal, wake, abort, signal, signals}

abbrev pub outside : Signal → Outside
outside (wake out) = out
outside (abort out) = out

-- nOS-V takes the submission, if the signal makes one.
abbrev pub IsAccepted : Signal → Type 0
IsAccepted s = (outside s).submitted ≡ ok tt

abbrev pub aborts : Signal → Bool
aborts (wake out) = false
aborts (abort out) = out.runtime_here

-- An abort from within the process is among the signals.
abbrev pub aborted : List Signal → Bool
aborted [] = false
aborted (s ∷ ss) = aborts s || aborted ss

-- The live task with the descriptor `raw`.
pub record IsLive (raw : RawTask) (c : TaskCore) : Type 0 where
  pub alive : c.native.phase ≡ live
  pub owned : c.native.task ≡ some raw

-- What signals make of a live task, if `b` says whether an abort is among them.
abbrev pub Signalled : RawTask → TaskCore → Bool → TaskCore → Type 0
Signalled raw c b d =
    IsLive raw d
    × (d.native.polling ≡ c.native.polling)
    × (d.native.cancel_requested ≡ c.native.cancel_requested || b)

signal-Signalled :
    (raw : RawTask) (s : Signal) (c : TaskCore)
    → IsAccepted s
    → IsLive raw c
    → Returns (signal s c) (Signalled raw c (aborts s))
unfolding signal schedule request_abort
signal-Signalled raw (wake out) c a l = ground arith
signal-Signalled raw (abort out) c a l = ground arith

pub signals-Signalled :
    (raw : RawTask) (ss : List Signal) (c : TaskCore)
    → All IsAccepted ss
    → IsLive raw c
    → Returns (signals ss c) (Signalled raw c (aborted ss))
unfolding signals
signals-Signalled raw [] c a l = ground arith
signals-Signalled raw (s ∷ ss) c a l =
    Returns->>= (signal s c) (signals ss) (Signalled raw c (aborts s))
      (Signalled raw c (aborted (s ∷ ss))) (signal-Signalled raw s c a.0 l)
      λ d p.
        Returns-map (signals ss d) (Signalled raw d (aborted ss))
          (Signalled raw c (aborted (s ∷ ss))) (signals-Signalled raw ss d a.1 p.0)
          λ e q. ground arith

-- Signals do not reach a task that has ended.
pub signals-ended :
    (ss : List Signal) (c : TaskCore) → is_terminal c.native.phase ≡ true → signals ss c ≡ done c
unfolding signals signal schedule request_abort
signals-ended [] c h = refl
signals-ended (wake out ∷ ss) c h = ground (arith, signals-ended ss c)
signals-ended (abort out ∷ ss) c h = ground (arith, signals-ended ss c)
