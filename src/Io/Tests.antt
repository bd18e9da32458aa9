-- ===== src/Io/Tests.antt =====
-- Runs of an owned operation, and its theorem at an input.
use nosv.Base.{ℕ, true, false, none, some, arith}
use nosv.Base.Int.{pos}
use nosv.Base.Outcome.{done}
use nosv.Base.Result.{Result, err}
use nosv.Io.{IoError, result, OpWork, completed, ended, runtime_closed_error}
use nosv.Io.Op.{poll, new, ready}
use nosv.Io.Refines.{fresh, taken, Agrees, new-Implements, poll-Agrees}

-- The work item is a number that plays no part.
abbrev counting : OpWork ℕ (Result ℕ IoError)
counting = record { complete = λ w code. result code; fail = λ w error. err error }

poll-Agrees_example :
    Agrees counting
      (poll counting true true none (some (completed (pos 5))) none 1 (new 7))
      (done (taken, ready (ended counting 7 (completed (pos 5)))))
poll-Agrees_example =
    poll-Agrees counting true true none (some (completed (pos 5))) none 1 (new 7) (fresh 7)
      (new-Implements counting 7)

closed_at_once :
    Agrees counting
      (poll counting false true none none none 1 (new 7))
      (done (taken, ready (err runtime_closed_error)))
unfolding poll new
closed_at_once = ground arith
