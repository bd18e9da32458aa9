-- ===== src/Task/Joining.antt =====
-- How the result of a task of src/task.rs reaches its joiner.
use nosv.Base.{◌≡◌, ◌≢◌, ◌⊎◌, true, false, none, some, ◌∷◌, arith}
use nosv.Base.Outcome.{stop, Returns}
use nosv.Base.Result.{Result, ok, err}
use nosv.Error.{NativeError, JoinError}
use nosv.Task.Gate.{RawTask, destroy, destroyed, is_terminal, retire}
use nosv.Task.Join.{JoinInner, Waker, pending, ready, replace_error_if_unpublished, publish, poll}
use nosv.Task.Run.{Runnable, completed_callback}
use nosv.Task.Turns.{HasEnded}

module _ {T P : Type 0} where
  -- When a task has ended with the result `res` and nOS-V destroys its descriptor, the completed
  -- callback returns, after one call more, the destruction of the descriptor, which is gone by then; the joiner that waited last is the one that is
  -- woken, its next poll is ready with `res`, and polling once more stops the process.
  pub completed_callback-delivers :
      (raw : RawTask) (res : Result T (JoinError P)) (r : Runnable T P) (w : Waker)
      → HasEnded raw res r
      → r.join.consumed ≡ false
      → Returns (completed_callback (ok tt) r) (λ (r', woken).
        (r'.core.native.phase ≡ destroyed)
        × (r'.core.native.task ≡ none)
        × (r'.core.calls ≡ destroy ∷ r.core.calls)
        × (woken ≡ r.join.waiter)
        × Returns (poll w r'.join) (λ (j, p). (p ≡ ready res) × (poll w j ≡ stop)))
  unfolding completed_callback retire publish poll
  completed_callback-delivers raw res r w h c = ground arith

  -- A descriptor that nOS-V cannot destroy stops the process, and so does a completed callback on a
  -- task that has not ended: no joiner ever sees a result of a descriptor that is still in use.
  pub completed_callback-stops :
      (answer : Result (Unit {0}) NativeError) (r : Runnable T P)
      → (answer ≢ ok tt) ⊎ (is_terminal r.core.native.phase ≡ false)
      → completed_callback answer r ≡ stop
  unfolding completed_callback retire
  completed_callback-stops answer r h = ground arith

  -- A joiner that polls before the completion waits, and is the one that the publication wakes; a
  -- second poll by another joiner takes its place.
  pub poll-publish :
      (w v : Waker) (j : JoinInner T P)
      → j.consumed ≡ false
      → j.native_completed ≡ false
      → Returns (poll w j) (λ (k, p).
        (p ≡ pending)
        × ((publish k).1 ≡ some w)
        × Returns (poll v k) (λ (l, q). (q ≡ pending) × ((publish l).1 ≡ some v)))
  unfolding poll publish
  poll-publish w v j c n = ground arith

  -- An error that comes after the publication does not change the result that a joiner is entitled
  -- to; before it, the error takes the place of any result that is stored.
  pub late_errors :
      (e : JoinError P) (j : JoinInner T P) (w : Waker)
      → j.consumed ≡ false
      → let k = replace_error_if_unpublished e j in
        (j.native_completed ≡ true → poll w k ≡ poll w j)
        × (j.native_completed ≡ false
            → Returns (poll w (publish k).0) (λ (_, p). p ≡ ready (err e)))
  unfolding poll publish replace_error_if_unpublished
  late_errors e j w c = ground arith
