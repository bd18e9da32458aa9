-- ===== src/IoUring/Pass/Tests.antt =====
-- An operation and its cancellation that both complete in one pass of src/io_uring.rs, and an overflow
-- of the reaping size.
use nosv.Base.{◌≡◌, refl, true, false, some, [], ◌∷◌, arith}
use nosv.Base.Int.{pos}
use nosv.Base.Outcome.{Returns}
use nosv.Base.Dict.{insert, erase}
use nosv.IoUring.Data.{Cqe, Driver, OwnedCqeContext, OwnedCancelContext, submitted, new_state}
use nosv.IoUring.Owned.{dispatch_owned, complete_owned, complete_owned_cancel}
use nosv.IoUring.Owned.Books.{OwnedInv}
use nosv.IoUring.Ledger.{Inv}
use nosv.IoUring.Pass.{dispatch, dispatch_all, reap}
use nosv.IoUring.Pass.Books.{of_operation, of_cancellation, AllExpected, dispatch_all-Books}

abbrev reading : OwnedCqeContext
reading = record {
  phase = submitted;
  control = 5;
  handler = some (record { id = 3; opcode = 22 });
  cancel_queued = true;
  cancel_seen = false;
}

abbrev cancellation : OwnedCancelContext
cancellation = record { phase = submitted; target = 1 }

abbrev both : Driver
both = record {
  data_ = record {
    contexts = [];
    staged = [];
    cancel_queue = [];
    owned_contexts = (1, reading) ∷ [];
    owned_cancel_contexts = (2, cancellation) ∷ [];
    owned_pending = [];
    owned_cancel_queue = [];
    submissions = [];
    accepting = true;
    shutdown = false;
  };
  states = λ _. new_state 4;
  wakes = [];
}

both-Inv : Inv both
both-Inv = record {
  is_map = tt;
  nonnull = refl;
  sound = tt;
  balanced = λ s. record { originals = refl; accepted = refl; cancels = refl };
  aimed = λ s t. refl;
  in_order = λ p. refl;
  owned_order = λ p. ground arith;
  cancel_order = λ p. ground arith;
}

both-OwnedInv : OwnedInv both.data_
both-OwnedInv = record {
  is_map = (refl, tt);
  cancels_map = (refl, tt);
  nonnull = (refl, refl);
  sound = (record { held = λ h. refl; zombie = λ h. ground arith; unseen = λ h. refl }, tt);
  aimed = λ t. ground arith;
}

abbrev ended : Cqe
ended = record { user_data = 1; result = pos 64; more = false }

abbrev cancelled : Cqe
cancelled = record { user_data = 2; result = pos 0; more = false }

both-AllExpected : AllExpected (ended ∷ cancelled ∷ []) both
unfolding dispatch dispatch_owned complete_owned complete_owned_cancel insert erase
both-AllExpected = (
  of_operation reading refl refl refl refl,
  (of_cancellation cancellation refl refl refl refl refl, tt),
)

dispatch_all-Books_example :
    Returns (dispatch_all (ended ∷ cancelled ∷ []) both) (λ (d', _, _). Inv d' × OwnedInv d'.data_)
dispatch_all-Books_example =
    dispatch_all-Books (ended ∷ cancelled ∷ []) both both-Inv both-OwnedInv both-AllExpected

-- A queue with one completion more than a pass takes.
reap_backlog : reap 1 (ended ∷ cancelled ∷ []) ≡ (ended ∷ [], cancelled ∷ [], true)
unfolding reap
reap_backlog = refl
