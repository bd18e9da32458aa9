-- ===== src/IoUring/Shutdown/Tests.antt =====
-- A driver of src/io_uring.rs that is shut down with an entry, a second submission that nobody holds any
-- more, and an operation at the kernel.
use nosv.Base.{
  ℕ, ◌≡◌, refl, Bool, true, false, Option, none, some, [], ◌∷◌, ◌==◌, arith, if◌then◌else◌,
}
use nosv.Base.Outcome.{Outcome, done, stop, Returns}
use nosv.IoUring.Data.{Driver, new_state, CqeContext, original, submitted, OwnedCqeContext}
use nosv.IoUring.Cancel.{mark, commands, close_delivery, request_cancel}
use nosv.IoUring.Gate.{deadline_wait, notify}
use nosv.IoUring.Owned.{find_owned, request_owned_cancel}
use nosv.IoUring.Owned.Books.{OwnedInv}
use nosv.IoUring.Ledger.{Inv}
use nosv.IoUring.Shutdown.{
  Shared, notified, detach_all, cancel_owned, cancel_all, upgraded, live_controls,
  shutdown_and_wait, retire,
}
use nosv.IoUring.Shutdown.Ends.{Closes, shutdown_and_wait-Closes}

abbrev entry : CqeContext
entry = record {
  kind = original;
  phase = submitted;
  index = 0;
  original_user_data = 77;
  state = 0;
  target = none;
  cancel_queued = false;
  cancel_seen = false;
}

abbrev reading : OwnedCqeContext
reading = record {
  phase = submitted;
  control = 5;
  handler = some (record { id = 3; opcode = 22 });
  cancel_queued = false;
  cancel_seen = false;
}

abbrev busy : Driver
busy = record {
  data_ = record {
    contexts = (1, entry) ∷ [];
    staged = [];
    cancel_queue = [];
    owned_contexts = (2, reading) ∷ [];
    owned_cancel_contexts = [];
    owned_pending = [];
    owned_cancel_queue = [];
    submissions = 0 ∷ 1 ∷ [];
    accepting = true;
    shutdown = false;
  };
  states = λ s.
      let state = new_state 4 in
      if s == 0
      then (record state { inner = record state.inner { originals = 1; accepted = 1 } })
      else state;
  wakes = [];
}

abbrev waits : Shared
waits = record {
  driver = busy;
  gate = record { raw = true; phase = deadline_wait; notified = false };
  owned_admission = true;
  owned_queue = [];
}

busy-Inv : Inv busy
busy-Inv = record {
  is_map = (refl, tt);
  nonnull = refl;
  sound = (
    record {
      zombie = λ h k. absurd (ground arith);
      aimed = λ h. absurd (ground arith);
      fresh = λ h. refl;
      unseen = λ h. refl;
    },
    tt,
  );
  balanced =
      λ s. record { originals = ground arith; accepted = ground arith; cancels = ground arith };
  aimed = λ s t. ground arith;
  in_order = λ p. ground arith;
  owned_order = λ p. ground arith;
  cancel_order = λ p. refl;
}

busy-OwnedInv : OwnedInv busy.data_
busy-OwnedInv = record {
  is_map = (refl, tt);
  cancels_map = tt;
  nonnull = (refl, refl);
  sound = (record { held = λ h. refl; zombie = λ h. ground arith; unseen = λ h. refl }, tt);
  aimed = λ t. ground arith;
}

-- One call wakes the driver, the entry and the operation are cancelled.
abbrev summary : Outcome Shared → Bool × Option ℕ
summary stop = (false, none)
summary (done x) =
    (x.gate.notified, elim x.driver.data_.owned_cancel_queue [ [] ↦ none | (p ∷ _) ↦ some p ])

shutdown_and_wait_cancels :
    summary (shutdown_and_wait (λ _. true) (λ s. s == 0) waits) ≡ (true, some 2)
unfolding shutdown_and_wait detach_all cancel_all cancel_owned upgraded live_controls notified
    notify request_cancel mark commands close_delivery find_owned request_owned_cancel
shutdown_and_wait_cancels = refl

-- The descriptor of a driver that is not terminal is not destroyed.
retire_early : retire true waits.gate ≡ stop
unfolding retire
retire_early = refl

shutdown_and_wait-Closes_example :
    Returns
      (shutdown_and_wait (λ _. true) (λ s. s == 0) waits)
      (Closes (λ _. true) (λ s. s == 0) waits)
shutdown_and_wait-Closes_example =
    shutdown_and_wait-Closes (λ _. true) (λ w. refl) (λ s. s == 0) waits busy-Inv busy-OwnedInv refl
