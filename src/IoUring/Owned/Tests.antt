-- ===== src/IoUring/Owned/Tests.antt =====
-- One completion-native operation of src/io_uring.rs that is cancelled and completed.
use nosv.Base.{List, ◌==◌, ℕ, ◌+◌, ◌≤◌, ◌≡◌, ◌≢◌, refl, max, true, false, some, [], ◌∷◌, arith}
use nosv.Base.Int.{pos}
use nosv.Base.Outcome.{Returns}
use nosv.Base.Dict.{Dict, contains_key}
use nosv.IoUring.Data.{Ptr, Cqe, Handler, SubmissionQueue, OwnedCqeContext, submitted, DriverData}
use nosv.IoUring.Owned.{context_pointer_in_use, dispatch_owned}
use nosv.IoUring.Owned.Books.{OwnedInv, dispatch_owned-completes}
use nosv.IoUring.Owned.Requests.{IsUnused}
use nosv.IoUring.Data.{QueuedOwnedOp, operation}
use nosv.IoUring.Owned.Stage.{stage_owned}
use nosv.IoUring.Owned.Staging.{Conserves, all_held, stage_owned-Conserves}

abbrev above {ℓ} : {V : Type ℓ} → Dict V → ℕ
above [] = 1
above (e ∷ d) = max (e.0 + 1) (above d)

lookup-above {ℓ} : {V : Type ℓ} (n : ℕ) (d : Dict V) → above d ≤ n → contains_key n d ≡ false
lookup-above n [] h = refl
lookup-above n (e ∷ d) h = ground (arith, lookup-above n d)

-- An allocator that gives the address after the largest in use.
abbrev alloc : DriverData → Ptr
alloc d = max (above d.contexts) (max (above d.owned_contexts) (above d.owned_cancel_contexts))

above-some {ℓ} : {V : Type ℓ} (d : Dict V) → above d ≢ 0
above-some [] e = omega arith
above-some (x ∷ d) e = omega arith

alloc-IsUnused : IsUnused alloc
unfolding context_pointer_in_use
alloc-IsUnused d = (
  ground (
    arith,
    lookup-above (alloc d) d.contexts (omega arith),
    lookup-above (alloc d) d.owned_contexts (omega arith),
    lookup-above (alloc d) d.owned_cancel_contexts (omega arith),
  ),
  λ e. above-some d.contexts (omega arith),
)

abbrev handler : Handler
handler = record { id = 3; opcode = 22 }

abbrev reading : OwnedCqeContext
reading = record {
  phase = submitted;
  control = 5;
  handler = some handler;
  cancel_queued = false;
  cancel_seen = false;
}

abbrev at_kernel : DriverData
at_kernel = record {
  contexts = [];
  staged = [];
  cancel_queue = [];
  owned_contexts = (1, reading) ∷ [];
  owned_cancel_contexts = [];
  owned_pending = [];
  owned_cancel_queue = [];
  submissions = [];
  accepting = true;
  shutdown = false;
}

at_kernel-OwnedInv : OwnedInv at_kernel
at_kernel-OwnedInv = record {
  is_map = (refl, tt);
  cancels_map = tt;
  nonnull = (refl, refl);
  sound = (record { held = λ h. refl; zombie = λ h. ground arith; unseen = λ h. refl }, tt);
  aimed = λ t. ground arith;
}

abbrev cqe : Cqe
cqe = record { user_data = 1; result = pos 64; more = false }

dispatch_owned-completes_example : Returns (dispatch_owned cqe at_kernel) (λ (d, completed).
    OwnedInv d × ((h : Handler) × (some handler ≡ some h) × (completed ≡ some (h, pos 64))))
dispatch_owned-completes_example =
    dispatch_owned-completes cqe at_kernel at_kernel-OwnedInv refl reading refl refl

abbrev one_slot : SubmissionQueue
one_slot = record { free = 1; pushed = [] }

abbrev waiting : List QueuedOwnedOp
waiting =
    record { control = 6; handler = record { id = 4; opcode = 22 } }
    ∷ record { control = 7; handler = record { id = 5; opcode = 22 } }
    ∷ []

stage_owned-Conserves_example :
    Returns
      (stage_owned alloc
        (λ control. control == 6)
        (λ _. true)
        (λ h. operation h.id)
        8
        waiting
        at_kernel
        one_slot)
      (Conserves (all_held waiting at_kernel))
stage_owned-Conserves_example =
    stage_owned-Conserves alloc alloc-IsUnused (λ control. control == 6) (λ _. true)
      (λ h. operation h.id) 8 waiting at_kernel one_slot at_kernel-OwnedInv
