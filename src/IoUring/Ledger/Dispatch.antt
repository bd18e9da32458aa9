-- ===== src/IoUring/Ledger/Dispatch.antt =====
-- Dispatching a completion keeps the books of src/io_uring.rs.
use nosv.Base.{◌≡◌, refl, false, some, arith}
use nosv.Base.Outcome.{Returns}
use nosv.Base.Dict.{lookup, erase}
use nosv.IoUring.Data.{CqeContext, ContextKind, Cqe, original, cancel, submitted, Driver}
use nosv.IoUring.Dispatch.{set_contexts, dispatch_kind, dispatch_raw}
use nosv.IoUring.Ledger.{Inv}
use nosv.IoUring.Ledger.Original.{dispatch_original-Inv}
use nosv.IoUring.Ledger.Cancelled.{dispatch_cancel-Inv}

-- What the kernel may complete: an operation that it has accepted and not ended; a cancellation has
-- one completion only.
pub record IsExpected (cqe : Cqe) (d : Driver) (c : CqeContext) : Type 0 where
  pub found : lookup cqe.user_data d.data_.contexts ≡ some c
  pub phase : c.phase ≡ submitted
  pub single : c.kind ≡ cancel → cqe.more ≡ false

dispatch_kind-Inv :
    (k : ContextKind) (cqe : Cqe) (d : Driver) (c : CqeContext)
    → c.kind ≡ k
    → Inv d
    → IsExpected cqe d c
    → Returns
        (dispatch_kind k cqe.user_data c cqe
          (set_contexts (erase cqe.user_data d.data_.contexts) d))
        (λ (d', _). Inv d')
unfolding dispatch_kind
dispatch_kind-Inv original cqe d c k v e =
    dispatch_original-Inv cqe.user_data c cqe d v e.found k e.phase
dispatch_kind-Inv cancel cqe d c k v e =
    dispatch_cancel-Inv cqe.user_data c cqe d v e.found k e.phase (e.single k)

-- When the books are right and the kernel completes an operation that it has accepted, the dispatch
-- of the completion does not stop the process and leaves the books right.
pub dispatch_raw-Inv :
    (cqe : Cqe) (d : Driver) (c : CqeContext)
    → Inv d
    → IsExpected cqe d c
    → Returns (dispatch_raw cqe d) (λ (d', _). Inv d')
unfolding dispatch_raw
dispatch_raw-Inv cqe d c v e =
    ground (arith, v.nonnull, e.found, e.phase, dispatch_kind-Inv c.kind cqe d c refl v e)
