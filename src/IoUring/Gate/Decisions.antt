-- ===== src/IoUring/Gate/Decisions.antt =====
-- When the driver of src/io_uring.rs stops, parks or goes on.
use nosv.Base.{◌≡◌, ◌↔◌, Bool, true, false, not, ◌&&◌, [], arith}
use nosv.IoUring.Data.{DriverData}
use nosv.IoUring.Gate.{stop_, wait, pause, decide, is_idle}

-- The driver stops exactly if it is shut down and idle, whatever the completion queue holds. It pauses
-- with no deadline exactly if it is not shut down, is idle and has no backlog. When it waits for a
-- deadline, nothing is queued anywhere and no completion is left behind, so that all there is is with
-- the kernel.
pub decide-idle :
    (data' : DriverData) (backlog owned_queue_empty : Bool)
    → ((decide data' backlog owned_queue_empty ≡ stop_)
        ↔ ((data'.shutdown && is_idle data' owned_queue_empty) ≡ true))
      × ((decide data' backlog owned_queue_empty ≡ pause)
          ↔ ((not data'.shutdown && not backlog && is_idle data' owned_queue_empty) ≡ true))
      × (decide data' backlog owned_queue_empty ≡ wait
          → (data'.staged ≡ [])
            × (data'.cancel_queue ≡ [])
            × (data'.owned_pending ≡ [])
            × (data'.owned_cancel_queue ≡ [])
            × (owned_queue_empty ≡ true)
            × (backlog ≡ false)
            × (is_idle data' owned_queue_empty ≡ false))
unfolding decide
decide-idle data' backlog owned_queue_empty = (
  ((λ h. ground arith), (λ h. ground arith)),
  ((λ h. ground arith), (λ h. ground arith)),
  (λ h. ground arith),
)
