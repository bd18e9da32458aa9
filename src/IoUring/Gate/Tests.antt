-- ===== src/IoUring/Gate/Tests.antt =====
-- The gate of src/io_uring.rs on a driver that pauses while a producer announces work.
use nosv.Base.{◌≡◌, ◌↔◌, refl, true, false, some, []}
use nosv.Base.Outcome.{done}
use nosv.IoUring.Data.{DriverData}
use nosv.IoUring.Gate.{
  DriverGate, paused, wake_pending, submit, notify, stop_, wait, pause, decide, try_park, opened,
}
use nosv.IoUring.Gate.Wakeups.{
  passing, deciding, asleep, Park, accepts, queued, notified, passed, decided, Reach, start, step,
  no_lost_wakeup,
}
use nosv.IoUring.Gate.Decisions.{decide-idle}

abbrev initial : Park
initial = record { gate = opened; place = passing; unseen = false; unnotified = 0; submits = 0 }

abbrev paused_gate : DriverGate
paused_gate = record { raw = true; phase = paused; notified = false }

abbrev woken_gate : DriverGate
woken_gate = record { raw = true; phase = wake_pending; notified = true }

abbrev woken : Park
woken = record {
  gate = woken_gate;
  place = asleep pause;
  unseen = true;
  unnotified = 0;
  submits = 1;
}

paused-Reach : Reach (record {
  gate = paused_gate;
  place = asleep pause;
  unseen = false;
  unnotified = 0;
  submits = 0;
})
unfolding try_park
paused-Reach =
    step (step start (passed initial refl))
      (decided (record initial { place = deciding }) pause refl)

notify-paused : notify accepts paused_gate ≡ done (woken_gate, some submit)
unfolding notify
notify-paused = refl

woken-Reach : Reach woken
woken-Reach =
    step (step paused-Reach (queued _)) (notified _ 0 woken_gate (some submit) refl notify-paused)

no_lost_wakeup_example : woken.submits ≡ 1
no_lost_wakeup_example = no_lost_wakeup woken woken-Reach refl refl refl

abbrev empty_data : DriverData
empty_data = record {
  contexts = [];
  staged = [];
  cancel_queue = [];
  owned_contexts = [];
  owned_cancel_contexts = [];
  owned_pending = [];
  owned_cancel_queue = [];
  submissions = [];
  accepting = false;
  shutdown = true;
}

decide-idle_example :
    ((decide empty_data true true ≡ stop_) ↔ (true ≡ true))
    × ((decide empty_data true true ≡ pause) ↔ (false ≡ true))
    × (decide empty_data true true ≡ wait
        → (empty_data.staged ≡ [])
          × (empty_data.cancel_queue ≡ [])
          × (empty_data.owned_pending ≡ [])
          × (empty_data.owned_cancel_queue ≡ [])
          × (true ≡ true)
          × (true ≡ false)
          × (true ≡ false))
decide-idle_example = decide-idle empty_data true true
