-- ===== src/Time/Park/Tests.antt =====
-- A timer that is registered while the driver of src/time.rs waits for a later one.
use nosv.Base.{◌≡◌, refl, true, false}
use nosv.Time.Park.{notify, try_wait, opened, deadline_wait, wake_pending}
use nosv.Time.Park.Wakeups.{
  Park, passing, asleep, Reach, start, step, passed, decided, changed, notified, no_missed_change,
}

abbrev fresh : Park
fresh = record {
  gate = opened;
  place = passing;
  unseen = false;
  unnotified = 0;
  submitted = 0;
  deadline_wakes = 0;
}

abbrev waiting : Park
waiting = record fresh { gate = record opened { phase = deadline_wait }; place = asleep true }

waiting-Reach : Reach waiting
unfolding try_wait
waiting-Reach = step (step start (passed fresh true refl)) (decided _ true refl)

abbrev told : Park
told = record waiting {
  gate = record { raw = true; phase = wake_pending; notified = true };
  unseen = true;
  deadline_wakes = 1;
}

told-Reach : Reach told
unfolding notify
told-Reach =
    step (step waiting-Reach (changed waiting))
      (notified (record waiting { unseen = true; unnotified = 1 }) 0 _ _ refl refl)

no_missed_change_example : (told.gate.phase ≡ wake_pending) × (told.deadline_wakes ≡ 1)
no_missed_change_example = no_missed_change told true told-Reach refl refl refl
