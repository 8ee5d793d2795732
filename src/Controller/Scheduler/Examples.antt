-- ===== src/Controller/Scheduler/Examples.antt =====
-- gugaPI/services/scheduler.cpp: the theorems on a concrete environment.
use guga_pi.Controller.Scheduler.{Environment, Tasks, empty_slot}
use guga_pi.Controller.Scheduler.Periods.{IsOnSchedule, runs, runs-IsOnSchedule, KeepsSlot}
use guga_pi.Common.{ℕ, ◌+◌, if◌then◌else◌, refl, u32, ◌==◌, ◌*◌, true}

-- A clock of milliseconds; callbacks take three of them.
abbrev steady : Environment
steady = record {
  World = ℕ;
  millis = λ w. (w, w + 1);
  micros = λ w. (u32 (w * 1000), w + 1);
  call = λ c t w. (t, w + 3);
}

abbrev no_tasks : Tasks
no_tasks i = empty_slot

-- A task every 10 milliseconds, next at 105.
abbrev one_task : Tasks
one_task i =
    if i == 0
    then record empty_slot {
      callback = 7;
      period_ms = 10;
      next_run_ms = 105;
      enabled = true;
      used = true;
    }
    else empty_slot

steady_keeps : KeepsSlot steady 0
steady_keeps c t w = refl

runs-IsOnSchedule_example : IsOnSchedule 105 10 ((runs steady 3 (one_task, 100)).0 0)
runs-IsOnSchedule_example =
    runs-IsOnSchedule steady 0 steady_keeps 105 10 3 one_task 100
      (record { has_period = refl; next_run = refl })
