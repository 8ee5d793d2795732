-- ===== src/Controller/Scheduler.antt =====
-- gugaPI/services/scheduler.cpp: the periodic tasks of the main loop. The clock and the callbacks
-- are the interface `Environment`; a callback may change the tasks, as in gugaPI/app/app_main.cpp.
pub mod Slots
pub mod Periods
mod Examples
use guga_pi.Common.{
  ℕ, Bool, if◌then◌else◌, false, suc, u32, Option, sub32, ◌==◌, ltb, ◌+◌, leb, none, not, ◌^◌, zero,
  ◌||◌, true, some, ◌*◌,
}

abbrev pub max_tasks : ℕ
max_tasks = 16

pub data SchedulerStatus : Type 0 where
  ok error_full error_invalid_arg error_invalid_id : SchedulerStatus

-- `SchedulerTaskSlot`. A name and a callback are known by a number; 0 is the null pointer.
pub record Slot : Type 0 where
  pub name : ℕ
  pub callback : ℕ
  pub period_ms : ℕ
  pub next_run_ms : ℕ
  pub run_count : ℕ
  pub last_runtime_us : ℕ
  pub max_runtime_us : ℕ
  pub last_late_ms : ℕ
  pub max_late_ms : ℕ
  pub timeout_count : ℕ
  pub enabled : Bool
  pub used : Bool

abbrev pub Tasks : Type 0
Tasks = ℕ → Slot

-- g_tasks[i] = slot
abbrev pub put_slot : Tasks → ℕ → Slot → Tasks
put_slot t i slot j = if j == i then slot else t j

-- `Time_Millis`, `Time_Micros` and the callbacks; time may pass at each of them.
pub record Environment : Type 1 where
  pub World : Type 0
  pub millis : World → ℕ × World
  pub micros : World → ℕ × World
  pub call : ℕ → Tasks → World → Tasks × World

-- (int32_t) (now_ms - target_ms) >= 0
unfoldable pub is_due : ℕ → ℕ → Bool
is_due now_ms target_ms = ltb (sub32 now_ms target_ms) (2 ^ 31)

unfoldable pub reset_stats : Slot → Slot
reset_stats slot = record slot {
  run_count = 0;
  last_runtime_us = 0;
  max_runtime_us = 0;
  last_late_ms = 0;
  max_late_ms = 0;
  timeout_count = 0;
}

abbrev pub empty_slot : Slot
empty_slot = record {
  name = 0;
  callback = 0;
  period_ms = 0;
  next_run_ms = 0;
  run_count = 0;
  last_runtime_us = 0;
  max_runtime_us = 0;
  last_late_ms = 0;
  max_late_ms = 0;
  timeout_count = 0;
  enabled = false;
  used = false;
}

-- A loop over `n` slots from `i` on.
unfoldable pub for_slots : (Slot → Slot) → ℕ → ℕ → Tasks → Tasks
for_slots f zero i t = t
for_slots f (suc n) i t = for_slots f n (i + 1) (put_slot t i (f (t i)))

unfoldable pub init_tasks : Tasks → Tasks
init_tasks t = for_slots (λ slot. empty_slot) max_tasks 0 t

unfoldable pub reset_all_stats : Tasks → Tasks
reset_all_stats t = for_slots (λ slot. if slot.used then reset_stats slot else slot) max_tasks 0 t

unfoldable pub reset_task_stats : Tasks → ℕ → Tasks × SchedulerStatus
reset_task_stats t id =
    if leb max_tasks id || not (t id).used
    then (t, error_invalid_id)
    else (put_slot t id (reset_stats (t id)), ok)

-- The slot that `Scheduler_AddTask` fills.
unfoldable pub new_slot : Slot → ℕ → ℕ → ℕ → ℕ → ℕ → Slot
new_slot slot name callback period_ms start_delay_ms now_ms = record (reset_stats slot) {
  name = name;
  callback = callback;
  period_ms = period_ms;
  next_run_ms = u32 (now_ms + start_delay_ms);
  enabled = true;
  used = true;
}

-- The index at which the loop of `Scheduler_AddTask` leaves it, over `n` slots from `i` on.
unfoldable pub find_free : Tasks → ℕ → ℕ → Option ℕ
find_free t zero i = none
find_free t (suc n) i = let rest = find_free t n (i + 1) in if not (t i).used then some i else rest

-- The statistics after a callback that took `runtime_us` and started `late_ms` late.
unfoldable pub note_run : Slot → ℕ → ℕ → Slot
note_run slot runtime_us late_ms = record slot {
  run_count = u32 (slot.run_count + 1);
  last_runtime_us = runtime_us;
  max_runtime_us = if ltb slot.max_runtime_us runtime_us then runtime_us else slot.max_runtime_us;
  last_late_ms = late_ms;
  max_late_ms = if ltb slot.max_late_ms late_ms then late_ms else slot.max_late_ms;
  timeout_count =
      if ltb (u32 (slot.period_ms * 1000)) runtime_us
      then u32 (slot.timeout_count + 1)
      else slot.timeout_count;
}

module _ (e : Environment) where
  -- The option is what goes through `out_id`.
  unfoldable pub add_task :
      Tasks → e.World → ℕ → ℕ → ℕ → ℕ → Tasks × (e.World × (SchedulerStatus × Option ℕ))
  add_task t w name callback period_ms start_delay_ms =
      if callback == 0 || period_ms == 0
      then (t, (w, (error_invalid_arg, none)))
      else elim (find_free t max_tasks 0) [
        | none ↦ (t, (w, (error_full, none)))
        | some i ↦
            let (now_ms, w') = e.millis w in
            let slot = new_slot (t i) name callback period_ms start_delay_ms now_ms in
            (put_slot t i slot, (w', (ok, some i)))
      ]

  unfoldable pub enable_task : Tasks → e.World → ℕ → Bool → Tasks × (e.World × SchedulerStatus)
  enable_task t w id enabled =
      if leb max_tasks id || not (t id).used
      then (t, (w, error_invalid_id))
      else (let (now_ms, w') = e.millis w in
          let slot = record (t id) {
            enabled = enabled;
            next_run_ms = u32 (now_ms + (t id).period_ms);
          } in
          (put_slot t id slot, (w', ok)))

  -- What the loop of `Scheduler_Run` does for a task that is due.
  unfoldable pub run_due : ℕ → Tasks → e.World → ℕ → Tasks × e.World
  run_due i t w now_ms =
      let scheduled_ms = (t i).next_run_ms in
      let late_ms = sub32 now_ms scheduled_ms in
      let (start_us, w1) = e.micros w in
      let slot = record (t i) { next_run_ms = u32 (scheduled_ms + (t i).period_ms) } in
      let (t1, w2) = e.call slot.callback (put_slot t i slot) w1 in
      let (end_us, w3) = e.micros w2 in
      (put_slot t1 i (note_run (t1 i) (sub32 end_us start_us) late_ms), w3)

  unfoldable pub run_slot : ℕ → Tasks × e.World → Tasks × e.World
  run_slot i (t, w) =
      if not (t i).used || not (t i).enabled
      then (t, w)
      else (let (now_ms, w') = e.millis w in
          if is_due now_ms (t i).next_run_ms then run_due i t w' now_ms else (t, w'))

  unfoldable pub run_from : ℕ → ℕ → Tasks × e.World → Tasks × e.World
  run_from zero i tw = tw
  run_from (suc n) i tw = run_from n (i + 1) (run_slot i tw)

  unfoldable pub run_tasks : Tasks × e.World → Tasks × e.World
  run_tasks tw = run_from max_tasks 0 tw
