-- ===== src/Controller/Scheduler/Slots.antt =====
-- gugaPI/services/scheduler.cpp: where a new task goes.
use guga_pi.Controller.Scheduler.{
  Tasks, find_free, Environment, add_task, max_tasks, new_slot, ok, error_full, reset_stats,
}
use guga_pi.Common.{
  ℕ, ◌≡◌, ◌<◌, some, none, false, ◌≢◌, ◌≤◌, true, ◌+◌, ◌⊎◌, suc, arith, u32, Bool-cases,
  Option-cases, inl, ◌==◌, inr, zero,
}

find_free-some :
    (t : Tasks) (n i : ℕ) {k : ℕ}
    → find_free t n i ≡ some k
    → (i ≤ k) × (k < i + n) × ((t k).used ≡ false) × ((j : ℕ) → i ≤ j → j < k → (t j).used ≡ true)
unfolding find_free
find_free-some t zero i h = absurd (cc)
find_free-some t (suc n) i {k} h = elim (Bool-cases (t i).used) [
  | inl e ↦
      let (lo, hi, free, taken) = find_free-some t n (i + 1) (rw e at h) in
      (
        omega arith,
        omega arith,
        free,
        λ j le lt. elim (Bool-cases (j == i)) [
          | inl same ↦ let eq : j ≡ i = ground arith in rw eq e
          | inr other ↦ taken j (ground arith) lt
        ],
      )
  | inr e ↦
      let same : i ≡ k = ground arith in
      (omega arith, omega arith, rw same at e, λ j le lt. absurd (omega arith))
]

find_free-none :
    (t : Tasks) (n i : ℕ) → find_free t n i ≡ none → (j : ℕ) → i ≤ j → j < i + n → (t j).used ≡ true
unfolding find_free
find_free-none t zero i h j le lt = absurd (omega arith)
find_free-none t (suc n) i h j le lt = elim (Bool-cases (t i).used) [
  | inl e ↦ elim (Bool-cases (j == i)) [
    | inl same ↦ let eq : j ≡ i = ground arith in rw eq e
    | inr other ↦ find_free-none t n (i + 1) (rw e at h) j (ground arith) (omega arith)
  ]
  | inr e ↦ absurd (ground arith)
]

-- What `Scheduler_AddTask` leaves where slot `k` is the first free one.
pub record IsAdded (t t' : Tasks) (k period_ms first_run_ms : ℕ) : Type 0 where
  pub in_range : k < max_tasks
  pub was_free : (t k).used ≡ false
  pub is_first : (j : ℕ) → j < k → (t j).used ≡ true
  pub is_used : (t' k).used ≡ true
  pub is_enabled : (t' k).enabled ≡ true
  pub has_period : (t' k).period_ms ≡ period_ms
  pub runs_first : (t' k).next_run_ms ≡ first_run_ms
  pub not_run : (t' k).run_count ≡ 0
  pub others_kept : (j : ℕ) → j ≢ k → t' j ≡ t j

module _ (e : Environment) where
  -- A task with a callback and a period goes into the first free slot, enabled, with its first run
  -- after the delay, and every other slot is unchanged; if all slots are used, nothing changes and
  -- the call says so.
  pub add_task-first_free :
      (t : Tasks) (w : e.World) (name callback period_ms start_delay_ms : ℕ)
      → callback ≢ 0
      → period_ms ≢ 0
      → let r = add_task e t w name callback period_ms start_delay_ms in
        (((j : ℕ) → j < max_tasks → (t j).used ≡ true) × (r ≡ (t, (w, (error_full, none)))))
        ⊎ ((k : ℕ) × (r.1.1 ≡ (ok, some k))
            × IsAdded t r.0 k period_ms (u32 ((e.millis w).0 + start_delay_ms)))
  unfolding add_task new_slot reset_stats
  add_task-first_free t w name callback period_ms start_delay_ms c p =
      elim (Option-cases (find_free t max_tasks 0)) [
        | inl full ↦
            inl (
              λ j lt. find_free-none t max_tasks 0 full j (omega arith) (omega arith),
              ground arith,
            )
        | inr (k, found) ↦
            let (lo, hi, free, taken) = find_free-some t max_tasks 0 found in
            inr (
              k,
              ground arith,
              record {
                in_range = omega arith;
                was_free = free;
                is_first = λ j lt. taken j (omega arith) lt;
                is_used = ground arith;
                is_enabled = ground arith;
                has_period = ground arith;
                runs_first = ground arith;
                not_run = ground arith;
                others_kept = λ j ne. ground arith;
              },
            )
      ]
