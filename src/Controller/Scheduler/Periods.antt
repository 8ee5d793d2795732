-- ===== src/Controller/Scheduler/Periods.antt =====
-- gugaPI/services/scheduler.cpp: the periods do not drift.
use native.Mathlib.Nat.{add-mul, mul_right_comm}
use guga_pi.Controller.Scheduler.{
  Tasks, Environment, Slot, note_run, run_slot, run_due, run_from, run_tasks, put_slot,
}
use guga_pi.Common.{
  ℕ, ◌≡◌, u32, suc, ◌+◌, zero, ◌*◌, ◌/◌, ◌^◌, arith, ap, ◌≢◌, Bool-cases, ◌==◌, inl, subst, inr,
  sym,
}

-- The run count of a slot says how many periods after `base` the next run is.
pub record IsOnSchedule (base period : ℕ) (slot : Slot) : Type 0 where
  pub has_period : slot.period_ms ≡ period
  pub next_run : slot.next_run_ms ≡ u32 (base + slot.run_count * period)

next_period :
    (base n period : ℕ) → u32 (u32 (base + n * period) + period) ≡ u32 (base + u32 (n + 1) * period)
next_period base n period =
    let q = (n + 1) / 2 ^ 32 in
    let r = u32 (n + 1) in
    let split : n + 1 ≡ r + q * 2 ^ 32 = omega arith in
    let left : (n + 1) * period ≡ n * period + 1 * period = add-mul n 1 period in
    let right : (r + q * 2 ^ 32) * period ≡ r * period + q * 2 ^ 32 * period =
      add-mul r (q * 2 ^ 32) period in
    let swap : q * 2 ^ 32 * period ≡ q * period * 2 ^ 32 = mul_right_comm q (2 ^ 32) period in
    let both : (n + 1) * period ≡ (r + q * 2 ^ 32) * period = ap (λ (x : ℕ). x * period) split in
    omega (arith, left, right, swap, both)

module _ (e : Environment) where
  -- `Scheduler_Run`, `n` times.
  pub runs : ℕ → Tasks × e.World → Tasks × e.World
  runs zero tw = tw
  runs (suc n) tw = runs n (run_tasks e tw)

module _ (e : Environment) (i : ℕ) where
  -- The callbacks leave slot `i` alone.
  abbrev pub KeepsSlot : Type 0
  KeepsSlot = (c : ℕ) (t : Tasks) (w : e.World) → (e.call c t w).0 i ≡ t i

  module _ (keeps : KeepsSlot) (base period : ℕ) where
    -- Another task's run leaves the slot alone.
    run_due-other :
        (k : ℕ) (t : Tasks) (w : e.World) (now_ms : ℕ) → k ≢ i → (run_due e k t w now_ms).0 i ≡ t i
    unfolding run_due
    run_due-other k t w now_ms ne =
        let slot : Slot = record (t k) {
          next_run_ms = u32 ((t k).next_run_ms + (t k).period_ms);
        } in
        ground (arith, keeps slot.callback (put_slot t k slot) (e.micros w).1)

    -- Its own run moves it on by one period.
    run_due-own :
        (t : Tasks) (w : e.World) (now_ms : ℕ)
        → IsOnSchedule base period (t i)
        → IsOnSchedule base period ((run_due e i t w now_ms).0 i)
    unfolding run_due note_run
    run_due-own t w now_ms h =
        let slot : Slot = record (t i) {
          next_run_ms = u32 ((t i).next_run_ms + (t i).period_ms);
        } in
        let kept = keeps slot.callback (put_slot t i slot) (e.micros w).1 in
        record {
          has_period = ground (arith, kept, h.has_period);
          next_run = ground (arith, kept, h.next_run, next_period base (t i).run_count period);
        }

    run_due-IsOnSchedule :
        (k : ℕ) (t : Tasks) (w : e.World) (now_ms : ℕ)
        → IsOnSchedule base period (t i)
        → IsOnSchedule base period ((run_due e k t w now_ms).0 i)
    run_due-IsOnSchedule k t w now_ms h = elim (Bool-cases (k == i)) [
      | inl own ↦
          let same : i ≡ k = ground arith in
          subst (λ x. IsOnSchedule base period ((run_due e x t w now_ms).0 i)) same
            (run_due-own t w now_ms h)
      | inr other ↦
          subst (IsOnSchedule base period) (sym (run_due-other k t w now_ms (ground arith))) h
    ]

    run_slot-IsOnSchedule :
        (k : ℕ) (t : Tasks) (w : e.World)
        → IsOnSchedule base period (t i)
        → IsOnSchedule base period ((run_slot e k (t, w)).0 i)
    unfolding run_slot
    run_slot-IsOnSchedule k t w h =
        ground (arith, run_due-IsOnSchedule k t (e.millis w).1 (e.millis w).0 h)

    run_from-IsOnSchedule :
        (n k : ℕ) (t : Tasks) (w : e.World)
        → IsOnSchedule base period (t i)
        → IsOnSchedule base period ((run_from e n k (t, w)).0 i)
    unfolding run_from
    run_from-IsOnSchedule zero k t w h = h
    run_from-IsOnSchedule (suc n) k t w h =
        let tw = run_slot e k (t, w) in
        run_from-IsOnSchedule n (k + 1) tw.0 tw.1 (run_slot-IsOnSchedule k t w h)

    -- However late the calls of `Scheduler_Run` come, the time of a task's next run stays a whole
    -- number of periods, one for each run so far, after its base (modulo 2^32), as long as the
    -- callbacks leave the task's slot alone.
    pub runs-IsOnSchedule :
        (n : ℕ) (t : Tasks) (w : e.World)
        → IsOnSchedule base period (t i)
        → IsOnSchedule base period ((runs e n (t, w)).0 i)
    unfolding runs run_tasks
    runs-IsOnSchedule zero t w h = h
    runs-IsOnSchedule (suc n) t w h =
        let tw = run_tasks e (t, w) in
        runs-IsOnSchedule n tw.0 tw.1 (run_from-IsOnSchedule 16 0 t w h)
