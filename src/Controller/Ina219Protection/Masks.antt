-- ===== src/Controller/Ina219Protection/Masks.antt =====
-- gugaPI/app/ina219_protection.cpp: what the judgement of a sample keeps of the fault masks.
use guga_pi.Controller.Ina219Protection.{
  ProtectionState, Counters, update_fault, activate_fault, ℕ, record_communication_success,
  fault_communication, judge_valid, recompute_motion_inhibit, Sample, fault_undervoltage,
  fault_overcurrent, record_sample, record_read_error, increment_saturated, is_ok,
  fault_math_overflow, fault_not_ready, cleared,
}
use guga_pi.Common.{
  ◌<◌, ℕ, all_below, ◌≡◌, Bool, true, bit_or, ltb, bit_and, ◌≢◌, ◌&&◌, refl, arith, ltb→lt, ◌≤◌,
  ◌!=◌, all_below_sound, ◌-◌, ◌||◌, ◌==◌, ◌∙◌, false, not, Bool-cases, ◌^◌, ◌⊎◌, inl, inr,
  if◌then◌else◌,
}
use guga_pi.Controller.DriverStatus.{DriverStatus, ok}

-- The masks have the five known bits only.
pub record HasKnownFaults (s : ProtectionState) : Type 0 where
  pub active_known : s.active_fault_mask < 32
  pub latched_known : s.latched_fault_mask < 32

or_check : ℕ → ℕ → Bool
or_check a b = ltb (bit_or a b) 32 && (bit_or a b != 0 || b == 0) && (bit_or a b != 0 || a == 0)

or_table : all_below 32 (λ a. all_below 32 (or_check a)) ≡ true
unfolding all_below or_check
or_table = refl

pub bit_or_known :
    (a b : ℕ)
    → a < 32
    → b < 32
    → (bit_or a b < 32) × (a ≢ 0 → bit_or a b ≢ 0) × (b ≢ 0 → bit_or a b ≢ 0)
unfolding or_check
bit_or_known a b ha hb = ground (
  arith,
  all_below_sound 32 (or_check a) b
      (all_below_sound 32 (λ a. all_below 32 (or_check a)) a or_table ha) hb,
)

and_table : all_below 32 (λ a. all_below 256 (λ b. ltb (bit_and a b) 32)) ≡ true
unfolding all_below
and_table = refl

bit_and_known : (a b : ℕ) → a < 32 → b < 256 → bit_and a b < 32
bit_and_known a b ha hb = ltb→lt _ _ (
    all_below_sound 256 (λ b. ltb (bit_and a b) 32) b
      (all_below_sound 32 (λ a. all_below 256 (λ b. ltb (bit_and a b) 32)) a and_table ha) hb)

-- What a step keeps: the configuration, the known masks, and that something is latched.
pub record Keeps (s t : ProtectionState) : Type 0 where
  pub same_config : t.config ≡ s.config
  pub known : HasKnownFaults s → HasKnownFaults t
  pub latched : HasKnownFaults s → s.latched_fault_mask ≢ 0 → t.latched_fault_mask ≢ 0

update_fault-Keeps :
    (s : ProtectionState) (fault : ℕ) (trip release : Bool) (limit : ℕ) (c : Counters)
    → fault ≤ 16
    → Keeps s (update_fault s fault trip release limit c).0
unfolding update_fault activate_fault
update_fault-Keeps s fault trip release limit c h = record {
  same_config = ground arith;
  known = λ k. ground (
    arith,
    bit_or_known s.active_fault_mask fault k.active_known (omega arith),
    bit_or_known s.latched_fault_mask fault k.latched_known (omega arith),
    bit_and_known s.active_fault_mask (255 - fault) k.active_known (omega arith),
  );
  latched =
      λ k l. ground (arith, bit_or_known s.latched_fault_mask fault k.latched_known (omega arith));
}

pub Keeps-trans : {s t u : ProtectionState} → Keeps s t → Keeps t u → Keeps s u
Keeps-trans k l = record {
  same_config = l.same_config ∙ k.same_config;
  known = λ h. l.known (k.known h);
  latched = λ h n. l.latched (k.known h) (k.latched h n);
}

-- The other fields do not matter.
pub same-Keeps :
    (s t : ProtectionState)
    → t.config ≡ s.config
    → t.active_fault_mask ≡ s.active_fault_mask
    → t.latched_fault_mask ≡ s.latched_fault_mask
    → Keeps s t
same-Keeps s t c a l = record {
  same_config = c;
  known = λ k. record { active_known = rw a k.active_known; latched_known = rw l k.latched_known };
  latched = λ k n. rw l n;
}

-- One judged fault, with its counters put back by `put`.
judged-Keeps :
    (s : ProtectionState) (fault : ℕ) (trip release : Bool) (limit : ℕ) (c : Counters)
    (t : ProtectionState)
    → fault ≤ 16
    → let s1 = (update_fault s fault trip release limit c).0 in
      (t.config ≡ s1.config)
        × (t.active_fault_mask ≡ s1.active_fault_mask)
        × (t.latched_fault_mask ≡ s1.latched_fault_mask)
      → Keeps s t
judged-Keeps s fault trip release limit c t h e =
    Keeps-trans (update_fault-Keeps s fault trip release limit c h)
      (same-Keeps (update_fault s fault trip release limit c).0 t e.0 e.1 e.2)

success-Keeps : (s : ProtectionState) → Keeps s (record_communication_success s)
unfolding record_communication_success
success-Keeps s =
    judged-Keeps s fault_communication false true s.config.communication_fail_samples
      (record { trip = 0; release = s.communication.release }) _ (omega arith) (refl, refl, refl)

judge_valid-Keeps : (s : ProtectionState) (x : Sample) → Keeps s (judge_valid s x)
unfolding judge_valid
judge_valid-Keeps s x =
    Keeps-trans
      (judged-Keeps s fault_undervoltage _ _ s.config.trip_samples s.undervoltage _ (omega arith)
        (refl, refl, refl))
      (judged-Keeps _ fault_overcurrent _ _ _ _ _ (omega arith) (refl, refl, refl))

recompute-Keeps : (s : ProtectionState) → Keeps s (recompute_motion_inhibit s)
unfolding recompute_motion_inhibit
recompute-Keeps s = same-Keeps s _ refl refl refl

ended-Keeps :
    (b : Bool) (s : ProtectionState) (x : Sample)
    → Keeps s
        (if b then judge_valid s x else record s { undervoltage = cleared; overcurrent = cleared })
ended-Keeps true s x = judge_valid-Keeps s x
ended-Keeps false s x = same-Keeps s _ refl refl refl

pub record_sample-Keeps : (s : ProtectionState) (x : Sample) → Keeps s (record_sample s x)
unfolding record_sample
record_sample-Keeps s x = Keeps-trans (same-Keeps s s1 refl refl refl) (
    Keeps-trans (success-Keeps s1) (
      Keeps-trans (judged-Keeps s2 fault_math_overflow _ _ _ _ s4 (omega arith) (refl, refl, refl))
        (Keeps-trans (judged-Keeps s4 fault_not_ready _ _ _ _ s6 (omega arith) (refl, refl, refl))
          (Keeps-trans (ended-Keeps s6.sample_valid s6 x) (recompute-Keeps _)))))
  where
    s1 : ProtectionState
    s1 = record s {
      last_sample = x;
      sample_valid = x.conversion_ready && not x.math_overflow;
      last_read_status = ok;
      successful_sample_count = increment_saturated (2 ^ 32 - 1) s.successful_sample_count;
    }

    s2 : ProtectionState
    s2 = record_communication_success s1

    o3 : ProtectionState × Counters
    o3 =
        update_fault s2 fault_math_overflow x.math_overflow (not x.math_overflow)
          s2.config.trip_samples s2.overflow

    s4 : ProtectionState
    s4 = record (o3.0) { overflow = o3.1 }

    o5 : ProtectionState × Counters
    o5 =
        update_fault s4 fault_not_ready (not x.conversion_ready) x.conversion_ready
          s4.config.trip_samples s4.not_ready

    s6 : ProtectionState
    s6 = record (o5.0) { not_ready = o5.1 }

pub read_error-Keeps :
    (s : ProtectionState) (status : DriverStatus) → Keeps s (record_read_error s status).0
unfolding record_read_error
read_error-Keeps s status = go (Bool-cases (is_ok status))
  where
    s1 : ProtectionState
    s1 = record s {
      sample_valid = false;
      last_read_status = status;
      read_error_count = increment_saturated (2 ^ 32 - 1) s.read_error_count;
    }

    go : (is_ok status ≡ true) ⊎ (is_ok status ≡ false) → Keeps s (record_read_error s status).0
    go (inl e) = rw e (same-Keeps s s refl refl refl)
    go (inr e) = rw e (
        Keeps-trans (same-Keeps s s1 refl refl refl) (
          Keeps-trans
            (judged-Keeps s1 fault_communication _ _ _ _ _ (omega arith) (refl, refl, refl))
            (recompute-Keeps _)))
