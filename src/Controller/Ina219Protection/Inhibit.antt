-- ===== src/Controller/Ina219Protection/Inhibit.antt =====
-- gugaPI/app/ina219_protection.cpp: a latched fault forbids motion until it is cleared.
use guga_pi.Controller.Ina219Protection.{
  ProtectionState, recompute_motion_inhibit, Sample, record_sample, record_read_error, is_ok,
}
use guga_pi.Common.{
  ◌≡◌, Bool, true, bit_or, ◌≢◌, ◌&&◌, refl, arith, ◌!=◌, false, List, u8, ◌∷◌, [], if◌then◌else◌,
}
use guga_pi.Controller.DriverStatus.{DriverStatus, ok, invalid_arg}
use guga_pi.Controller.Ina219Protection.Masks.{
  Keeps, HasKnownFaults, bit_or_known, Keeps-trans, same-Keeps, record_sample-Keeps,
  read_error-Keeps,
}

-- What the current monitor may report.
pub data Report : Type 0 where
  samples : Sample → Report
  fails : DriverStatus → Report

pub step : ProtectionState → Report → ProtectionState
step s (samples x) = record_sample s x
step s (fails status) = (record_read_error s status).0

pub run : ProtectionState → List Report → ProtectionState
run s [] = s
run s (x ∷ xs) = run (step s x) xs

step-Keeps : (s : ProtectionState) (x : Report) → Keeps s (step s x)
unfolding step
step-Keeps s (samples x) = record_sample-Keeps s x
step-Keeps s (fails status) = read_error-Keeps s status

-- The request agrees with the masks, as the last line of every operation computes it.
abbrev pub IsInhibitExact : ProtectionState → Type 0
IsInhibitExact s =
    s.motion_inhibit_requested
    ≡ (s.config.motion_inhibit_enabled && u8 (bit_or s.active_fault_mask s.latched_fault_mask) != 0)

abbrev refused_or : Bool → ProtectionState → ProtectionState → ProtectionState × DriverStatus
refused_or b s t = if b then (s, invalid_arg) else (t, ok)

either-IsInhibitExact :
    (b : Bool) (s t : ProtectionState)
    → IsInhibitExact s
    → IsInhibitExact t
    → IsInhibitExact (refused_or b s t).0
either-IsInhibitExact true s t h k = h
either-IsInhibitExact false s t h k = k

step-IsInhibitExact :
    (s : ProtectionState) (x : Report) → IsInhibitExact s → IsInhibitExact (step s x)
unfolding step record_sample record_read_error recompute_motion_inhibit
step-IsInhibitExact s (samples x) h = refl
step-IsInhibitExact s (fails status) h = either-IsInhibitExact (is_ok status) s _ h refl

run-Keeps : (s : ProtectionState) (xs : List Report) → Keeps s (run s xs)
unfolding run
run-Keeps s [] = same-Keeps s s refl refl refl
run-Keeps s (x ∷ xs) = Keeps-trans (step-Keeps s x) (run-Keeps (step s x) xs)

run-IsInhibitExact :
    (s : ProtectionState) (xs : List Report) → IsInhibitExact s → IsInhibitExact (run s xs)
unfolding run
run-IsInhibitExact s [] h = h
run-IsInhibitExact s (x ∷ xs) h = run-IsInhibitExact (step s x) xs (step-IsInhibitExact s x h)

-- In a state whose masks have known bits only and whose request agrees with them: once a fault is
-- latched, with the inhibition enabled, motion stays forbidden whatever samples and read errors
-- follow.
pub latched_inhibits :
    (s : ProtectionState) (xs : List Report)
    → HasKnownFaults s
    → s.config.motion_inhibit_enabled ≡ true
    → s.latched_fault_mask ≢ 0
    → IsInhibitExact s
    → (run s xs).motion_inhibit_requested ≡ true
latched_inhibits s xs k on l h =
    let kept = run-Keeps s xs in
    let t = run s xs in
    let k' = kept.known k in
    let n = kept.latched k l in
    let or =
      bit_or_known t.active_fault_mask t.latched_fault_mask k'.active_known k'.latched_known in
    ground (arith, run-IsInhibitExact s xs h, kept.same_config, or, or.2 n)
