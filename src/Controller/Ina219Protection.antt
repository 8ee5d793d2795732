-- ===== src/Controller/Ina219Protection.antt =====
-- gugaPI/app/ina219_protection.cpp: the supply protection that may forbid motion. The pointers that
-- its functions take are not null. The int32_t samples are their patterns.
pub mod Debounce
pub mod Masks
pub mod Inhibit
use guga_pi.Controller.DriverStatus.{DriverStatus, ok, invalid_arg, not_initialized}
use guga_pi.Common.{
  ℕ, Bool, u8, false, if◌then◌else◌, leb, ◌&&◌, ◌!=◌, ltb, u32, bit_or, not, true, ◌==◌, ◌*◌, ◌^◌,
  ◌+◌, ◌-◌, bit_and, ◌||◌,
}

abbrev pub fault_undervoltage : ℕ
fault_undervoltage = 1

abbrev pub fault_overcurrent : ℕ
fault_overcurrent = 2

abbrev pub fault_communication : ℕ
fault_communication = 4

abbrev pub fault_math_overflow : ℕ
fault_math_overflow = 8

abbrev pub fault_not_ready : ℕ
fault_not_ready = 16

abbrev pub max_bus_voltage_mv : ℕ
max_bus_voltage_mv = 26000

abbrev pub max_current_ma : ℕ
max_current_ma = 6500

abbrev pub max_sample_count : ℕ
max_sample_count = 100

pub record Config : Type 0 where
  pub undervoltage_trip_mv : ℕ
  pub undervoltage_release_mv : ℕ
  pub overcurrent_trip_ma : ℕ
  pub overcurrent_release_ma : ℕ
  pub trip_samples : ℕ
  pub release_samples : ℕ
  pub communication_fail_samples : ℕ
  pub latch_faults : Bool
  pub motion_inhibit_enabled : Bool

pub record Sample : Type 0 where
  pub bus_voltage_mv : ℕ
  pub current_ua : ℕ
  pub conversion_ready : Bool
  pub math_overflow : Bool

-- The two debounce counters of a fault.
pub record Counters : Type 0 where
  pub trip : ℕ
  pub release : ℕ

pub record ProtectionState : Type 0 where
  pub config : Config
  pub last_sample : Sample
  pub sample_valid : Bool
  pub last_read_status : DriverStatus
  pub active_fault_mask : ℕ
  pub latched_fault_mask : ℕ
  pub motion_inhibit_requested : Bool
  pub undervoltage : Counters
  pub overcurrent : Counters
  pub communication : Counters
  pub overflow : Counters
  pub not_ready : Counters
  pub successful_sample_count : ℕ
  pub read_error_count : ℕ

-- `IncrementSaturated` on a uint8_t and on a uint32_t.
abbrev pub increment_saturated : ℕ → ℕ → ℕ
increment_saturated top value = if value != top then value + 1 else value

unfoldable pub abs_current_ua : ℕ → ℕ
abs_current_ua current_ua =
    if ltb current_ua (2 ^ 31)
    then current_ua
    else if current_ua == 2 ^ 31
    then 2 ^ 31 - 1 + 1
    else 2 ^ 32 - current_ua

-- a <= b of two int32_t patterns.
abbrev pub le_int32 : ℕ → ℕ → Bool
le_int32 a b = leb (u32 (a + 2 ^ 31)) (u32 (b + 2 ^ 31))

unfoldable pub recompute_motion_inhibit : ProtectionState → ProtectionState
recompute_motion_inhibit s =
    let faults = u8 (bit_or s.active_fault_mask s.latched_fault_mask) in
    record s { motion_inhibit_requested = s.config.motion_inhibit_enabled && faults != 0 }

unfoldable pub activate_fault : ProtectionState → ℕ → ProtectionState
activate_fault s fault =
    let s1 = record s { active_fault_mask = u8 (bit_or s.active_fault_mask fault) } in
    if s.config.latch_faults
    then record s1 { latched_fault_mask = u8 (bit_or s.latched_fault_mask fault) }
    else s1

-- `UpdateFault`: the counters go in and come out beside the state.
unfoldable pub update_fault :
    ProtectionState → ℕ → Bool → Bool → ℕ → Counters → ProtectionState × Counters
update_fault s fault trip_condition release_condition trip_limit c =
    if not (bit_and s.active_fault_mask fault != 0)
    then (if not trip_condition
        then (s, record { trip = 0; release = 0 })
        else (let trip' = increment_saturated 255 c.trip in
            if leb trip_limit trip'
            then (activate_fault s fault, record { trip = 0; release = 0 })
            else (s, record { trip = trip'; release = 0 })))
    else if not release_condition
    then (s, record { trip = 0; release = 0 })
    else (let release' = increment_saturated 255 c.release in
        if leb s.config.release_samples release'
        then (
          record s { active_fault_mask = u8 (bit_and s.active_fault_mask (255 - fault)) },
          record { trip = 0; release = 0 },
        )
        else (s, record { trip = 0; release = release' }))

unfoldable pub record_communication_success : ProtectionState → ProtectionState
record_communication_success s =
    let (s1, c) =
      update_fault s fault_communication false true s.config.communication_fail_samples
        (record { trip = 0; release = s.communication.release }) in
    record s1 { communication = c }

unfoldable pub validate_config : Config → DriverStatus
validate_config c =
    if c.undervoltage_trip_mv == 0
      || ltb max_bus_voltage_mv c.undervoltage_release_mv
      || leb c.undervoltage_release_mv c.undervoltage_trip_mv
      || c.overcurrent_trip_ma == 0
      || ltb max_current_ma c.overcurrent_trip_ma
      || leb c.overcurrent_trip_ma c.overcurrent_release_ma
      || c.trip_samples == 0
      || ltb max_sample_count c.trip_samples
      || c.release_samples == 0
      || ltb max_sample_count c.release_samples
      || c.communication_fail_samples == 0
      || ltb max_sample_count c.communication_fail_samples
    then invalid_arg
    else ok

abbrev pub cleared : Counters
cleared = record { trip = 0; release = 0 }

-- The state after `memset` and the stores of `Ina219Protection_Init`.
abbrev pub fresh : Config → ProtectionState
fresh c = record {
  config = c;
  last_sample = record {
    bus_voltage_mv = 0;
    current_ua = 0;
    conversion_ready = false;
    math_overflow = false;
  };
  sample_valid = false;
  last_read_status = not_initialized;
  active_fault_mask = 0;
  latched_fault_mask = 0;
  motion_inhibit_requested = false;
  undervoltage = cleared;
  overcurrent = cleared;
  communication = cleared;
  overflow = cleared;
  not_ready = cleared;
  successful_sample_count = 0;
  read_error_count = 0;
}

unfoldable pub init : ProtectionState → Config → ProtectionState × DriverStatus
init s c = elim (validate_config c) [
  | ok ↦ (recompute_motion_inhibit (fresh c), ok)
  | status ↦ (s, status)
]

unfoldable pub configure : ProtectionState → Config → ProtectionState × DriverStatus
configure s c = elim (validate_config c) [
  | ok ↦ (recompute_motion_inhibit (record s { config = c }), ok)
  | status ↦ (s, status)
]

-- The calls of `UpdateFault` on a valid sample.
unfoldable pub judge_valid : ProtectionState → Sample → ProtectionState
judge_valid s sample =
    let absolute_current_ua = abs_current_ua sample.current_ua in
    let (s1, c1) =
      update_fault s fault_undervoltage
        (le_int32 sample.bus_voltage_mv s.config.undervoltage_trip_mv)
        (le_int32 s.config.undervoltage_release_mv sample.bus_voltage_mv) s.config.trip_samples
        s.undervoltage in
    let s2 = record s1 { undervoltage = c1 } in
    let (s3, c3) =
      update_fault s2 fault_overcurrent
        (leb (s.config.overcurrent_trip_ma * 1000) absolute_current_ua)
        (leb absolute_current_ua (s.config.overcurrent_release_ma * 1000)) s.config.trip_samples
        s2.overcurrent in
    record s3 { overcurrent = c3 }

unfoldable pub record_sample : ProtectionState → Sample → ProtectionState
record_sample s sample =
    let s1 = record s {
      last_sample = sample;
      sample_valid = sample.conversion_ready && not sample.math_overflow;
      last_read_status = ok;
      successful_sample_count = increment_saturated (2 ^ 32 - 1) s.successful_sample_count;
    } in
    let s2 = record_communication_success s1 in
    let (s3, c3) =
      update_fault s2 fault_math_overflow sample.math_overflow (not sample.math_overflow)
        s2.config.trip_samples s2.overflow in
    let s4 = record s3 { overflow = c3 } in
    let (s5, c5) =
      update_fault s4 fault_not_ready (not sample.conversion_ready) sample.conversion_ready
        s4.config.trip_samples s4.not_ready in
    let s6 = record s5 { not_ready = c5 } in
    recompute_motion_inhibit (
      if s6.sample_valid
      then judge_valid s6 sample
      else record s6 { undervoltage = cleared; overcurrent = cleared })

-- `read_status` is what the read returned; a read that succeeded is refused.
abbrev pub is_ok : DriverStatus → Bool
is_ok ok = true
is_ok _ = false

unfoldable pub record_read_error : ProtectionState → DriverStatus → ProtectionState × DriverStatus
record_read_error s read_status =
    let s1 = record s {
      sample_valid = false;
      last_read_status = read_status;
      read_error_count = increment_saturated (2 ^ 32 - 1) s.read_error_count;
    } in
    let (s2, c) =
      update_fault s1 fault_communication true false s1.config.communication_fail_samples
        (record { trip = s.communication.trip; release = 0 }) in
    if is_ok read_status
    then (s, invalid_arg)
    else (recompute_motion_inhibit (record s2 { communication = c }), ok)

unfoldable pub clear_latched_faults : ProtectionState → ProtectionState
clear_latched_faults s = recompute_motion_inhibit (record s { latched_fault_mask = 0 })
