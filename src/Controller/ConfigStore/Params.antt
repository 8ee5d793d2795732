-- ===== src/Controller/ConfigStore/Params.antt =====
-- gugaPI/app/config_store.cpp: the parameters, their defaults, and when they are valid.
use guga_pi.Controller.ConfigStore.Field
use guga_pi.Controller.ConfigStore.Table.{
  ParamDescriptor, param_u8, param_u16, param_u32, param_i32, param_descriptors,
}
use Prim.Native.String.{String}
use text.Mathlib.Text.{◌==◌ as str_eq}
use guga_pi.Common.{
  Array, ℕ, List, Option, Bool, ◌∷◌, none, ℤ, true, leb, ltb, ◌==◌, ◌&&◌, update, ◌+◌,
  if◌then◌else◌, pos, u8, some, [], suc, leb_ℤ, u16, ◌||◌, int32, pattern32, not, ◌!=◌, ◌/◌, ltb_ℤ,
  zero,
}

-- `ConfigStoreParams`: from the number of a field to its value, an int32_t as its pattern.
abbrev pub ConfigStoreParams : Type 0
ConfigStoreParams = Array

abbrev pub default_grayscale_track_mask : ℕ
default_grayscale_track_mask = 0x7E

abbrev pub legacy_default_grayscale_track_mask : ℕ
legacy_default_grayscale_track_mask = 0x3C

abbrev pub grayscale_channel_count : ℕ
grayscale_channel_count = 8

-- The assignments of a list of fields, from the first on.
abbrev pub assign : ConfigStoreParams → List (ℕ × ℕ) → ConfigStoreParams
assign p [] = p
assign p ((field, value) ∷ rest) = assign (update p field value) rest

unfoldable pub default_values : List (ℕ × ℕ)
default_values =
    (Field.left_counts_per_rev, 1456)
    ∷ (Field.right_counts_per_rev, 1456)
    ∷ (Field.wheel_radius_um, 33050)
    ∷ (Field.wheel_radius_mm, 33)
    ∷ (Field.wheel_track_mm, 160)
    ∷ (Field.max_wheel_rpm, 1000)
    ∷ (Field.motor_output_invert_flags, 0x03)
    ∷ (Field.motor_encoder_invert_flags, 0x01)
    ∷ (Field.speed_kp_q4_4, 2)
    ∷ (Field.speed_ki_q4_4, 2)
    ∷ (Field.speed_kd_q4_4, 0)
    ∷ (Field.speed_max_duty, 60)
    ∷ (Field.speed_min_duty, 4)
    ∷ (Field.speed_accel_rpm_s, 1500)
    ∷ (Field.speed_decel_rpm_s, 2000)
    ∷ (Field.position_kp_q4_4, 15)
    ∷ (Field.position_ki_q4_4, 0)
    ∷ (Field.position_kd_q4_4, 0)
    ∷ (Field.position_max_rpm, 40)
    ∷ (Field.position_tolerance_counts, 3)
    ∷ (Field.heading_kp, 1000)
    ∷ (Field.heading_max_correction_rpm, 30)
    ∷ (Field.heading_turn_max_rpm, 60)
    ∷ (Field.heading_turn_min_rpm, 20)
    ∷ (Field.heading_tolerance_mdeg, 3000)
    ∷ (Field.heading_settle_ms, 300)
    ∷ (Field.heading_turn_brake_ms, 60)
    ∷ (Field.heading_turn_brake_margin_mdeg, 500)
    ∷ (Field.heading_turn_settle_rate_mdps, 1500)
    ∷ (Field.heading_turn_settle_rpm, 3)
    ∷ (Field.heading_lock_kp, 1500)
    ∷ (Field.heading_lock_kd, 250)
    ∷ (Field.heading_lock_wake_mdeg, 2000)
    ∷ (Field.heading_lock_settle_mdeg, 800)
    ∷ (Field.heading_lock_min_rpm, 10)
    ∷ (Field.heading_lock_max_rpm, 30)
    ∷ (Field.heading_lock_settle_rate_mdps, 1500)
    ∷ (Field.heading_lock_settle_rpm, 3)
    ∷ (Field.heading_lock_settle_ms, 250)
    ∷ (Field.heading_lock_timeout_ms, 3000)
    ∷ (Field.road_align_distance_mm, 0)
    ∷ (Field.road_align_rpm, 30)
    ∷ (Field.road_turn_outer_max_rpm, 220)
    ∷ (Field.road_turn_inner_reverse_max_rpm, 120)
    ∷ (Field.dm_position_kp_milli, 4000)
    ∷ (Field.dm_position_kd_milli, 400)
    ∷ (Field.dm_speed_kd_milli, 500)
    ∷ (Field.dm_max_velocity_mrad_s, 2000)
    ∷ (Field.dm_max_tracking_error_mrad, 250)
    ∷ (Field.dm_speed_slew_mrad_s2, 2000)
    ∷ (Field.dm_position_tolerance_mrad, 10)
    ∷ (Field.dm_velocity_tolerance_mrad_s, 80)
    ∷ (Field.dm_settle_ms, 200)
    ∷ (Field.dm_feedback_timeout_ms, 100)
    ∷ (Field.distance_speed_mode, 1)
    ∷ (Field.distance_accel_rpm_s, 600)
    ∷ (Field.distance_decel_rpm_s, 900)
    ∷ (Field.distance_creep_rpm, 15)
    ∷ (Field.distance_stop_latency_ms, 360)
    ∷ (Field.distance_brake_margin_mm, 5)
    ∷ (Field.distance_settle_rpm, 3)
    ∷ (Field.distance_tolerance_mm, 3)
    ∷ (Field.ina219_undervoltage_trip_mv, 6000)
    ∷ (Field.ina219_undervoltage_release_mv, 6500)
    ∷ (Field.ina219_overcurrent_trip_ma, 5000)
    ∷ (Field.ina219_overcurrent_release_ma, 4500)
    ∷ (Field.ina219_trip_samples, 3)
    ∷ (Field.ina219_release_samples, 5)
    ∷ (Field.ina219_comm_fail_samples, 3)
    ∷ (Field.ina219_latch_faults, 0)
    ∷ (Field.ina219_motion_inhibit_enable, 0)
    ∷ (Field.grayscale_white, 3253)
    ∷ (Field.grayscale_black, 1010)
    ∷ (Field.grayscale_white + 1, 3217)
    ∷ (Field.grayscale_black + 1, 934)
    ∷ (Field.grayscale_white + 2, 3189)
    ∷ (Field.grayscale_black + 2, 737)
    ∷ (Field.grayscale_white + 3, 3316)
    ∷ (Field.grayscale_black + 3, 2010)
    ∷ (Field.grayscale_white + 4, 3151)
    ∷ (Field.grayscale_black + 4, 1548)
    ∷ (Field.grayscale_white + 5, 3011)
    ∷ (Field.grayscale_black + 5, 1347)
    ∷ (Field.grayscale_white + 6, 2802)
    ∷ (Field.grayscale_black + 6, 753)
    ∷ (Field.grayscale_white + 7, 3188)
    ∷ (Field.grayscale_black + 7, 1362)
    ∷ (Field.grayscale_threshold, 500)
    ∷ (Field.grayscale_hysteresis, 300)
    ∷ (Field.grayscale_position_floor, 100)
    ∷ (Field.grayscale_min_line_strength, 600)
    ∷ (Field.grayscale_track_mask, default_grayscale_track_mask)
    ∷ (Field.linefollow_kp, 3800)
    ∷ (Field.linefollow_kd, 600)
    ∷ (Field.linefollow_max_correction_rpm, 30)
    ∷ (Field.linefollow_lost_hold_ms, 150)
    ∷ (Field.linefollow_lost_stop_ms, 500)
    ∷ (Field.linefollow_correction_slew_permille_per_second, 25000)
    ∷ (Field.line_sensor_source, 1)
    ∷ (Field.infrared_position_invert, 0)
    ∷ (Field.infrared_position_span_raw, 0)
    ∷ (Field.infrared_adc_threshold, 0)
    ∷ (Field.infrared_adc_hysteresis, 0)
    ∷ (Field.infrared_linefollow_kp, 3800)
    ∷ (Field.infrared_linefollow_kd, 600)
    ∷ (Field.infrared_linefollow_max_correction_rpm, 30)
    ∷ (Field.infrared_linefollow_correction_slew_permille_per_second, 25000)
    ∷ []

unfoldable pub set_defaults : ConfigStoreParams
set_defaults = assign (λ field. 0) default_values

unfoldable pub find_in : String → List ParamDescriptor → Option ParamDescriptor
find_in name [] = none
find_in name (d ∷ ds) = if str_eq name d.name then some d else find_in name ds

unfoldable pub find_param : String → Option ParamDescriptor
find_param name = find_in name param_descriptors

unfoldable pub read_param_value : ConfigStoreParams → ParamDescriptor → ℤ
read_param_value p d = elim d.type [
  | param_u8 ↦ pos (p d.offset)
  | param_u16 ↦ pos (p d.offset)
  | param_u32 ↦ int32 (p d.offset)
  | param_i32 ↦ int32 (p d.offset)
]

unfoldable pub write_param_value : ConfigStoreParams → ParamDescriptor → ℤ → ConfigStoreParams
write_param_value p d value =
    let stored : ℕ = elim d.type [
      | param_u8 ↦ u8 (pattern32 value)
      | param_u16 ↦ u16 (pattern32 value)
      | param_u32 ↦ pattern32 value
      | param_i32 ↦ pattern32 value
    ] in
    update p d.offset stored

-- `ConfigStore_GetValue` of the parameters `p`: the value and its two limits.
unfoldable pub get_value : ConfigStoreParams → String → Option (ℤ × ℤ × ℤ)
get_value p name = elim (find_param name) [
  | none ↦ none
  | some d ↦ some (read_param_value p d, d.min_value, d.max_value)
]

-- A round of the first loop of `ValidateParams`, where all three start at zero.
abbrev pub limits_hold : Option (ℤ × ℤ × ℤ) → Bool
limits_hold none = true
limits_hold (some (value, min_value, max_value)) =
    not (ltb_ℤ value min_value || ltb_ℤ max_value value)

unfoldable pub all_in_range : ConfigStoreParams → List ParamDescriptor → Bool
all_in_range p [] = true
all_in_range p (d ∷ ds) = limits_hold (get_value p d.name) && all_in_range p ds

unfoldable pub channels_differ : ℕ → ConfigStoreParams → Bool
channels_differ zero p = true
channels_differ (suc i) p =
    p (Field.grayscale_white + i) != p (Field.grayscale_black + i) && channels_differ i p

unfoldable pub motion_is_valid : ConfigStoreParams → Bool
motion_is_valid p =
    leb (p Field.speed_min_duty) (p Field.speed_max_duty)
    && leb_ℤ (int32 (p Field.heading_turn_min_rpm)) (int32 (p Field.heading_turn_max_rpm))
    && ltb (p Field.heading_lock_settle_mdeg) (p Field.heading_lock_wake_mdeg)
    && leb (p Field.heading_lock_min_rpm) (p Field.heading_lock_max_rpm)
    && leb (p Field.heading_lock_max_rpm) (p Field.max_wheel_rpm)
    && p Field.wheel_radius_mm == p Field.wheel_radius_um / 1000
    && leb (p Field.distance_creep_rpm) (p Field.max_wheel_rpm)
    && leb (p Field.distance_settle_rpm) (p Field.distance_creep_rpm)

unfoldable pub supply_is_valid : ConfigStoreParams → Bool
supply_is_valid p =
    ltb (p Field.ina219_undervoltage_trip_mv) (p Field.ina219_undervoltage_release_mv)
    && ltb (p Field.ina219_overcurrent_release_ma) (p Field.ina219_overcurrent_trip_ma)

unfoldable pub line_is_valid : ConfigStoreParams → Bool
line_is_valid p =
    let threshold = p Field.grayscale_threshold in
    let hysteresis = p Field.grayscale_hysteresis in
    ltb (u16 (hysteresis / 2)) threshold
    && ltb (threshold + u16 ((hysteresis + 1) / 2)) 1000
    && leb (p Field.linefollow_lost_hold_ms) (p Field.linefollow_lost_stop_ms)

unfoldable pub infrared_is_valid : ConfigStoreParams → Bool
infrared_is_valid p =
    let threshold = p Field.infrared_adc_threshold in
    let hysteresis = p Field.infrared_adc_hysteresis in
    threshold == 0
    || (ltb (u16 (hysteresis / 2)) threshold
        && leb (threshold + u16 ((hysteresis + 1) / 2)) 4095
        && p Field.infrared_position_span_raw != 0)

-- `ValidateParams`, which leaves the parameters in use as they were.
unfoldable pub validate_params : ConfigStoreParams → Bool
validate_params p =
    all_in_range p param_descriptors
    && motion_is_valid p
    && supply_is_valid p
    && channels_differ grayscale_channel_count p
    && line_is_valid p
    && infrared_is_valid p
