-- ===== src/Controller/ConfigStore/Table.antt =====
-- gugaPI/app/config_store.cpp: the table of the parameters that have a name.
use guga_pi.Controller.ConfigStore.Field
use Prim.Native.String.{String}
use guga_pi.Common.{ℕ, List, ℤ, pos, ◌∷◌, negsuc, ◌+◌, []}

pub data ParamType : Type 0 where
  param_u8 param_u16 param_u32 param_i32 : ParamType

-- `offset` is the number of the field.
pub record ParamDescriptor : Type 0 where
  pub name : String
  pub type : ParamType
  pub offset : ℕ
  pub min_value : ℤ
  pub max_value : ℤ

abbrev param : String → ParamType → ℕ → ℤ → ℤ → ParamDescriptor
param name type offset min_value max_value = record {
  name = name;
  type = type;
  offset = offset;
  min_value = min_value;
  max_value = max_value;
}

unfoldable pub param_descriptors : List ParamDescriptor
param_descriptors =
    param "left_counts_per_rev" param_u32 Field.left_counts_per_rev (pos 1) (pos 100000000)
    ∷ param "right_counts_per_rev" param_u32 Field.right_counts_per_rev (pos 1) (pos 100000000)
    ∷ param "wheel_radius_um" param_u32 Field.wheel_radius_um (pos 1000) (pos 1000000)
    ∷ param "wheel_radius_mm" param_u32 Field.wheel_radius_mm (pos 1) (pos 1000)
    ∷ param "wheel_track_mm" param_u32 Field.wheel_track_mm (pos 1) (pos 2000)
    ∷ param "max_wheel_rpm" param_u16 Field.max_wheel_rpm (pos 1) (pos 1000)
    ∷ param "motor_output_invert_flags" param_u8 Field.motor_output_invert_flags (pos 0) (pos 3)
    ∷ param "motor_encoder_invert_flags" param_u8 Field.motor_encoder_invert_flags (pos 0) (pos 3)
    ∷ param "speed_kp" param_u8 Field.speed_kp_q4_4 (pos 0) (pos 255)
    ∷ param "speed_ki" param_u8 Field.speed_ki_q4_4 (pos 0) (pos 255)
    ∷ param "speed_kd" param_u8 Field.speed_kd_q4_4 (pos 0) (pos 255)
    ∷ param "speed_max_duty" param_u8 Field.speed_max_duty (pos 0) (pos 100)
    ∷ param "speed_min_duty" param_u8 Field.speed_min_duty (pos 0) (pos 100)
    ∷ param "speed_accel_rpm_s" param_u16 Field.speed_accel_rpm_s (pos 0) (pos 65535)
    ∷ param "speed_decel_rpm_s" param_u16 Field.speed_decel_rpm_s (pos 0) (pos 65535)
    ∷ param "position_kp" param_u8 Field.position_kp_q4_4 (pos 0) (pos 255)
    ∷ param "position_ki" param_u8 Field.position_ki_q4_4 (pos 0) (pos 255)
    ∷ param "position_kd" param_u8 Field.position_kd_q4_4 (pos 0) (pos 255)
    ∷ param "position_max_rpm" param_u16 Field.position_max_rpm (pos 0) (pos 1000)
    ∷ param "position_tolerance_counts" param_u16 Field.position_tolerance_counts (pos 0)
        (pos 65535)
    ∷ param "gy931_roll_zero_mdeg" param_i32 Field.gy931_roll_zero_mdeg (negsuc 179999999)
        (pos 180000000)
    ∷ param "gy931_pitch_zero_mdeg" param_i32 Field.gy931_pitch_zero_mdeg (negsuc 179999999)
        (pos 180000000)
    ∷ param "gy931_yaw_zero_mdeg" param_i32 Field.gy931_yaw_zero_mdeg (negsuc 179999999)
        (pos 180000000)
    ∷ param "imu_accel_bias_x_mg" param_i32 Field.imu_accel_bias_x_mg (negsuc 199999) (pos 200000)
    ∷ param "imu_accel_bias_y_mg" param_i32 Field.imu_accel_bias_y_mg (negsuc 199999) (pos 200000)
    ∷ param "imu_accel_bias_z_mg" param_i32 Field.imu_accel_bias_z_mg (negsuc 199999) (pos 200000)
    ∷ param "imu_gyro_bias_x_mdps" param_i32 Field.imu_gyro_bias_x_mdps (negsuc 1999999)
        (pos 2000000)
    ∷ param "imu_gyro_bias_y_mdps" param_i32 Field.imu_gyro_bias_y_mdps (negsuc 1999999)
        (pos 2000000)
    ∷ param "imu_gyro_bias_z_mdps" param_i32 Field.imu_gyro_bias_z_mdps (negsuc 1999999)
        (pos 2000000)
    ∷ param "heading_kp" param_i32 Field.heading_kp (pos 0) (pos 100000)
    ∷ param "heading_max_correction_rpm" param_i32 Field.heading_max_correction_rpm (pos 0)
        (pos 500)
    ∷ param "heading_turn_max_rpm" param_i32 Field.heading_turn_max_rpm (pos 0) (pos 1000)
    ∷ param "heading_turn_min_rpm" param_i32 Field.heading_turn_min_rpm (pos 0) (pos 500)
    ∷ param "heading_tolerance_mdeg" param_i32 Field.heading_tolerance_mdeg (pos 0) (pos 90000)
    ∷ param "heading_settle_ms" param_u16 Field.heading_settle_ms (pos 0) (pos 5000)
    ∷ param "heading_turn_brake_ms" param_u16 Field.heading_turn_brake_ms (pos 0) (pos 500)
    ∷ param "heading_turn_brake_margin_mdeg" param_u16 Field.heading_turn_brake_margin_mdeg (pos 0)
        (pos 30000)
    ∷ param "heading_turn_settle_rate_mdps" param_u16 Field.heading_turn_settle_rate_mdps (pos 0)
        (pos 60000)
    ∷ param "heading_turn_settle_rpm" param_u16 Field.heading_turn_settle_rpm (pos 0) (pos 100)
    ∷ param "heading_lock_kp" param_i32 Field.heading_lock_kp (pos 0) (pos 100000)
    ∷ param "heading_lock_kd" param_i32 Field.heading_lock_kd (pos 0) (pos 100000)
    ∷ param "heading_lock_wake_mdeg" param_u16 Field.heading_lock_wake_mdeg (pos 100) (pos 30000)
    ∷ param "heading_lock_settle_mdeg" param_u16 Field.heading_lock_settle_mdeg (pos 50) (pos 29999)
    ∷ param "heading_lock_min_rpm" param_u16 Field.heading_lock_min_rpm (pos 0) (pos 100)
    ∷ param "heading_lock_max_rpm" param_u16 Field.heading_lock_max_rpm (pos 1) (pos 200)
    ∷ param "heading_lock_settle_rate_mdps" param_u16 Field.heading_lock_settle_rate_mdps (pos 0)
        (pos 60000)
    ∷ param "heading_lock_settle_rpm" param_u16 Field.heading_lock_settle_rpm (pos 0) (pos 100)
    ∷ param "heading_lock_settle_ms" param_u16 Field.heading_lock_settle_ms (pos 50) (pos 5000)
    ∷ param "heading_lock_timeout_ms" param_u16 Field.heading_lock_timeout_ms (pos 500) (pos 10000)
    ∷ param "road_align_distance_mm" param_u16 Field.road_align_distance_mm (pos 0) (pos 300)
    ∷ param "road_align_rpm" param_u16 Field.road_align_rpm (pos 1) (pos 300)
    ∷ param "road_turn_outer_max_rpm" param_u16 Field.road_turn_outer_max_rpm (pos 1) (pos 1000)
    ∷ param "road_turn_inner_reverse_max_rpm" param_u16 Field.road_turn_inner_reverse_max_rpm
        (pos 0) (pos 1000)
    ∷ param "dm_position_kp_milli" param_u16 Field.dm_position_kp_milli (pos 0) (pos 10000)
    ∷ param "dm_position_kd_milli" param_u16 Field.dm_position_kd_milli (pos 0) (pos 2000)
    ∷ param "dm_speed_kd_milli" param_u16 Field.dm_speed_kd_milli (pos 0) (pos 2000)
    ∷ param "dm_max_velocity_mrad_s" param_u16 Field.dm_max_velocity_mrad_s (pos 0) (pos 20000)
    ∷ param "dm_max_tracking_error_mrad" param_u16 Field.dm_max_tracking_error_mrad (pos 1)
        (pos 250)
    ∷ param "dm_speed_slew_mrad_s2" param_u16 Field.dm_speed_slew_mrad_s2 (pos 1) (pos 10000)
    ∷ param "dm_position_tolerance_mrad" param_u16 Field.dm_position_tolerance_mrad (pos 1)
        (pos 100)
    ∷ param "dm_velocity_tolerance_mrad_s" param_u16 Field.dm_velocity_tolerance_mrad_s (pos 1)
        (pos 500)
    ∷ param "dm_settle_ms" param_u16 Field.dm_settle_ms (pos 50) (pos 1000)
    ∷ param "dm_feedback_timeout_ms" param_u16 Field.dm_feedback_timeout_ms (pos 50) (pos 500)
    ∷ param "distance_speed_mode" param_u8 Field.distance_speed_mode (pos 0) (pos 1)
    ∷ param "distance_accel_rpm_s" param_u16 Field.distance_accel_rpm_s (pos 1) (pos 5000)
    ∷ param "distance_decel_rpm_s" param_u16 Field.distance_decel_rpm_s (pos 1) (pos 5000)
    ∷ param "distance_creep_rpm" param_u16 Field.distance_creep_rpm (pos 1) (pos 500)
    ∷ param "distance_stop_latency_ms" param_u16 Field.distance_stop_latency_ms (pos 0) (pos 2000)
    ∷ param "distance_brake_margin_mm" param_u16 Field.distance_brake_margin_mm (pos 0) (pos 1000)
    ∷ param "distance_settle_rpm" param_u16 Field.distance_settle_rpm (pos 0) (pos 100)
    ∷ param "distance_tolerance_mm" param_u16 Field.distance_tolerance_mm (pos 1) (pos 100)
    ∷ param "ina_uv_trip_mv" param_u16 Field.ina219_undervoltage_trip_mv (pos 1) (pos 25999)
    ∷ param "ina_uv_release_mv" param_u16 Field.ina219_undervoltage_release_mv (pos 2) (pos 26000)
    ∷ param "ina_oc_trip_ma" param_u16 Field.ina219_overcurrent_trip_ma (pos 1) (pos 6500)
    ∷ param "ina_oc_release_ma" param_u16 Field.ina219_overcurrent_release_ma (pos 0) (pos 6499)
    ∷ param "ina_trip_samples" param_u8 Field.ina219_trip_samples (pos 1) (pos 100)
    ∷ param "ina_release_samples" param_u8 Field.ina219_release_samples (pos 1) (pos 100)
    ∷ param "ina_comm_fail_samples" param_u8 Field.ina219_comm_fail_samples (pos 1) (pos 100)
    ∷ param "ina_latch_faults" param_u8 Field.ina219_latch_faults (pos 0) (pos 1)
    ∷ param "ina_motion_inhibit" param_u8 Field.ina219_motion_inhibit_enable (pos 0) (pos 1)
    ∷ param "gray_white_0" param_u16 Field.grayscale_white (pos 0) (pos 4095)
    ∷ param "gray_white_1" param_u16 (Field.grayscale_white + 1) (pos 0) (pos 4095)
    ∷ param "gray_white_2" param_u16 (Field.grayscale_white + 2) (pos 0) (pos 4095)
    ∷ param "gray_white_3" param_u16 (Field.grayscale_white + 3) (pos 0) (pos 4095)
    ∷ param "gray_white_4" param_u16 (Field.grayscale_white + 4) (pos 0) (pos 4095)
    ∷ param "gray_white_5" param_u16 (Field.grayscale_white + 5) (pos 0) (pos 4095)
    ∷ param "gray_white_6" param_u16 (Field.grayscale_white + 6) (pos 0) (pos 4095)
    ∷ param "gray_white_7" param_u16 (Field.grayscale_white + 7) (pos 0) (pos 4095)
    ∷ param "gray_black_0" param_u16 Field.grayscale_black (pos 0) (pos 4095)
    ∷ param "gray_black_1" param_u16 (Field.grayscale_black + 1) (pos 0) (pos 4095)
    ∷ param "gray_black_2" param_u16 (Field.grayscale_black + 2) (pos 0) (pos 4095)
    ∷ param "gray_black_3" param_u16 (Field.grayscale_black + 3) (pos 0) (pos 4095)
    ∷ param "gray_black_4" param_u16 (Field.grayscale_black + 4) (pos 0) (pos 4095)
    ∷ param "gray_black_5" param_u16 (Field.grayscale_black + 5) (pos 0) (pos 4095)
    ∷ param "gray_black_6" param_u16 (Field.grayscale_black + 6) (pos 0) (pos 4095)
    ∷ param "gray_black_7" param_u16 (Field.grayscale_black + 7) (pos 0) (pos 4095)
    ∷ param "gray_threshold" param_u16 Field.grayscale_threshold (pos 1) (pos 999)
    ∷ param "gray_hysteresis" param_u16 Field.grayscale_hysteresis (pos 0) (pos 998)
    ∷ param "gray_position_floor" param_u16 Field.grayscale_position_floor (pos 0) (pos 999)
    ∷ param "gray_min_strength" param_u16 Field.grayscale_min_line_strength (pos 1) (pos 8000)
    ∷ param "gray_track_mask" param_u8 Field.grayscale_track_mask (pos 1) (pos 255)
    ∷ param "lf_kp" param_i32 Field.linefollow_kp (pos 0) (pos 1000000)
    ∷ param "lf_kd" param_i32 Field.linefollow_kd (pos 0) (pos 1000000)
    ∷ param "lf_maxcorr" param_u16 Field.linefollow_max_correction_rpm (pos 0) (pos 500)
    ∷ param "lf_lost_hold_ms" param_u16 Field.linefollow_lost_hold_ms (pos 0) (pos 10000)
    ∷ param "lf_lost_stop_ms" param_u16 Field.linefollow_lost_stop_ms (pos 1) (pos 10000)
    ∷ param "lf_slew_permille_s" param_u16 Field.linefollow_correction_slew_permille_per_second
        (pos 1) (pos 65535)
    ∷ param "line_sensor_source" param_u8 Field.line_sensor_source (pos 0) (pos 1)
    ∷ param "ir_position_invert" param_u8 Field.infrared_position_invert (pos 0) (pos 1)
    ∷ param "ir_position_span_raw" param_u16 Field.infrared_position_span_raw (pos 0) (pos 32767)
    ∷ param "ir_adc_threshold" param_u16 Field.infrared_adc_threshold (pos 0) (pos 4095)
    ∷ param "ir_adc_hysteresis" param_u16 Field.infrared_adc_hysteresis (pos 0) (pos 1000)
    ∷ param "ir_lf_kp" param_i32 Field.infrared_linefollow_kp (pos 0) (pos 1000000)
    ∷ param "ir_lf_kd" param_i32 Field.infrared_linefollow_kd (pos 0) (pos 1000000)
    ∷ param "ir_lf_maxcorr" param_u16 Field.infrared_linefollow_max_correction_rpm (pos 0) (pos 500)
    ∷ param "ir_lf_slew_permille_s" param_u16
        Field.infrared_linefollow_correction_slew_permille_per_second (pos 1) (pos 65535)
    ∷ []
