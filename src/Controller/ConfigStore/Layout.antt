-- ===== src/Controller/ConfigStore/Layout.antt =====
-- gugaPI/app/config_store.cpp: the order of the fields in the stored payload, as `EncodePayload` and
-- `EncodeInfraredExtension` append them; `layout_v3` is what the third version added.
use guga_pi.Controller.ConfigStore.Field
use guga_pi.Controller.ConfigStore.Table.{ParamType, param_u8, param_u16, param_u32, param_i32}
use guga_pi.Common.{ℕ, List, ◌∷◌, [], ◌+◌, ◌++◌}

-- The call that appends a field (AppendU8 is `param_u8`), and the field.
abbrev pub Entry : Type 0
Entry = ParamType × ℕ

abbrev pub layout_wheels : List Entry
layout_wheels =
    (param_u32, Field.left_counts_per_rev)
    ∷ (param_u32, Field.right_counts_per_rev)
    ∷ (param_u32, Field.wheel_radius_mm)
    ∷ (param_u32, Field.wheel_track_mm)
    ∷ (param_u16, Field.max_wheel_rpm)
    ∷ []

abbrev pub layout_inverts : List Entry
layout_inverts =
    (param_u8, Field.motor_output_invert_flags) ∷ (param_u8, Field.motor_encoder_invert_flags) ∷ []

abbrev pub layout_loops : List Entry
layout_loops =
    (param_u8, Field.speed_kp_q4_4)
    ∷ (param_u8, Field.speed_ki_q4_4)
    ∷ (param_u8, Field.speed_kd_q4_4)
    ∷ (param_u8, Field.speed_max_duty)
    ∷ (param_u8, Field.speed_min_duty)
    ∷ (param_u8, Field.position_kp_q4_4)
    ∷ (param_u8, Field.position_ki_q4_4)
    ∷ (param_u8, Field.position_kd_q4_4)
    ∷ (param_u16, Field.position_max_rpm)
    ∷ (param_u16, Field.position_tolerance_counts)
    ∷ (param_i32, Field.gy931_roll_zero_mdeg)
    ∷ (param_i32, Field.gy931_pitch_zero_mdeg)
    ∷ (param_i32, Field.gy931_yaw_zero_mdeg)
    ∷ (param_i32, Field.imu_accel_bias_x_mg)
    ∷ (param_i32, Field.imu_accel_bias_y_mg)
    ∷ (param_i32, Field.imu_accel_bias_z_mg)
    ∷ (param_i32, Field.imu_gyro_bias_x_mdps)
    ∷ (param_i32, Field.imu_gyro_bias_y_mdps)
    ∷ (param_i32, Field.imu_gyro_bias_z_mdps)
    ∷ []

abbrev pub layout_v3 : List Entry
layout_v3 =
    (param_i32, Field.heading_kp)
    ∷ (param_i32, Field.heading_max_correction_rpm)
    ∷ (param_i32, Field.heading_turn_max_rpm)
    ∷ (param_i32, Field.heading_turn_min_rpm)
    ∷ (param_i32, Field.heading_tolerance_mdeg)
    ∷ (param_u16, Field.heading_settle_ms)
    ∷ []

abbrev pub layout_v4 : List Entry
layout_v4 =
    (param_u16, Field.ina219_undervoltage_trip_mv)
    ∷ (param_u16, Field.ina219_undervoltage_release_mv)
    ∷ (param_u16, Field.ina219_overcurrent_trip_ma)
    ∷ (param_u16, Field.ina219_overcurrent_release_ma)
    ∷ (param_u8, Field.ina219_trip_samples)
    ∷ (param_u8, Field.ina219_release_samples)
    ∷ (param_u8, Field.ina219_comm_fail_samples)
    ∷ (param_u8, Field.ina219_latch_faults)
    ∷ (param_u8, Field.ina219_motion_inhibit_enable)
    ∷ []

abbrev pub layout_v5 : List Entry
layout_v5 =
    (param_u16, Field.grayscale_white)
    ∷ (param_u16, Field.grayscale_white + 1)
    ∷ (param_u16, Field.grayscale_white + 2)
    ∷ (param_u16, Field.grayscale_white + 3)
    ∷ (param_u16, Field.grayscale_white + 4)
    ∷ (param_u16, Field.grayscale_white + 5)
    ∷ (param_u16, Field.grayscale_white + 6)
    ∷ (param_u16, Field.grayscale_white + 7)
    ∷ (param_u16, Field.grayscale_black)
    ∷ (param_u16, Field.grayscale_black + 1)
    ∷ (param_u16, Field.grayscale_black + 2)
    ∷ (param_u16, Field.grayscale_black + 3)
    ∷ (param_u16, Field.grayscale_black + 4)
    ∷ (param_u16, Field.grayscale_black + 5)
    ∷ (param_u16, Field.grayscale_black + 6)
    ∷ (param_u16, Field.grayscale_black + 7)
    ∷ (param_u16, Field.grayscale_threshold)
    ∷ []

abbrev pub layout_v6 : List Entry
layout_v6 =
    (param_u16, Field.grayscale_hysteresis)
    ∷ (param_u16, Field.grayscale_position_floor)
    ∷ (param_u16, Field.grayscale_min_line_strength)
    ∷ (param_u8, Field.grayscale_track_mask)
    ∷ (param_i32, Field.linefollow_kp)
    ∷ (param_i32, Field.linefollow_kd)
    ∷ (param_u16, Field.linefollow_max_correction_rpm)
    ∷ (param_u16, Field.linefollow_lost_hold_ms)
    ∷ (param_u16, Field.linefollow_lost_stop_ms)
    ∷ []

abbrev pub layout_v7 : List Entry
layout_v7 = (param_u32, Field.wheel_radius_um) ∷ []

abbrev pub layout_v8 : List Entry
layout_v8 =
    (param_u8, Field.distance_speed_mode)
    ∷ (param_u16, Field.distance_accel_rpm_s)
    ∷ (param_u16, Field.distance_decel_rpm_s)
    ∷ (param_u16, Field.distance_creep_rpm)
    ∷ (param_u16, Field.distance_stop_latency_ms)
    ∷ (param_u16, Field.distance_brake_margin_mm)
    ∷ (param_u16, Field.distance_settle_rpm)
    ∷ (param_u16, Field.distance_tolerance_mm)
    ∷ []

abbrev pub layout_v9 : List Entry
layout_v9 = (param_u16, Field.speed_accel_rpm_s) ∷ (param_u16, Field.speed_decel_rpm_s) ∷ []

abbrev pub layout_v11 : List Entry
layout_v11 = (param_u16, Field.linefollow_correction_slew_permille_per_second) ∷ []

abbrev pub layout_v12 : List Entry
layout_v12 =
    (param_u16, Field.heading_turn_brake_ms)
    ∷ (param_u16, Field.heading_turn_brake_margin_mdeg)
    ∷ (param_u16, Field.heading_turn_settle_rate_mdps)
    ∷ (param_u16, Field.heading_turn_settle_rpm)
    ∷ []

abbrev pub layout_v13 : List Entry
layout_v13 =
    (param_i32, Field.heading_lock_kp)
    ∷ (param_i32, Field.heading_lock_kd)
    ∷ (param_u16, Field.heading_lock_wake_mdeg)
    ∷ (param_u16, Field.heading_lock_settle_mdeg)
    ∷ (param_u16, Field.heading_lock_min_rpm)
    ∷ (param_u16, Field.heading_lock_max_rpm)
    ∷ (param_u16, Field.heading_lock_settle_rate_mdps)
    ∷ (param_u16, Field.heading_lock_settle_rpm)
    ∷ (param_u16, Field.heading_lock_settle_ms)
    ∷ (param_u16, Field.heading_lock_timeout_ms)
    ∷ []

abbrev pub layout_v14 : List Entry
layout_v14 = (param_u16, Field.road_align_distance_mm) ∷ (param_u16, Field.road_align_rpm) ∷ []

abbrev pub layout_v15 : List Entry
layout_v15 =
    (param_u16, Field.road_turn_outer_max_rpm)
    ∷ (param_u16, Field.road_turn_inner_reverse_max_rpm)
    ∷ []

abbrev pub layout_dm : List Entry
layout_dm =
    (param_u16, Field.dm_position_kp_milli)
    ∷ (param_u16, Field.dm_position_kd_milli)
    ∷ (param_u16, Field.dm_speed_kd_milli)
    ∷ (param_u16, Field.dm_max_velocity_mrad_s)
    ∷ (param_u16, Field.dm_max_tracking_error_mrad)
    ∷ (param_u16, Field.dm_speed_slew_mrad_s2)
    ∷ (param_u16, Field.dm_position_tolerance_mrad)
    ∷ (param_u16, Field.dm_velocity_tolerance_mrad_s)
    ∷ (param_u16, Field.dm_settle_ms)
    ∷ (param_u16, Field.dm_feedback_timeout_ms)
    ∷ []

abbrev pub layout_infrared : List Entry
layout_infrared =
    (param_u8, Field.line_sensor_source)
    ∷ (param_u8, Field.infrared_position_invert)
    ∷ (param_u16, Field.infrared_position_span_raw)
    ∷ (param_u16, Field.infrared_adc_threshold)
    ∷ (param_u16, Field.infrared_adc_hysteresis)
    ∷ (param_i32, Field.infrared_linefollow_kp)
    ∷ (param_i32, Field.infrared_linefollow_kd)
    ∷ (param_u16, Field.infrared_linefollow_max_correction_rpm)
    ∷ (param_u16, Field.infrared_linefollow_correction_slew_permille_per_second)
    ∷ []

abbrev pub layout_main : List Entry
layout_main =
    layout_wheels
    ++ (layout_inverts
        ++ (layout_loops
            ++ (layout_v3
                ++ (layout_v4
                    ++ (layout_v5
                        ++ (layout_v6
                            ++ (layout_v7
                                ++ (layout_v8
                                    ++ (layout_v9
                                        ++ (layout_v11
                                            ++ (layout_v12
                                                ++ (layout_v13
                                                    ++ (layout_v14
                                                        ++ (layout_v15 ++ (layout_dm)))))))))))))))
