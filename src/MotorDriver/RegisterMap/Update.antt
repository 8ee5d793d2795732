-- ===== src/MotorDriver/RegisterMap/Update.antt =====
-- MotorDriver/protocol/register_map.cpp: `Init`, and the writes of the control loop. The signed
-- arguments are the patterns of int16_t and int32_t.
use guga_pi.Common.{ℕ, Bool, false, ltb, u8, bit_and, bit_or, if◌then◌else◌}
use guga_pi.MotorDriver.Reg
use guga_pi.MotorDriver.Flag
use guga_pi.MotorDriver.RegisterMap.State.{RegisterMap, put, store_uint16, store_int16, store_int32}
use guga_pi.MotorDriver.RegisterMap.Status.{refresh_status}

unfoldable pub init : RegisterMap
init =
    let s0 : RegisterMap = record { registers = λ _. 0; timeout_active = false } in
    let s1 = put s0 Reg.device_id Flag.device_id in
    let s2 = put s1 Reg.fw_version Flag.firmware_version in
    let s3 = put s2 Reg.status (bit_or Flag.status_ready Flag.status_enabled) in
    let s4 = put s3 Reg.fault_flags 0 in
    let s5 = put s4 Reg.control_flags Flag.control_enable in
    let s6 = put s5 Reg.i2c_address Flag.default_i2c_address in
    let s7 = put s6 Reg.output_invert_flags 0x03 in
    let s8 = put s7 Reg.encoder_invert_flags 0x01 in
    let s9 = put s8 Reg.m1_mode Flag.motor_mode_coast in
    let s10 = put s9 Reg.m1_duty 0 in
    let s11 = put s10 Reg.m1_direction Flag.motor_direction_forward in
    let s12 = put s11 Reg.m1_status 0 in
    let s13 = put s12 Reg.m1_encoder_state 0 in
    let s14 = put s13 Reg.m2_mode Flag.motor_mode_coast in
    let s15 = put s14 Reg.m2_duty 0 in
    let s16 = put s15 Reg.m2_direction Flag.motor_direction_forward in
    let s17 = put s16 Reg.m2_status 0 in
    let s18 = put s17 Reg.m2_encoder_state 0 in
    let s19 = put s18 Reg.watchdog_timeout 100 in
    let s20 = put s19 Reg.encoder_control 0 in
    let s21 = put s20 Reg.speed_kp_q4_4 2 in
    let s22 = put s21 Reg.speed_ki_q4_4 2 in
    let s23 = put s22 Reg.speed_kd_q4_4 0 in
    let s24 = put s23 Reg.speed_max_duty 60 in
    let s25 = put s24 Reg.speed_min_duty 4 in
    let s26 = store_uint16 s25 Reg.speed_accel_rpm_per_s_0 600 in
    let s27 = store_uint16 s26 Reg.speed_decel_rpm_per_s_0 900 in
    let s28 = put s27 Reg.position_kp_q4_4 20 in
    let s29 = put s28 Reg.position_ki_q4_4 0 in
    let s30 = put s29 Reg.position_kd_q4_4 0 in
    let s31 = store_uint16 s30 Reg.position_max_rpm_0 40 in
    let s32 = store_uint16 s31 Reg.position_tolerance_0 400 in
    let s33 = put s32 Reg.position_min_duty 5 in
    let s34 = put s33 Reg.position_max_duty 25 in
    let s35 = store_uint16 s34 Reg.position_exit_tolerance_0 800 in
    let s36 = put s35 Reg.position_settle_10ms 10 in
    let s37 = store_int32 s36 Reg.m1_counts_per_rev_0 1456 in
    let s38 = store_int32 s37 Reg.m2_counts_per_rev_0 1456 in refresh_status s38

unfoldable pub update_encoder_snapshot : RegisterMap → ℕ → ℕ → ℕ → ℕ → ℕ → ℕ → RegisterMap
update_encoder_snapshot s m1_count m1_counts_per_second m1_state m2_count m2_counts_per_second
      m2_state =
    let s1 = store_int32 s Reg.m1_encoder_count_0 m1_count in
    let s2 = store_int32 s1 Reg.m1_encoder_cps_0 m1_counts_per_second in
    let s3 = put s2 Reg.m1_encoder_state (u8 (bit_and m1_state 0x03)) in
    let s4 = store_int32 s3 Reg.m2_encoder_count_0 m2_count in
    let s5 = store_int32 s4 Reg.m2_encoder_cps_0 m2_counts_per_second in
    put s5 Reg.m2_encoder_state (u8 (bit_and m2_state 0x03))

unfoldable pub update_measured_rpm : RegisterMap → ℕ → ℕ → RegisterMap
update_measured_rpm s m1_rpm m2_rpm =
    store_int16 (store_int16 s Reg.m1_measured_rpm_0 m1_rpm) Reg.m2_measured_rpm_0 m2_rpm

unfoldable pub update_speed_control_telemetry : RegisterMap → Bool → ℕ → ℕ → ℕ → ℕ → RegisterMap
update_speed_control_telemetry s motor1 control_rpm error_rpm integral_q4 duty =
    let s1 =
      store_uint16 s (if motor1 then Reg.m1_control_rpm_0 else Reg.m2_control_rpm_0) control_rpm in
    let s2 =
      store_int16 s1 (if motor1 then Reg.m1_speed_error_0 else Reg.m2_speed_error_0) error_rpm in
    let s3 =
      store_int16 s2 (if motor1 then Reg.m1_speed_integral_0 else Reg.m2_speed_integral_0)
        integral_q4 in
    put s3 (if motor1 then Reg.m1_control_duty else Reg.m2_control_duty) duty

unfoldable pub set_motor_output_from_control : RegisterMap → Bool → ℕ → ℕ → RegisterMap
set_motor_output_from_control s motor1 duty direction =
    let duty' = if ltb 100 duty then 100 else duty in
    let direction' =
      if ltb Flag.motor_direction_reverse direction
      then Flag.motor_direction_forward
      else direction in
    let s1 = put s (if motor1 then Reg.m1_duty else Reg.m2_duty) duty' in
    refresh_status (put s1 (if motor1 then Reg.m1_direction else Reg.m2_direction) direction')

unfoldable pub set_motor_duty_from_control : RegisterMap → Bool → ℕ → RegisterMap
set_motor_duty_from_control s motor1 duty =
    set_motor_output_from_control s motor1 duty
      (s.registers (if motor1 then Reg.m1_direction else Reg.m2_direction))

unfoldable pub update_target_rpm_from_control : RegisterMap → Bool → ℕ → RegisterMap
update_target_rpm_from_control s motor1 rpm =
    refresh_status
      (store_uint16 s (if motor1 then Reg.m1_target_rpm_0 else Reg.m2_target_rpm_0) rpm)

unfoldable pub update_hold_target : RegisterMap → Bool → ℕ → RegisterMap
update_hold_target s motor1 count =
    store_int32 s (if motor1 then Reg.m1_hold_count_0 else Reg.m2_hold_count_0) count

unfoldable pub update_position_error : RegisterMap → Bool → ℕ → RegisterMap
update_position_error s motor1 error =
    refresh_status
      (store_int32 s (if motor1 then Reg.m1_position_error_0 else Reg.m2_position_error_0) error)

unfoldable pub set_i2c_address : RegisterMap → ℕ → RegisterMap
set_i2c_address s address = put s Reg.i2c_address address

unfoldable pub clear_encoder_control : RegisterMap → RegisterMap
clear_encoder_control s = put s Reg.encoder_control 0
