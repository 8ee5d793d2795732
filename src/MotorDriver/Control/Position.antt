-- ===== src/MotorDriver/Control/Position.antt =====
-- MotorDriver/control/motor_control.cpp: one step of the position loop.
use guga_pi.MotorDriver.Control.{SpeedPidState, ℤ, ℕ, Bool}
use guga_pi.MotorDriver.RegisterMap.State.{
  RegisterMap, position_kp_q4_4, position_max_rpm, position_tolerance, position_exit_tolerance,
  position_ki_q4_4, position_kd_q4_4, position_settle_ms, position_min_duty, position_max_duty,
}
use guga_pi.MotorDriver.Flag
use guga_pi.Common.{
  ℕ, Bool, true, nat_abs, if◌then◌else◌, not, pos, ◌!=◌, ◌+ℤ◌, ◌-ℤ◌, ◌==ℤ◌, u32, ltb, ◌||◌, ◌==◌,
  ◌&&◌, ◌+◌, pattern32, false, leb, u16, ◌*◌, ltb_ℤ,
}
use guga_pi.MotorDriver.Control.Pid.{
  sign_of_int32, clamp_q4, saturate_int32, command_rpm_from_q4, position_term_q4, time_before,
}
use guga_pi.MotorDriver.RegisterMap.Update.{
  update_position_error, update_target_rpm_from_control, set_motor_output_from_control,
}
use guga_pi.MotorDriver.Drv8701.{duty_percent_q8_scale}
use guga_pi.MotorDriver.Control.Duty.{position_duty_from_command}

-- Whether the signs are opposite.
unfoldable pub sign_changed : ℤ → ℤ → Bool
sign_changed previous current =
    let previous_sign = sign_of_int32 previous in
    let current_sign = sign_of_int32 current in
    not (previous_sign ==ℤ pos 0)
    && not (current_sign ==ℤ pos 0)
    && not (previous_sign ==ℤ current_sign)

-- The stores of the branches that reach the target.
abbrev pub settle : SpeedPidState → RegisterMap → ℕ → SpeedPidState
settle s r now_ms = record s {
  position_at_target = true;
  position_integral_q4 = pos 0;
  position_settle_until_ms = u32 (now_ms + position_settle_ms r);
}

-- Whether the motor counts as at its target. The source reads the tolerances just before it stores
-- the position error, which changes none of them.
unfoldable pub update_at_target : RegisterMap → SpeedPidState → ℤ → ℕ → SpeedPidState
update_at_target r s position_error now_ms =
    let abs_error = nat_abs position_error in
    let enter_tolerance = position_tolerance r in
    let exit_tolerance =
      if ltb (position_exit_tolerance r) enter_tolerance
      then enter_tolerance
      else position_exit_tolerance r in
    let s1 =
      if sign_changed s.previous_position_error position_error && not s.position_at_target
      then settle s r now_ms
      else s in
    if s1.position_at_target
    then if not (time_before now_ms s1.position_settle_until_ms) && ltb exit_tolerance abs_error
      then record s1 { position_at_target = false }
      else s1
    else if leb abs_error enter_tolerance
    then settle s1 r now_ms
    else s1

abbrev pub has_position_gain : RegisterMap → Bool
has_position_gain r = position_kp_q4_4 r != 0 || position_ki_q4_4 r != 0 || position_kd_q4_4 r != 0

abbrev pub next_position_integral : RegisterMap → SpeedPidState → ℤ → ℕ → ℤ
next_position_integral r s position_error counts_per_rev =
    clamp_q4
      (s.position_integral_q4
        +ℤ position_term_q4 position_error (position_ki_q4_4 r) counts_per_rev)
      (position_max_rpm r)

abbrev pub position_command_q4 : RegisterMap → ℤ → ℤ → ℤ → ℕ → ℤ
position_command_q4 r position_error previous_error integral counts_per_rev =
    let derivative_count = saturate_int32 (position_error -ℤ previous_error) in
    clamp_q4
      (position_term_q4 position_error (position_kp_q4_4 r) counts_per_rev
        +ℤ integral
        +ℤ position_term_q4 derivative_count (position_kd_q4_4 r) counts_per_rev)
      (position_max_rpm r)

abbrev pub position_command_rpm : RegisterMap → ℤ → ℤ → ℕ
position_command_rpm r command_q4 position_error =
    let max_rpm = position_max_rpm r in
    let rpm = command_rpm_from_q4 command_q4 max_rpm in
    if rpm == 0
      && ltb (position_tolerance r) (nat_abs position_error)
      && ltb 0 max_rpm
      && has_position_gain r
    then 1
    else rpm

-- The integral, the speed, the duty and the direction that are asked for.
pub record PositionDrive : Type 0 where
  pub integral : ℤ
  pub command_rpm : ℕ
  pub output_duty : ℕ
  pub output_direction : ℕ

unfoldable pub position_drive : RegisterMap → SpeedPidState → ℤ → ℤ → ℕ → PositionDrive
position_drive r s position_error previous_error counts_per_rev =
    let integral = next_position_integral r s position_error counts_per_rev in
    let command_q4 = position_command_q4 r position_error previous_error integral counts_per_rev in
    let command_rpm = position_command_rpm r command_q4 position_error in
    if s.position_at_target
    then record {
      integral = s.position_integral_q4;
      command_rpm = 0;
      output_duty = 0;
      output_direction = Flag.motor_direction_forward;
    }
    else record {
      integral = integral;
      command_rpm = command_rpm;
      output_duty =
          position_duty_from_command command_rpm (position_max_rpm r) (position_min_duty r)
            (position_max_duty r);
      output_direction =
          if ltb_ℤ command_q4 (pos 0)
          then Flag.motor_direction_reverse
          else Flag.motor_direction_forward;
    }

-- `UpdatePositionMotor`, which always returns true.
unfoldable pub update_position_motor :
    RegisterMap → SpeedPidState → Bool → Bool → ℤ → ℤ → ℕ → ℕ → RegisterMap × SpeedPidState
update_position_motor r s motor1 hold_mode target_position count counts_per_rev now_ms =
    let position_target = if hold_mode then s.hold_count else target_position in
    let position_error = saturate_int32 (position_target -ℤ count) in
    let previous_error = s.previous_position_error in
    let r1 = update_position_error r motor1 (pattern32 position_error) in
    let s1 = update_at_target r1 s position_error now_ms in
    let d = position_drive r1 s1 position_error previous_error counts_per_rev in
    let r2 = if hold_mode then r1 else update_target_rpm_from_control r1 motor1 d.command_rpm in
    let r3 = set_motor_output_from_control r2 motor1 d.output_duty d.output_direction in
    (
      r3,
      record s1 {
        position_integral_q4 = d.integral;
        output_duty_q8 = u16 (d.output_duty * duty_percent_q8_scale);
        previous_position_error = position_error;
      },
    )
