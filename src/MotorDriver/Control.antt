-- ===== src/MotorDriver/Control.antt =====
-- MotorDriver/control/motor_control.cpp: the state of a motor's control loop, and the ramp of the
-- speed target. The fields of 32 and 64 signed bits are integers; the int8_t is a pattern, -1 is
-- 255. The 64-bit products do not wrap: rate and time have 16 and 32 bits.
pub mod Ramp
pub mod Duty
pub mod Pid
pub mod Position
pub mod Speed
pub mod Bounded
pub mod Hysteresis
pub mod Within
pub mod Apply
pub mod Examples
use guga_pi.Common.{
  ℤ, ℕ, Bool, ltb, ◌*◌, if◌then◌else◌, ◌+◌, ◌!=◌, u32, ◌==◌, ◌/◌, ◌%◌, u16, ◌-◌, leb,
}

pub record SpeedPidState : Type 0 where
  pub integral_q4_ms : ℤ
  pub previous_error_rpm : ℤ
  pub ramp_remainder : ℕ
  pub hold_count : ℤ
  pub previous_position_error : ℤ
  pub previous_target_position : ℤ
  pub position_integral_q4 : ℤ
  pub last_update_ms : ℕ
  pub position_settle_until_ms : ℕ
  pub control_target_rpm : ℕ
  pub output_duty_q8 : ℕ
  pub previous_mode : ℕ
  pub previous_direction : ℕ
  pub ramp_direction : ℕ
  pub hold_mode : Bool
  pub position_at_target : Bool
  pub initialized : Bool

-- The stores of the branches that arrive.
abbrev pub arrive : SpeedPidState → ℕ → SpeedPidState
arrive s requested_rpm = record s {
  control_target_rpm = requested_rpm;
  ramp_remainder = 0;
  ramp_direction = 0;
}

-- From the step on: `s` has the direction of the ramp and the remainder to go on with.
unfoldable pub take_step : SpeedPidState → Bool → ℕ → ℕ → ℕ → SpeedPidState
take_step s accelerating requested_rpm rate elapsed_ms =
    let scaled_step = rate * elapsed_ms + s.ramp_remainder in
    let step_rpm = u32 (scaled_step / 1000) in
    let s1 = record s { ramp_remainder = u32 (scaled_step % 1000) } in
    let distance =
      if accelerating
      then u16 (requested_rpm - s.control_target_rpm)
      else u16 (s.control_target_rpm - requested_rpm) in
    if leb distance step_rpm
    then arrive s1 requested_rpm
    else if accelerating
    then record s1 { control_target_rpm = u16 (s.control_target_rpm + step_rpm) }
    else record s1 { control_target_rpm = u16 (s.control_target_rpm - step_rpm) }

-- `AdvanceControlTarget`, which returns the new `control_target_rpm`.
unfoldable pub advance_control_target : SpeedPidState → ℕ → ℕ → ℕ → ℕ → SpeedPidState
advance_control_target s requested_rpm accel_rpm_per_s decel_rpm_per_s elapsed_ms =
    let accelerating = ltb s.control_target_rpm requested_rpm in
    let ramp_direction = if accelerating then 1 else 255 in
    let rate = if accelerating then accel_rpm_per_s else decel_rpm_per_s in
    let s1 =
      if s.ramp_direction != ramp_direction
      then record s { ramp_remainder = 0; ramp_direction = ramp_direction }
      else s in
    if s.control_target_rpm == requested_rpm
    then record s { ramp_remainder = 0; ramp_direction = 0 }
    else if rate == 0
    then arrive s requested_rpm
    else take_step s1 accelerating requested_rpm rate elapsed_ms
