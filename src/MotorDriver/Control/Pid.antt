-- ===== src/MotorDriver/Control/Pid.antt =====
-- MotorDriver/control/motor_control.cpp: the arithmetic of the control loops. Integers stand for the
-- signed types; the 64-bit sums and products do not leave their range.
use guga_pi.MotorDriver.Flag
use guga_pi.Common.{
  ℕ, if◌then◌else◌, pos, ℤ, ◌+◌, Bool, ◌==◌, ltb_ℤ, ◌^◌, ◌*◌, nat_abs, ◌≤◌, neg_ℤ, ◌-◌, leb_ℤ, ◌/◌,
  negsuc, int32, ◌||◌, ltb, ◌≡◌, pos_part, u8, sub32, tdiv, u16, true, ◌*ℤ◌, arith, false,
}
use guga_pi.MotorDriver.Control.{SpeedPidState}
use guga_pi.MotorDriver.Control.Duty.{capped}
use guga_pi.MotorDriver.Drv8701.{duty_percent_q8_scale}

abbrev pub pid_scale : ℕ
pid_scale = 16

unfoldable pub toggle_direction : ℕ → ℕ
toggle_direction direction =
    if direction == Flag.motor_direction_reverse
    then Flag.motor_direction_forward
    else Flag.motor_direction_reverse

unfoldable pub direction_from_register : ℕ → ℕ
direction_from_register value =
    if value == Flag.motor_direction_reverse
    then Flag.motor_direction_reverse
    else Flag.motor_direction_forward

unfoldable pub reset_pid : SpeedPidState → SpeedPidState
reset_pid s = record s {
  integral_q4_ms = pos 0;
  previous_error_rpm = pos 0;
  ramp_remainder = 0;
  hold_count = pos 0;
  previous_position_error = pos 0;
  previous_target_position = pos 0;
  position_integral_q4 = pos 0;
  control_target_rpm = 0;
  output_duty_q8 = 0;
  previous_mode = Flag.motor_mode_coast;
  previous_direction = Flag.motor_direction_forward;
  ramp_direction = 0;
  position_settle_until_ms = 0;
  hold_mode = false;
  position_at_target = false;
  initialized = false;
}

-- A value kept between -(low) and high.
abbrev pub clamped : ℕ → ℕ → ℤ → ℤ
clamped low high value =
    if ltb_ℤ (pos high) value
    then pos high
    else if ltb_ℤ value (neg_ℤ (pos low))
    then neg_ℤ (pos low)
    else value

unfoldable pub saturate_int16 : ℤ → ℤ
saturate_int16 value = clamped 32768 32767 value

unfoldable pub saturate_int32 : ℤ → ℤ
saturate_int32 value = clamped (2 ^ 31) (2 ^ 31 - 1) value

unfoldable pub clamp_duty_q8 : ℤ → ℕ → ℕ → ℕ
clamp_duty_q8 duty_q4 min_duty max_duty =
    let high = capped 100 max_duty in
    let low = capped high min_duty in
    if leb_ℤ duty_q4 (pos 0)
    then 0
    else let raised =
        if ltb (pos_part duty_q4) (low * pid_scale) then low * pid_scale else pos_part duty_q4 in
      let cut = if ltb (high * pid_scale) raised then high * pid_scale else raised in
      u16 (cut * duty_percent_q8_scale / pid_scale)

unfoldable pub duty_q8_to_percent : ℕ → ℕ
duty_q8_to_percent duty_q8 =
    let percent = (duty_q8 + duty_percent_q8_scale / 2) / duty_percent_q8_scale in
    u8 (if ltb 100 percent then 100 else percent)

unfoldable pub clamp_q4 : ℤ → ℕ → ℤ
clamp_q4 value max_rpm = clamped (max_rpm * pid_scale) (max_rpm * pid_scale) value

-- 1, -1 or 0.
unfoldable pub sign_of_int32 : ℤ → ℤ
sign_of_int32 value =
    if ltb_ℤ (pos 0) value then pos 1 else if ltb_ℤ value (pos 0) then negsuc 0 else pos 0

unfoldable pub time_before : ℕ → ℕ → Bool
time_before now_ms deadline_ms = ltb_ℤ (int32 (sub32 now_ms deadline_ms)) (pos 0)

unfoldable pub position_term_q4 : ℤ → ℕ → ℕ → ℤ
position_term_q4 error_count gain_q4_4 counts_per_rev =
    if gain_q4_4 == 0 || counts_per_rev == 0
    then pos 0
    else tdiv (error_count *ℤ pos gain_q4_4 *ℤ pos 60) counts_per_rev

unfoldable pub command_rpm_from_q4 : ℤ → ℕ → ℕ
command_rpm_from_q4 command_q4 max_rpm =
    let magnitude = nat_abs command_q4 in
    let cut = if ltb (max_rpm * pid_scale) magnitude then max_rpm * pid_scale else magnitude in
    u16 ((cut + pid_scale / 2) / pid_scale)

-- The duty that a speed command gets is at most the upper limit and at most 100 percent, both in
-- 256ths of a percent; a command above zero gets at least the lower limit, cut to the upper one, and
-- no other command gets any. The percentage that is reported is the rounded duty.
pub clamp_duty-between :
    (duty_q4 : ℤ) (min_duty max_duty : ℕ)
    → let duty = clamp_duty_q8 duty_q4 min_duty max_duty in
      (duty ≤ max_duty * 256)
      × (duty ≤ 25600)
      × (ltb_ℤ (pos 0) duty_q4 ≡ true → capped (capped 100 max_duty) min_duty * 256 ≤ duty)
      × (leb_ℤ duty_q4 (pos 0) ≡ true → duty ≡ 0)
      × (duty_q8_to_percent duty ≡ (duty + 128) / 256)
unfolding clamp_duty_q8 duty_q8_to_percent
clamp_duty-between duty_q4 min_duty max_duty = ground arith
