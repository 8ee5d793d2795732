-- ===== src/MotorDriver/Control/Speed.antt =====
-- MotorDriver/control/motor_control.cpp: one step of a motor's control loop in the speed mode, and
-- what comes before it in both modes.
use guga_pi.MotorDriver.Reg
use guga_pi.MotorDriver.Flag
use guga_pi.MotorDriver.RegisterMap.Write.{read}
use guga_pi.MotorDriver.RegisterMap.State.{
  speed_max_duty, speed_min_duty, speed_kp_q4_4, speed_ki_q4_4, speed_kd_q4_4, m1_target_rpm,
  m2_target_rpm, m1_target_position, m2_target_position, m1_counts_per_rev, m2_counts_per_rev,
}
use guga_pi.Common.{
  ℕ, Bool, ℤ, ◌==◌, ◌&&◌, if◌then◌else◌, not, pos, ◌||◌, true, sub32, ◌!=◌, ◌*◌, ltb, ◌==ℤ◌,
  pattern32, false, neg_ℤ, ◌+ℤ◌, ◌-ℤ◌, tdiv, ◌*ℤ◌, leb, nat_abs, ltb_ℤ, pattern16, int32,
}
use guga_pi.MotorDriver.RegisterMap.State.{
  RegisterMap, speed_accel_rpm_per_second, speed_decel_rpm_per_second, position_tolerance,
}
use guga_pi.MotorDriver.Control.{SpeedPidState, advance_control_target}
use guga_pi.MotorDriver.Control.Pid.{
  reset_pid, pid_scale, clamped, saturate_int32, clamp_duty_q8, duty_q8_to_percent, saturate_int16,
}
use guga_pi.MotorDriver.RegisterMap.Update.{
  update_speed_control_telemetry, update_hold_target, update_position_error,
  set_motor_duty_from_control, update_target_rpm_from_control, set_motor_output_from_control,
}
use guga_pi.MotorDriver.Control.Position.{update_position_motor}

abbrev pub speed_control_period_ms : ℕ
speed_control_period_ms = 10

abbrev pub position_control_period_ms : ℕ
position_control_period_ms = 100

abbrev pub pid_reference_period_ms : ℕ
pid_reference_period_ms = 100

abbrev pub maximum_pid_elapsed_ms : ℕ
maximum_pid_elapsed_ms = 100

-- What `UpdateSpeedMotor` reads of the register map at its start.
pub record Request : Type 0 where
  pub mode : ℕ
  pub direction : ℕ
  pub target_rpm : ℕ
  pub target_position : ℤ
  pub counts_per_rev : ℕ

unfoldable pub request : RegisterMap → Bool → Request
request r motor1 = record {
  mode = read r (if motor1 then Reg.m1_mode else Reg.m2_mode);
  direction = read r (if motor1 then Reg.m1_direction else Reg.m2_direction);
  target_rpm = if motor1 then m1_target_rpm r else m2_target_rpm r;
  target_position = int32 (if motor1 then m1_target_position r else m2_target_position r);
  counts_per_rev = if motor1 then m1_counts_per_rev r else m2_counts_per_rev r;
}

abbrev pub speed_mode : Request → Bool
speed_mode q = q.mode == Flag.motor_mode_speed

abbrev pub position_mode : Request → Bool
position_mode q = q.mode == Flag.motor_mode_position

abbrev pub hold_mode_of : Request → Bool
hold_mode_of q = speed_mode q && q.target_rpm == 0

abbrev pub direction_key : Request → ℕ
direction_key q = if speed_mode q then q.direction else Flag.motor_direction_forward

abbrev pub target_position_key : Request → ℤ
target_position_key q = if position_mode q then q.target_position else pos 0

abbrev pub is_uncontrolled : Request → Bool
is_uncontrolled q = (not (speed_mode q) && not (position_mode q)) || q.counts_per_rev == 0

abbrev differ : Bool → Bool → Bool
differ true b = not b
differ false b = b

abbrev pub is_changed : Request → SpeedPidState → Bool
is_changed q s =
    not s.initialized
    || s.previous_mode != q.mode
    || s.previous_direction != direction_key q
    || not (s.previous_target_position ==ℤ target_position_key q)
    || differ s.hold_mode (hold_mode_of q)

-- The new register map and state, and whether the output changed.
abbrev pub Updated : Type 0
Updated = RegisterMap × SpeedPidState × Bool

-- No control in this mode.
unfoldable pub leave_control : RegisterMap → SpeedPidState → Bool → Request → Updated
leave_control r s motor1 q =
    let s1 = reset_pid s in
    let r1 = update_speed_control_telemetry r motor1 0 0 0 0 in
    let duty = read r1 (if motor1 then Reg.m1_duty else Reg.m2_duty) in
    if (speed_mode q || position_mode q) && duty != 0
    then (set_motor_duty_from_control r1 motor1 0, s1, true)
    else (r1, s1, false)

-- A new mode, direction, target position or hold.
unfoldable pub enter_control : RegisterMap → SpeedPidState → Bool → Request → ℤ → ℕ → Updated
enter_control r s motor1 q count now_ms =
    let hold = hold_mode_of q in
    let s1 = record (reset_pid s) {
      hold_count = count;
      last_update_ms = now_ms;
      previous_mode = q.mode;
      previous_direction = direction_key q;
      previous_target_position = target_position_key q;
      hold_mode = hold;
      initialized = true;
    } in
    let held : Updated =
      let r1 = update_hold_target r motor1 (pattern32 s1.hold_count) in
      let r2 = update_position_error r1 motor1 0 in
      let r3 = update_speed_control_telemetry r2 motor1 0 0 0 0 in
      (
        set_motor_duty_from_control r3 motor1 0,
        record s1 { previous_position_error = pos 0; position_at_target = true },
        true,
      ) in
    let positioned : Updated =
      let position_error = saturate_int32 (q.target_position -ℤ count) in
      let r1 = update_position_error r motor1 (pattern32 position_error) in
      let r2 = update_target_rpm_from_control r1 motor1 0 in
      let r3 = update_speed_control_telemetry r2 motor1 0 0 0 0 in
      (
        set_motor_duty_from_control r3 motor1 0,
        record s1 {
          previous_position_error = position_error;
          position_at_target = leb (nat_abs position_error) (position_tolerance r1);
        },
        true,
      ) in
    if hold
    then held
    else if position_mode q
    then positioned
    else let r1 = update_speed_control_telemetry r motor1 0 0 0 0 in
      (set_motor_duty_from_control r1 motor1 0, s1, true)

-- The integral that is kept: cut to its limits, and the old one when the output is already at the
-- limit that the error pushes at.
unfoldable pub next_integral : RegisterMap → ℤ → ℤ → ℤ → ℕ → ℤ
next_integral r integral_q4_ms error_rpm derivative_rpm pid_elapsed_ms =
    let max_q4 = speed_max_duty r * pid_scale in
    let limit = max_q4 * pid_reference_period_ms in
    let proposed =
      clamped limit limit
        (integral_q4_ms +ℤ pos (speed_ki_q4_4 r) *ℤ error_rpm *ℤ pos pid_elapsed_ms) in
    let proposed_output_q4 =
      pos (speed_kp_q4_4 r) *ℤ error_rpm
      +ℤ tdiv proposed pid_reference_period_ms
      +ℤ pos (speed_kd_q4_4 r) *ℤ derivative_rpm in
    let saturating_high = ltb_ℤ (pos max_q4) proposed_output_q4 && ltb_ℤ (pos 0) error_rpm in
    let saturating_low = ltb_ℤ proposed_output_q4 (pos 0) && ltb_ℤ error_rpm (pos 0) in
    if not saturating_high && not saturating_low then proposed else integral_q4_ms

-- The speed loop, once its period is over.
unfoldable pub run_speed_pid :
    RegisterMap → SpeedPidState → Bool → Request → ℤ → ℕ → RegisterMap × SpeedPidState
run_speed_pid r s motor1 q measured_rpm elapsed_ms =
    let s1 =
      advance_control_target s q.target_rpm (speed_accel_rpm_per_second r)
        (speed_decel_rpm_per_second r) elapsed_ms in
    let command_rpm = s1.control_target_rpm in
    let measured_aligned =
      if q.direction == Flag.motor_direction_reverse then neg_ℤ measured_rpm else measured_rpm in
    let error_rpm = pos command_rpm -ℤ measured_aligned in
    let pid_elapsed_ms =
      if ltb maximum_pid_elapsed_ms elapsed_ms then maximum_pid_elapsed_ms else elapsed_ms in
    let derivative_rpm =
      tdiv ((error_rpm -ℤ s1.previous_error_rpm) *ℤ pos pid_reference_period_ms) pid_elapsed_ms in
    let integral = next_integral r s1.integral_q4_ms error_rpm derivative_rpm pid_elapsed_ms in
    let integral_q4 = tdiv integral pid_reference_period_ms in
    let output_q4 =
      pos (speed_kp_q4_4 r) *ℤ error_rpm
      +ℤ integral_q4
      +ℤ pos (speed_kd_q4_4 r) *ℤ derivative_rpm in
    let duty_q8 = clamp_duty_q8 output_q4 (speed_min_duty r) (speed_max_duty r) in
    let duty = duty_q8_to_percent duty_q8 in
    let r1 =
      update_speed_control_telemetry r motor1 command_rpm (pattern16 (saturate_int16 error_rpm))
        (pattern16 (saturate_int16 (int32 (pattern32 integral_q4)))) duty in
    (
      set_motor_output_from_control r1 motor1 duty q.direction,
      record s1 {
        previous_error_rpm = error_rpm;
        integral_q4_ms = integral;
        output_duty_q8 = duty_q8;
      },
    )

abbrev pub control_period_ms : Request → ℕ
control_period_ms q =
    if hold_mode_of q || position_mode q
    then position_control_period_ms
    else speed_control_period_ms

abbrev pub changed_output : RegisterMap × SpeedPidState → Updated
changed_output (r, s) = (r, s, true)

unfoldable pub update_speed_motor : RegisterMap → SpeedPidState → Bool → ℤ → ℤ → ℕ → Updated
update_speed_motor r s motor1 count measured_rpm now_ms =
    let q = request r motor1 in
    let elapsed_ms = sub32 now_ms s.last_update_ms in
    let s1 = record s { last_update_ms = now_ms } in
    if is_uncontrolled q
    then leave_control r s motor1 q
    else if is_changed q s
    then enter_control r s motor1 q count now_ms
    else if ltb elapsed_ms (control_period_ms q)
    then (r, s, false)
    else if hold_mode_of q || position_mode q
    then changed_output (
        update_position_motor r s1 motor1 (hold_mode_of q) q.target_position count q.counts_per_rev
          now_ms)
    else changed_output (run_speed_pid r s1 motor1 q measured_rpm elapsed_ms)
