-- ===== src/MotorDriver/RegisterMap/Status.antt =====
-- MotorDriver/protocol/register_map.cpp: the status registers, and the stop after a timeout.
use guga_pi.Common.{
  ℕ, ◌-◌, ◌^◌, Bool, true, false, not, ◌&&◌, ◌||◌, Array, update, u8, ltb, leb, ◌==◌, ◌!=◌, bit_and,
  bit_or, if◌then◌else◌,
}
use guga_pi.MotorDriver.Reg
use guga_pi.MotorDriver.Flag
use guga_pi.MotorDriver.RegisterMap.State.{
  RegisterMap, put, load_int32, is_enabled, position_tolerance,
}

unfoldable pub has_active_command : RegisterMap → Bool
has_active_command s =
    if not (is_enabled s) || s.timeout_active
    then false
    else if r Reg.m1_mode == Flag.motor_mode_run && ltb 0 (r Reg.m1_duty)
    then true
    else if r Reg.m2_mode == Flag.motor_mode_run && ltb 0 (r Reg.m2_duty)
    then true
    else if r Reg.m1_mode == Flag.motor_mode_speed
    then true
    else if r Reg.m2_mode == Flag.motor_mode_speed
    then true
    else if r Reg.m1_mode == Flag.motor_mode_position
    then true
    else r Reg.m2_mode == Flag.motor_mode_position
  where
    open s use {registers as r}

-- The magnitude of an int32_t pattern.
abbrev pub abs_int32 : ℕ → ℕ
abs_int32 w = if leb (2 ^ 31) w then 2 ^ 32 - w else w

unfoldable pub position_at_target : RegisterMap → Bool → Bool
position_at_target s motor1 =
    let mode = s.registers (if motor1 then Reg.m1_mode else Reg.m2_mode) in
    let error =
      load_int32 s.registers
        (if motor1 then Reg.m1_position_error_0 else Reg.m2_position_error_0) in
    if mode != Flag.motor_mode_position then false else leb (abs_int32 error) (position_tolerance s)

unfoldable pub motor_status : RegisterMap → Bool → ℕ → ℕ → ℕ → ℕ
motor_status s motor1 mode duty direction =
    let active =
      is_enabled s
      && not s.timeout_active
      && ((mode == Flag.motor_mode_run && ltb 0 duty)
          || mode == Flag.motor_mode_speed
          || mode == Flag.motor_mode_position) in
    let status1 = if active then bit_or 0 Flag.motor_status_active else 0 in
    let status2 =
      if direction == Flag.motor_direction_reverse
      then bit_or status1 Flag.motor_status_reverse
      else status1 in
    if position_at_target s motor1 then bit_or status2 Flag.motor_status_at_target else status2

unfoldable pub refresh_status : RegisterMap → RegisterMap
refresh_status s =
    let enabled = is_enabled s in
    let status1 =
      if enabled then bit_or Flag.status_ready Flag.status_enabled else Flag.status_ready in
    let m1_status = motor_status s true (r Reg.m1_mode) (r Reg.m1_duty) (r Reg.m1_direction) in
    let m2_status = motor_status s false (r Reg.m2_mode) (r Reg.m2_duty) (r Reg.m2_direction) in
    let s1 = put s Reg.m1_status m1_status in
    let s2 = put s1 Reg.m2_status m2_status in
    let s3 = put s2 Reg.position_status (
      u8 (
        bit_or (if position_at_target s2 true then Flag.position_status_m1_at_target else 0)
          (if position_at_target s2 false then Flag.position_status_m2_at_target else 0))) in
    let status2 =
      if enabled
        && not s.timeout_active
        && bit_and (bit_or m1_status m2_status) Flag.motor_status_active != 0
      then bit_or status1 Flag.status_active
      else status1 in
    let status3 = if s.timeout_active then bit_or status2 Flag.status_timeout else status2 in
    put s3 Reg.status status3
  where
    open s use {registers as r}

unfoldable pub set_timeout_active : RegisterMap → Bool → RegisterMap
set_timeout_active s active = refresh_status (record s { timeout_active = active })

unfoldable pub clear_motor_motion : Array → Bool → Array
clear_motor_motion t motor1 =
    let t1 = update t (if motor1 then Reg.m1_mode else Reg.m2_mode) Flag.motor_mode_coast in
    let t2 = update t1 (if motor1 then Reg.m1_duty else Reg.m2_duty) 0 in
    let t3 = update t2 (if motor1 then Reg.m1_target_rpm_0 else Reg.m2_target_rpm_0) 0 in
    update t3 (if motor1 then Reg.m1_target_rpm_1 else Reg.m2_target_rpm_1) 0

unfoldable pub force_coast_on_timeout : RegisterMap → RegisterMap
force_coast_on_timeout s =
    let t = clear_motor_motion (clear_motor_motion s.registers true) false in
    let faults = u8 (bit_or (t Reg.fault_flags) Flag.fault_watchdog_timeout) in
    refresh_status (record s { registers = update t Reg.fault_flags faults; timeout_active = true })
