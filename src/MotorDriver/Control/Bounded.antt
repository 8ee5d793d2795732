-- ===== src/MotorDriver/Control/Bounded.antt =====
-- MotorDriver/control/motor_control.cpp: the numbers that a control loop keeps stay small, so none
-- of its sums leaves its type, whatever is measured.
use guga_pi.MotorDriver.Control.{SpeedPidState, advance_control_target, take_step}
use guga_pi.Common.{
  ℕ, nat_abs, ℤ, arith, ◌≤◌, Bool, ◌*◌, ◌+ℤ◌, pos, ◌*ℤ◌, ◌<◌, ◌^◌, if◌then◌else◌, ◌-ℤ◌, pattern32,
  Bool-cases, inl, inr,
}
use guga_pi.MotorDriver.Control.Pid.{
  reset_pid, clamped, clamp_q4, clamp_duty-between, saturate_int32,
}
use guga_pi.MotorDriver.Control.Speed.{
  leave_control, enter_control, next_integral, Request, run_speed_pid,
}
use guga_pi.MotorDriver.RegisterMap.State.{
  RegisterMap, speed_max_duty, speed_ki_q4_4, speed_accel_rpm_per_second,
  speed_decel_rpm_per_second, position_max_rpm, speed_min_duty, position_min_duty,
  position_max_duty, load_uint16,
}
use guga_pi.MotorDriver.Control.Position.{update_at_target, position_drive, update_position_motor}
use guga_pi.MotorDriver.Control.Duty.{position_duty-between}
use guga_pi.MotorDriver.RegisterMap.Update.{update_position_error}

-- The limits are those of the largest register values: 100 percent for the integral of the speed
-- loop and for the output, 65535 rpm for the integral of the position loop.
pub record IsBounded (s : SpeedPidState) : Type 0 where
  pub speed_integral : nat_abs s.integral_q4_ms ≤ 160000
  pub position_integral : nat_abs s.position_integral_q4 ≤ 1048560
  pub duty : s.output_duty_q8 ≤ 25600

nat_abs-clamped : (high : ℕ) (a : ℤ) → nat_abs (clamped high high a) ≤ high
nat_abs-clamped high a = ground arith

reset-IsBounded : (s : SpeedPidState) → IsBounded (reset_pid s)
unfolding reset_pid
reset-IsBounded s = ground arith

pub leave-IsBounded :
    (r : RegisterMap) (s : SpeedPidState) (motor1 : Bool) (q : Request)
    → IsBounded (leave_control r s motor1 q).1
unfolding leave_control
leave-IsBounded r s motor1 q = ground (arith, reset-IsBounded s)

pub enter-IsBounded :
    (r : RegisterMap) (s : SpeedPidState) (motor1 : Bool) (q : Request) (count : ℤ) (now : ℕ)
    → IsBounded (enter_control r s motor1 q count now).1
unfolding enter_control reset_pid
enter-IsBounded r s motor1 q count now = ground arith

-- The integral that is kept is the old one or one within the limits of the duty.
next_integral-bounded :
    (r : RegisterMap) (old error derivative : ℤ) (elapsed : ℕ)
    → speed_max_duty r ≤ 100
    → nat_abs old ≤ 160000
    → nat_abs (next_integral r old error derivative elapsed) ≤ 160000
unfolding next_integral
next_integral-bounded r old error derivative elapsed h k = ground (
  arith,
  nat_abs-clamped (speed_max_duty r * 16 * 100)
      (old +ℤ pos (speed_ki_q4_4 r) *ℤ error *ℤ pos elapsed),
)

-- The ramp touches none of the numbers.
ramp-IsBounded :
    (s : SpeedPidState) (requested accel decel elapsed : ℕ)
    → IsBounded s
    → IsBounded (advance_control_target s requested accel decel elapsed)
unfolding advance_control_target take_step
ramp-IsBounded s requested accel decel elapsed v = ground arith

pub run_speed_pid-IsBounded :
    (r : RegisterMap) (s : SpeedPidState) (motor1 : Bool) (q : Request) (rpm : ℤ) (elapsed : ℕ)
    → speed_max_duty r ≤ 100
    → IsBounded s
    → IsBounded (run_speed_pid r s motor1 q rpm elapsed).1
unfolding run_speed_pid
run_speed_pid-IsBounded r s motor1 q rpm elapsed h v =
    let accel = speed_accel_rpm_per_second r in
    let decel = speed_decel_rpm_per_second r in
    let t = ramp-IsBounded s q.target_rpm accel decel elapsed v in
    record {
      speed_integral = next_integral-bounded r _ _ _ _ h t.speed_integral;
      position_integral = t.position_integral;
      duty = (clamp_duty-between _ (speed_min_duty r) (speed_max_duty r)).1;
    }

at_target-IsBounded :
    (r : RegisterMap) (s : SpeedPidState) (error : ℤ) (now : ℕ)
    → IsBounded s
    → IsBounded (update_at_target r s error now)
unfolding update_at_target
at_target-IsBounded r s error now v = ground arith

clamp_q4-bounded : (a : ℤ) (max_rpm : ℕ) → max_rpm < 2 ^ 16 → nat_abs (clamp_q4 a max_rpm) ≤ 1048560
unfolding clamp_q4
clamp_q4-bounded a max_rpm h = omega (arith, nat_abs-clamped (max_rpm * 16) a)

-- The duty of a position step is at most 100 percent.
position_drive-bounded :
    (r : RegisterMap) (s : SpeedPidState) (error previous : ℤ) (counts_per_rev : ℕ)
    → position_max_rpm r < 2 ^ 16
    → nat_abs s.position_integral_q4 ≤ 1048560
    → let d = position_drive r s error previous counts_per_rev in
      (nat_abs d.integral ≤ 1048560) × (d.output_duty ≤ 100)
unfolding position_drive
position_drive-bounded r s error previous counts_per_rev h k =
    elim (Bool-cases s.position_at_target) [
      | inl e ↦ rw e (k, omega arith)
      | inr e ↦ rw e (
        clamp_q4-bounded _ (position_max_rpm r) h,
        (position_duty-between _ (position_max_rpm r) (position_min_duty r) (position_max_duty r)
            h).1,
      )
    ]

pub position-IsBounded :
    (r : RegisterMap) (s : SpeedPidState) (motor1 hold : Bool) (target count : ℤ) (per now : ℕ)
    → IsBounded s
    → IsBounded (update_position_motor r s motor1 hold target count per now).1
unfolding update_position_motor load_uint16
position-IsBounded r s motor1 hold target count per now v =
    let error = saturate_int32 ((if hold then s.hold_count else target) -ℤ count) in
    let r1 = update_position_error r motor1 (pattern32 error) in
    let s1 = update_at_target r1 s error now in
    let t = at_target-IsBounded r1 s error now v in
    let d =
      position_drive-bounded r1 s1 error s.previous_position_error per (omega arith)
        t.position_integral in
    record { speed_integral = t.speed_integral; position_integral = d.0; duty = omega (arith, d.1) }
