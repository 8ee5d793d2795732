-- ===== src/MotorDriver/Control/Within.antt =====
-- MotorDriver/control/motor_control.cpp: a step of a control loop keeps every register in its range
-- and its own state bounded.
use guga_pi.MotorDriver.Reg
use guga_pi.MotorDriver.RegisterMap.State.{speed_max_duty}
use guga_pi.Common.{false}
use guga_pi.MotorDriver.RegisterMap.State.{RegisterMap}
use guga_pi.MotorDriver.RegisterMap.Update.{
  set_motor_duty_from_control, update_speed_control_telemetry,
}
use guga_pi.MotorDriver.Control.Speed.{
  leave_control, enter_control, run_speed_pid, update_speed_motor, Request, speed_mode,
  hold_mode_of, request, position_mode, is_uncontrolled, is_changed, control_period_ms,
}
use guga_pi.MotorDriver.Control.Pid.{duty_q8_to_percent, clamp_duty_q8}
use guga_pi.MotorDriver.Control.Position.{update_position_motor}
use guga_pi.MotorDriver.RegisterMap.Limits.{limit, IsWithin}
use guga_pi.Common.{
  Bool, ℕ, ◌<◌, ℤ, Bool-cases, arith, ◌≤◌, ◌||◌, inl, sub32, true, ◌&&◌, pattern32, inr,
  if◌then◌else◌, ◌!=◌, ltb,
}
use guga_pi.MotorDriver.Control.{SpeedPidState}
use guga_pi.MotorDriver.RegisterMap.Write.{is_plain_register, read}
use guga_pi.MotorDriver.RegisterMap.Ranges.{
  output-IsWithin, reports-IsWithin, error-IsWithin, rpm-IsWithin, hold-IsWithin,
}
use guga_pi.MotorDriver.Control.Bounded.{
  IsBounded, leave-IsBounded, enter-IsBounded, position-IsBounded, run_speed_pid-IsBounded,
}

telemetry-IsWithin :
    (r : RegisterMap) (motor1 : Bool)
    → IsWithin r.registers
    → IsWithin (update_speed_control_telemetry r motor1 0 0 0 0).registers
telemetry-IsWithin r motor1 w = reports-IsWithin r motor1 0 0 0 0 (omega arith) w

duty-IsWithin :
    (r : RegisterMap) (motor1 : Bool) (duty : ℕ)
    → IsWithin r.registers
    → IsWithin (set_motor_duty_from_control r motor1 duty).registers
unfolding set_motor_duty_from_control
duty-IsWithin r motor1 duty w = output-IsWithin r motor1 duty _ w

leave-IsWithin :
    (r : RegisterMap) (s : SpeedPidState) (motor1 : Bool) (q : Request)
    → IsWithin r.registers
    → IsWithin (leave_control r s motor1 q).0.registers
unfolding leave_control
leave-IsWithin r s motor1 q w =
    let r1 = update_speed_control_telemetry r motor1 0 0 0 0 in
    let w1 = telemetry-IsWithin r motor1 w in
    elim (Bool-cases (
      (speed_mode q || position_mode q)
      && read r1 (if motor1 then Reg.m1_duty else Reg.m2_duty) != 0)) [
        | inl e ↦ rw e (duty-IsWithin r1 motor1 0 w1)
        | inr e ↦ rw e w1
      ]

enter-IsWithin :
    (r : RegisterMap) (s : SpeedPidState) (motor1 : Bool) (q : Request) (count : ℤ) (now : ℕ)
    → IsWithin r.registers
    → IsWithin (enter_control r s motor1 q count now).0.registers
unfolding enter_control
enter-IsWithin r s motor1 q count now w = elim (Bool-cases (hold_mode_of q)) [
  | inl e ↦ rw e (
      duty-IsWithin _ motor1 0 (
        telemetry-IsWithin _ motor1
          (error-IsWithin _ motor1 0 (hold-IsWithin r motor1 (pattern32 count) w))))
  | inr e ↦ rw e (elim (Bool-cases (position_mode q)) [
    | inl e' ↦ rw e' (
        duty-IsWithin _ motor1 0
          (telemetry-IsWithin _ motor1 (rpm-IsWithin _ motor1 0 (error-IsWithin r motor1 _ w))))
    | inr e' ↦ rw e' (duty-IsWithin _ motor1 0 (telemetry-IsWithin r motor1 w))
  ])
]

percent-lt : (duty_q8 : ℕ) → duty_q8_to_percent duty_q8 < 256
unfolding duty_q8_to_percent
percent-lt duty_q8 = omega arith

run_speed_pid-IsWithin :
    (r : RegisterMap) (s : SpeedPidState) (motor1 : Bool) (q : Request) (rpm : ℤ) (elapsed : ℕ)
    → IsWithin r.registers
    → IsWithin (run_speed_pid r s motor1 q rpm elapsed).0.registers
unfolding run_speed_pid
run_speed_pid-IsWithin r s motor1 q rpm elapsed w =
    output-IsWithin _ motor1 _ q.direction
      (reports-IsWithin r motor1 _ _ _ _ (percent-lt (clamp_duty_q8 _ _ _)) w)

position-IsWithin :
    (r : RegisterMap) (s : SpeedPidState) (motor1 hold : Bool) (target count : ℤ) (per now : ℕ)
    → IsWithin r.registers
    → IsWithin (update_position_motor r s motor1 hold target count per now).0.registers
unfolding update_position_motor
position-IsWithin r s motor1 true target count per now w =
    output-IsWithin _ motor1 _ _ (error-IsWithin r motor1 _ w)
position-IsWithin r s motor1 false target count per now w =
    output-IsWithin _ motor1 _ _ (rpm-IsWithin _ motor1 _ (error-IsWithin r motor1 _ w))

max_duty-limit : (r : RegisterMap) → IsWithin r.registers → speed_max_duty r ≤ 100
unfolding limit is_plain_register
max_duty-limit r w = w Reg.speed_max_duty (omega arith)

-- A step of a motor's control loop, in any mode and on any measured count and speed, keeps every
-- register in its range, the integral of the speed loop within 100 percent of duty for 100
-- milliseconds, that of the position loop within 65535 rpm, and the output within 100 percent.
pub update_speed_motor-IsBounded :
    (r : RegisterMap) (s : SpeedPidState) (motor1 : Bool) (count rpm : ℤ) (now : ℕ)
    → IsWithin r.registers
    → IsBounded s
    → let u = update_speed_motor r s motor1 count rpm now in IsWithin u.0.registers × IsBounded u.1
unfolding update_speed_motor
update_speed_motor-IsBounded r s motor1 count rpm now w v = elim (Bool-cases (is_uncontrolled q)) [
  | inl e ↦ rw e (leave-IsWithin r s motor1 q w, leave-IsBounded r s motor1 q)
  | inr e ↦ rw e (elim (Bool-cases (is_changed q s)) [
    | inl e1 ↦
        rw e1 (enter-IsWithin r s motor1 q count now w, enter-IsBounded r s motor1 q count now)
    | inr e1 ↦ rw e1 (elim (Bool-cases (ltb elapsed (control_period_ms q))) [
      | inl e2 ↦ rw e2 (w, v)
      | inr e2 ↦ rw e2 (elim (Bool-cases (hold_mode_of q || position_mode q)) [
        | inl e3 ↦ rw e3 (
          position-IsWithin r s1 motor1 (hold_mode_of q) q.target_position count q.counts_per_rev
              now w,
          position-IsBounded r s1 motor1 (hold_mode_of q) q.target_position count q.counts_per_rev
              now v1,
        )
        | inr e3 ↦ rw e3 (
          run_speed_pid-IsWithin r s1 motor1 q rpm elapsed w,
          run_speed_pid-IsBounded r s1 motor1 q rpm elapsed (max_duty-limit r w) v1,
        )
      ])
    ])
  ])
]
  where
    q : Request
    q = request r motor1

    elapsed : ℕ
    elapsed = sub32 now s.last_update_ms

    s1 : SpeedPidState
    s1 = record s { last_update_ms = now }

    v1 : IsBounded s1
    v1 = record {
      speed_integral = v.speed_integral;
      position_integral = v.position_integral;
      duty = v.duty;
    }

-- Any sequence of calls of `MotorControl_UpdateSpeed`, with what was measured and when.
