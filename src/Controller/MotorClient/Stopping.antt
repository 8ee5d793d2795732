-- ===== src/Controller/MotorClient/Stopping.antt =====
-- gugaPI/app/motor_driver_client.h with MotorDriver/protocol/register_map.cpp: a stop of both wheels.
use guga_pi.Controller.MotorClient.Link.{Link, Client, uart}
use guga_pi.Controller.Action.{done}
use guga_pi.Controller.MotorClient.Wire.{IsWire}
use guga_pi.Controller.MotorClient.Writes.{write_mode}
use guga_pi.Controller.MotorClient.Motion.{end_motion, set_coast, coast_twice, stop}
use guga_pi.Controller.MotorClient.EndToEnd.{write_registers_checked_lem}
use guga_pi.MotorDriver.Reg
use guga_pi.MotorDriver.Serial
use guga_pi.MotorDriver.RegisterMap.State.{RegisterMap}
use guga_pi.MotorDriver.RegisterMap.Status.{refresh_status, clear_motor_motion}
use guga_pi.MotorDriver.RegisterMap.Safety.{IsCoasting}
use guga_pi.MotorDriver.RegisterMap.Write.{
  commit_write, apply_from, apply_write_to, normalize_control_state, normalize_motor,
  is_control_register,
}
use guga_pi.Common.{
  true, false, ℕ, Array, Bool, arith, ◌<◌, array_of, Option, ◌≡◌, ◌∷◌, if◌then◌else◌, some, refl,
  [], ◌∙◌,
}

-- The bytes of mode and duty that coast a wheel.
abbrev coast_bytes : Array
coast_bytes = array_of (0 ∷ 0 ∷ [])

abbrev coasted : RegisterMap → Bool → RegisterMap × Option Bool
coasted s motor1 = commit_write s (if motor1 then Reg.m1_mode else Reg.m2_mode) coast_bytes 2

coast_accepted : (s : RegisterMap) (motor1 : Bool) → (coasted s motor1).1 ≡ some true
unfolding commit_write apply_from apply_write_to is_control_register
coast_accepted s true = refl
coast_accepted s false = refl

-- One wheel after the other.
coast_both-IsCoasting :
    (s : RegisterMap) → IsCoasting (coasted (coasted s true).0 false).0.registers
unfolding commit_write apply_from apply_write_to is_control_register normalize_control_state
    normalize_motor clear_motor_motion refresh_status
coast_both-IsCoasting s = record {
  m1_mode = ground arith;
  m2_mode = ground arith;
  m1_duty = ground arith;
  m2_duty = ground arith;
  m1_target_0 = ground arith;
  m1_target_1 = ground arith;
  m2_target_0 = ground arith;
  m2_target_1 = ground arith;
}

module _ (l : Link) (wire : IsWire l) (fuel : ℕ) (pos : 0 < fuel) (c : Client)
    (over : c.transport ≡ uart) where
  coast_twice_lem :
      (motor1 : Bool) (w : l.World)
      → (wire.parser w).state ≡ Serial.wait_sof
      → let (w', status) = coast_twice l fuel c motor1 w in
        (status ≡ done tt)
        × (wire.registers w' ≡ (coasted (wire.registers w) motor1).0)
        × ((wire.parser w').state ≡ Serial.wait_sof)
  unfolding coast_twice set_coast end_motion write_mode
  coast_twice_lem motor1 w waits =
      let (ended, same, waits') =
        write_registers_checked_lem l wire fuel pos c (if motor1 then Reg.m1_mode else Reg.m2_mode)
          0 (0 ∷ []) w over waits (omega arith) in
      let e : (write_mode l fuel c motor1 (0 ∷ 0 ∷ []) w).1 ≡ done tt =
        ended ∙ rw (coast_accepted (wire.registers w) motor1) refl in
      rw e (refl, same, waits')

  -- A stop over a UART, of a driver that waits for a frame, reports that both wheels were reached, and
  -- both motors of the driver coast: no mode, no duty and no target speed.
  pub stop_lem :
      (w : l.World)
      → (wire.parser w).state ≡ Serial.wait_sof
      → let (w', statuses) = stop l fuel c w in
        (statuses ≡ (done tt, done tt, done tt))
        × IsCoasting (wire.registers w').registers
        × ((wire.parser w').state ≡ Serial.wait_sof)
  unfolding stop
  stop_lem w waits =
      let (m1_done, m1_registers, m1_waits) = coast_twice_lem true w waits in
      let w1 = (coast_twice l fuel c true w).0 in
      let (m2_done, m2_registers, m2_waits) = coast_twice_lem false w1 m1_waits in
      rw (m1_done, m2_done)
        (refl, rw (m2_registers, m1_registers) (coast_both-IsCoasting (wire.registers w)), m2_waits)
