-- ===== src/MotorDriver/Control/Apply.antt =====
-- MotorDriver/control/motor_control.cpp: both motors, and what their outputs are set to.
use guga_pi.MotorDriver.Reg
use guga_pi.MotorDriver.Flag
use guga_pi.MotorDriver.RegisterMap.Write.{read}
use guga_pi.MotorDriver.Control.{SpeedPidState, Bool, ℤ, ℕ}
use guga_pi.MotorDriver.Drv8701.{
  Outputs, drv8701_init, set_coast, low, set_run_fine, set_brake, duty_percent_q8_scale,
}
use guga_pi.MotorDriver.Control.Pid.{reset_pid, toggle_direction, direction_from_register}
use guga_pi.MotorDriver.RegisterMap.State.{RegisterMap, motor_output_inverted, is_enabled}
use guga_pi.Common.{Bool, ℕ, if◌then◌else◌, true, arith, ◌==◌, false, ◌≡◌, ◌||◌, u16, ◌*◌, ◌∙◌, not}
use guga_pi.MotorDriver.Drv8701.Drive.{
  IsTracked, driven, set_coast-IsTracked, set_brake-IsTracked, set_coast-driven,
  set_run_fine-IsTracked,
}
use guga_pi.MotorDriver.Control.Speed.{update_speed_motor}

-- The variables of the file, and the outputs.
pub record MotorControl : Type 0 where
  pub m1_speed : SpeedPidState
  pub m2_speed : SpeedPidState
  pub outputs : Outputs

unfoldable pub apply_motor : Outputs → Bool → ℕ → ℕ → ℕ → Outputs
apply_motor o motor1 mode duty_q8 direction =
    if mode == Flag.motor_mode_run
      || mode == Flag.motor_mode_speed
      || mode == Flag.motor_mode_position
    then if duty_q8 == 0
      then set_coast o motor1
      else set_run_fine o motor1 (direction_from_register direction) duty_q8
    else if mode == Flag.motor_mode_brake
    then set_brake o motor1
    else set_coast o motor1

unfoldable pub motor_control_init : MotorControl → MotorControl
motor_control_init c = record {
  m1_speed = reset_pid c.m1_speed;
  m2_speed = reset_pid c.m2_speed;
  outputs = drv8701_init c.outputs;
}

unfoldable pub stop_all : Outputs → Outputs
stop_all o = set_coast (set_coast o true) false

unfoldable pub update_speed :
    MotorControl → RegisterMap → ℤ → ℤ → ℤ → ℤ → ℕ → RegisterMap × MotorControl × Bool
update_speed c r m1_count m1_rpm m2_count m2_rpm now_ms =
    let (r1, s1, m1_changed) = update_speed_motor r c.m1_speed true m1_count m1_rpm now_ms in
    let (r2, s2, m2_changed) = update_speed_motor r1 c.m2_speed false m2_count m2_rpm now_ms in
    (r2, record c { m1_speed = s1; m2_speed = s2 }, m1_changed || m2_changed)

abbrev pub applied_duty_q8 : SpeedPidState → ℕ → ℕ → ℕ
applied_duty_q8 s mode duty =
    if mode == Flag.motor_mode_speed || mode == Flag.motor_mode_position
    then s.output_duty_q8
    else u16 (duty * duty_percent_q8_scale)

abbrev pub applied_direction : RegisterMap → Bool → ℕ → ℕ
applied_direction r motor1 direction =
    if motor_output_inverted r motor1 then toggle_direction direction else direction

-- The rest of `MotorControl_Apply`, from where it does not stop both motors.
unfoldable pub apply_modes : MotorControl → RegisterMap → Outputs
apply_modes c r =
    let m1_mode = read r Reg.m1_mode in
    let m2_mode = read r Reg.m2_mode in
    let o1 =
      apply_motor c.outputs true m1_mode (applied_duty_q8 c.m1_speed m1_mode (read r Reg.m1_duty))
        (applied_direction r true (read r Reg.m1_direction)) in
    apply_motor o1 false m2_mode (applied_duty_q8 c.m2_speed m2_mode (read r Reg.m2_duty))
      (applied_direction r false (read r Reg.m2_direction))

unfoldable pub apply : MotorControl → RegisterMap → Bool → MotorControl
apply c r output_inhibited =
    if output_inhibited || not (is_enabled r)
    then record c { outputs = stop_all c.outputs }
    else record c { outputs = apply_modes c r }

pub stop_all-driven :
    (o : Outputs)
    → IsTracked o
    → IsTracked (stop_all o)
      × (driven true (stop_all o).calls ≡ low)
      × (driven false (stop_all o).calls ≡ low)
unfolding stop_all
stop_all-driven o v =
    let v1 = set_coast-IsTracked o true v in
    let d1 = set_coast-driven o true v in
    let d2 = set_coast-driven (set_coast o true) false v1 in
    (set_coast-IsTracked (set_coast o true) false v1, d2.1 ∙ d1.0, d2.0)

apply_motor-IsTracked :
    (o : Outputs) (motor1 : Bool) (mode duty_q8 direction : ℕ)
    → IsTracked o
    → IsTracked (apply_motor o motor1 mode duty_q8 direction)
unfolding apply_motor
apply_motor-IsTracked o motor1 mode duty_q8 direction v = ground (
  arith,
  set_coast-IsTracked o motor1 v,
  set_brake-IsTracked o motor1 v,
  set_run_fine-IsTracked o motor1 (direction_from_register direction) duty_q8 v,
)

pub apply_modes-IsTracked :
    (c : MotorControl) (r : RegisterMap) → IsTracked c.outputs → IsTracked (apply_modes c r)
unfolding apply_modes
apply_modes-IsTracked c r v =
    apply_motor-IsTracked _ false _ _ _ (apply_motor-IsTracked c.outputs true _ _ _ v)

pub apply-IsTracked :
    (c : MotorControl) (r : RegisterMap) (inhibited : Bool)
    → IsTracked c.outputs
    → IsTracked (apply c r inhibited).outputs
unfolding apply
apply-IsTracked c r inhibited v =
    ground (arith, (stop_all-driven c.outputs v).0, apply_modes-IsTracked c r v)
