-- ===== src/MotorDriver/Control/Examples.antt =====
-- MotorDriver/control/motor_control.cpp: the theorems on concrete values.
use guga_pi.MotorDriver.Flag
use guga_pi.MotorDriver.Control.{SpeedPidState}
use guga_pi.MotorDriver.Control.Ramp.{ramp-progress, ramp, progress}
use guga_pi.MotorDriver.RegisterMap.Update.{init}
use guga_pi.Common.{pos, false, ◌≤◌, ◌∷◌, true, arith, [], ◌≡◌, ◌+◌, ◌*◌, refl, negsuc, ◌<◌, ◌⊎◌}
use guga_pi.MotorDriver.Control.Bounded.{IsBounded}
use guga_pi.MotorDriver.Control.Speed.{update_speed_motor}
use guga_pi.MotorDriver.Control.Position.{update_at_target, position_drive}
use guga_pi.MotorDriver.RegisterMap.State.{load_uint16, store_uint16, store_int32, position_max_rpm}
use guga_pi.MotorDriver.RegisterMap.Limits.{IsWithin}
use guga_pi.MotorDriver.Control.Within.{update_speed_motor-IsBounded}
use guga_pi.MotorDriver.RegisterMap.Calls.{init-IsWithin}
use guga_pi.MotorDriver.RegisterMap.Status.{refresh_status}
use guga_pi.MotorDriver.Control.Hysteresis.{Change, at_target_hysteresis, off_target_drives}

-- A ramp at 100 rpm on its way up.
abbrev pub rising : SpeedPidState
rising = record {
  integral_q4_ms = pos 0;
  previous_error_rpm = pos 0;
  ramp_remainder = 250;
  hold_count = pos 0;
  previous_position_error = pos 0;
  previous_target_position = pos 0;
  position_integral_q4 = pos 0;
  last_update_ms = 0;
  position_settle_until_ms = 0;
  control_target_rpm = 100;
  output_duty_q8 = 0;
  previous_mode = Flag.motor_mode_speed;
  previous_direction = 0;
  ramp_direction = 1;
  hold_mode = false;
  position_at_target = false;
  initialized = true;
}

ramp-progress_example :
    progress (ramp rising 300 55 70 (10 ∷ 13 ∷ 10 ∷ [])) ≡ progress rising + 55 * 33
ramp-progress_example =
    ramp-progress rising 300 55 70 (10 ∷ 13 ∷ 10 ∷ []) (omega arith) refl (omega arith)
      (omega arith)

rising-IsBounded : IsBounded rising
rising-IsBounded = record {
  speed_integral = omega arith;
  position_integral = omega arith;
  duty = omega arith;
}

update_speed_motor-IsBounded_example :
    let u = update_speed_motor init rising true (negsuc 5) (pos 90) 20 in
    IsWithin u.0.registers × IsBounded u.1
update_speed_motor-IsBounded_example =
    update_speed_motor-IsBounded init rising true (negsuc 5) (pos 90) 20 init-IsWithin
      rising-IsBounded

-- A position loop off its target, and one that has reached it.
abbrev away : SpeedPidState
away = record rising { previous_mode = Flag.motor_mode_position; position_settle_until_ms = 900 }

-- The error of `away` has changed its side.
at_target_hysteresis_example :
    let s' = update_at_target init away (negsuc 99) 1000 in
    let d = position_drive init s' (negsuc 99) (pos 420) 1456 in
    Change init away (negsuc 99) 1000 s'
    × ((s'.position_at_target ≡ false) ⊎ ((d.output_duty ≡ 0) × (d.command_rpm ≡ 0)))
at_target_hysteresis_example =
    at_target_hysteresis init away (negsuc 99) (pos 420) 1456 1000 (omega arith)

off_target_drives_example :
    let d = position_drive init away (pos 500) (pos 520) 1456 in
    (0 < d.command_rpm) × (d.command_rpm ≤ position_max_rpm init) × (5 ≤ d.output_duty)
unfolding init load_uint16 store_uint16 store_int32 refresh_status
off_target_drives_example =
    off_target_drives init away (pos 500) (pos 520) 1456 refl (omega arith) (omega arith)
      (omega arith) refl
