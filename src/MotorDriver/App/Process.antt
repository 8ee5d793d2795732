-- ===== src/MotorDriver/App/Process.antt =====
-- MotorDriver/app/motor_app.cpp: `MotorApp_Init` and `MotorApp_Process`. The loops over the received
-- bytes and writes have a bound, and no interrupt falls inside a call.
use guga_pi.Common.{none, some, zero}
use guga_pi.MotorDriver.RegisterMap.State.{is_enabled}
use guga_pi.MotorDriver.App.{
  Board, ℕ, MotorApp, MotorFeedback, check_watchdog, feedback, sync_encoder_registers, receive_byte,
  receive_i2c_write,
}
use guga_pi.MotorDriver.RegisterMap.Update.{init as registers_init, set_i2c_address}
use guga_pi.MotorDriver.Serial.{init as serial_init}
use guga_pi.Common.{ℕ, suc, if◌then◌else◌, true, false, ◌!=◌, int32, int16, not, ◌&&◌}
use guga_pi.MotorDriver.RegisterMap.Status.{refresh_status, force_coast_on_timeout}
use guga_pi.MotorDriver.Control.Apply.{update_speed, apply, motor_control_init}

module _ (b : Board) where
  unfoldable pub process_serial_rx : ℕ → MotorApp b → MotorApp b
  process_serial_rx zero a = a
  process_serial_rx (suc fuel) a = elim (b.read_byte a.board) [
    | none ↦ a
    | some (value, rest) ↦ process_serial_rx fuel (receive_byte b (record a { board = rest }) value)
  ]

  unfoldable pub process_i2c_writes : ℕ → MotorApp b → MotorApp b
  process_i2c_writes zero a = a
  process_i2c_writes (suc fuel) a = elim (b.take_write a.board) [
    | none ↦ a
    | some (w, rest) ↦
        process_i2c_writes fuel
          (receive_i2c_write b (record a { board = rest }) w.reg w.bytes w.length)
  ]

  -- What follows a recovery of the I2C target.
  unfoldable pub process_i2c_target : MotorApp b → MotorApp b
  process_i2c_target a =
      let (recovered, board) = b.i2c_process a.board a.ms_ticks in
      let a1 = record a { board = board } in
      if recovered
      then record a1 {
        timeout_active = true;
        watchdog_armed = false;
        registers = force_coast_on_timeout a.registers;
        output_dirty = true;
      }
      else a1

  unfoldable pub update_encoder_modes : MotorApp b → MotorApp b
  update_encoder_modes a = record a {
    board = b.set_enabled (b.set_enabled a.board true true) false true;
  }

  unfoldable pub run_control : MotorApp b → MotorFeedback → MotorApp b
  run_control a f =
      let (s, c, changed) =
        update_speed a.control a.registers (int32 f.m1_count) (int16 f.m1_rpm) (int32 f.m2_count)
          (int16 f.m2_rpm) a.ms_ticks in
      let a1 = record a { registers = s; control = c } in
      if not a.timeout_active && is_enabled a.registers
      then if changed then record a1 { output_dirty = true } else a1
      else a

  unfoldable pub apply_output : MotorApp b → MotorApp b
  apply_output a =
      let s = refresh_status a.registers in
      if a.output_dirty
      then record a {
        registers = s;
        control = apply a.control s a.timeout_active;
        output_dirty = false;
      }
      else a

  abbrev pub receive_all : ℕ → MotorApp b → MotorApp b
  receive_all fuel a =
      check_watchdog b (process_i2c_target (process_i2c_writes fuel (process_serial_rx fuel a)))

  unfoldable pub process : ℕ → MotorApp b → MotorApp b
  process fuel a =
      let a1 = record a { board = b.encoders_process a.board a.ms_ticks } in
      let f = feedback b a1 in
      let a2 = receive_all fuel (sync_encoder_registers b a1) in
      apply_output (run_control (update_encoder_modes a2) f)

  unfoldable pub motor_app_init : MotorApp b → MotorApp b
  motor_app_init a =
      let board1 = b.i2c_init (b.uart_init (b.encoders_init a.board)) in
      let saved = b.load_address board1 in
      let board2 = if saved != 0 then b.set_address board1 saved else board1 in
      let board3 = b.start_ticks board2 in
      let a1 = record a {
        registers = refresh_status (set_i2c_address registers_init (b.address board2));
        serial = serial_init a.serial;
        control = motor_control_init a.control;
        board = board3;
      } in
      let a2 = sync_encoder_registers b a1 in
      record a2 { control = apply a2.control a2.registers true; output_dirty = false }
