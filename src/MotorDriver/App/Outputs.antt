-- ===== src/MotorDriver/App/Outputs.antt =====
-- MotorDriver/app/motor_app.cpp: what `MotorApp_Process` leaves at the motors' outputs.
use guga_pi.Common.{
  none, some, true, false, zero, suc, ℕ, Array, Option, Bool, if◌then◌else◌, refl, Option-cases,
  inl, inr,
}
use guga_pi.MotorDriver.App.{
  Board, MotorApp, handle_encoder_control, refresh_lease_from_write, check_i2c_address_changed,
  sync_encoder_registers, after_write, receive_byte, receive_i2c_write, check_watchdog,
  refresh_lease_from_keepalive, MotorFeedback, accepted_write, process_byte, feedback,
}
use guga_pi.MotorDriver.Drv8701.{Outputs, low, drv8701_init}
use guga_pi.MotorDriver.Drv8701.Drive.{driven, IsTracked, IsPhaseSafe, init-IsTracked}
use guga_pi.Common.{◌≡◌, sym, ◌∙◌, true, false, arith}
use guga_pi.MotorDriver.App.Process.{
  process_serial_rx, process_i2c_writes, process_i2c_target, run_control, apply_output, receive_all,
  update_encoder_modes, process, motor_app_init,
}
use guga_pi.MotorDriver.Control.Apply.{
  update_speed, apply, stop_all-driven, apply_modes-IsTracked, motor_control_init, stop_all,
}
use guga_pi.MotorDriver.RegisterMap.State.{RegisterMap}
use guga_pi.MotorDriver.RegisterMap.Status.{refresh_status}
use guga_pi.MotorDriver.RegisterMap.Write.{commit_write}
use guga_pi.MotorDriver.Serial.{Outcome}

-- The enable inputs of both bridges are low.
abbrev pub IsUnpowered : Outputs → Type 0
IsUnpowered o = (driven true o.calls ≡ low) × (driven false o.calls ≡ low)

module _ (b : Board) where
  -- The bridge driver's record of its pins is right, and a stop that the timeout asked for has been
  -- carried out unless the output is still marked.
  pub record IsSafe (a : MotorApp b) : Type 0 where
    pub tracked : IsTracked a.control.outputs
    pub stopped : a.timeout_active ≡ true → a.output_dirty ≡ false → IsUnpowered a.control.outputs

  -- A part of the loop that leaves the outputs alone, and marks the output where it changes the
  -- timeout flag.
  pub record IsQuiet (a a' : MotorApp b) : Type 0 where
    pub outputs_kept : a'.control.outputs ≡ a.control.outputs
    pub marked :
        a'.output_dirty ≡ false → (a.output_dirty ≡ false) × (a'.timeout_active ≡ a.timeout_active)

  quiet-IsSafe : (a a' : MotorApp b) → IsQuiet a a' → IsSafe a → IsSafe a'
  quiet-IsSafe a a' q v = record {
    tracked = rw q.outputs_kept v.tracked;
    stopped =
        λ t d. let (clean, same) = q.marked d in rw q.outputs_kept (v.stopped (sym same ∙ t) clean);
  }

  IsQuiet-then : (a a' a'' : MotorApp b) → IsQuiet a a' → IsQuiet a' a'' → IsQuiet a a''
  IsQuiet-then a a' a'' p q = record {
    outputs_kept = q.outputs_kept ∙ p.outputs_kept;
    marked = λ d.
        let (clean, same) = q.marked d in
        let (clean', same') = p.marked clean in (clean', same ∙ same');
  }

  after_write-IsQuiet : (a : MotorApp b) → IsQuiet a (after_write b a)
  unfolding handle_encoder_control refresh_lease_from_write check_i2c_address_changed
      sync_encoder_registers
  after_write-IsQuiet a = ground arith

  keepalive-IsQuiet : (a : MotorApp b) → IsQuiet a (refresh_lease_from_keepalive b a)
  unfolding refresh_lease_from_keepalive
  keepalive-IsQuiet a = ground arith

  IsQuiet-if :
      (c : Bool) (a a' a'' : MotorApp b)
      → IsQuiet a a'
      → IsQuiet a a''
      → IsQuiet a (if c then a' else a'')
  IsQuiet-if true a a' a'' p q = p
  IsQuiet-if false a a' a'' p q = q

  receive_byte-IsQuiet : (a : MotorApp b) (value : ℕ) → IsQuiet a (receive_byte b a value)
  unfolding receive_byte
  receive_byte-IsQuiet a value =
      IsQuiet-if o.write_committed a (after_write b a2) a2
        (IsQuiet-then a a2 _ q2 (after_write-IsQuiet a2)) q2
    where
      o : Outcome
      o = process_byte a.serial a.registers value

      a1 : MotorApp b
      a1 = record a {
        serial = o.parser;
        registers = o.registers;
        board = if o.ready then b.uart_write a.board o.response else a.board;
      }

      a2 : MotorApp b
      a2 = if o.keepalive_received then refresh_lease_from_keepalive b a1 else a1

      q1 : IsQuiet a a1
      q1 = record { outputs_kept = refl; marked = λ d. (d, refl) }

      q2 : IsQuiet a a2
      q2 =
          IsQuiet-if o.keepalive_received a (refresh_lease_from_keepalive b a1) a1
            (IsQuiet-then a a1 _ q1 (keepalive-IsQuiet a1)) q1

  receive_i2c_write-IsQuiet :
      (a : MotorApp b) (reg : ℕ) (bytes : Array) (length : ℕ)
      → IsQuiet a (receive_i2c_write b a reg bytes length)
  unfolding receive_i2c_write
  receive_i2c_write-IsQuiet a reg bytes length = go (commit_write a.registers reg bytes length)
    where
      go : (c : RegisterMap × Option Bool) → IsQuiet a (accepted_write b a c)
      go (s, none) = ground arith
      go (s, some changed) =
          IsQuiet-then a (record a { registers = s }) _ (ground arith)
            (after_write-IsQuiet (record a { registers = s }))

  same-IsQuiet : (a : MotorApp b) → IsQuiet a a
  same-IsQuiet a = record { outputs_kept = refl; marked = λ d. (d, refl) }

  with_board-IsQuiet : (a : MotorApp b) (rest : b.State) → IsQuiet a (record a { board = rest })
  with_board-IsQuiet a rest = record { outputs_kept = refl; marked = λ d. (d, refl) }

  serial_rx-IsQuiet : (fuel : ℕ) (a : MotorApp b) → IsQuiet a (process_serial_rx b fuel a)
  unfolding process_serial_rx
  serial_rx-IsQuiet zero a = same-IsQuiet a
  serial_rx-IsQuiet (suc fuel) a = elim (Option-cases (b.read_byte a.board)) [
    | inl e ↦ rw (e, process_serial_rx) (same-IsQuiet a)
    | inr ((value, rest), e) ↦
        let a1 = record a { board = rest } in
        rw (e, process_serial_rx)
          (IsQuiet-then a a1 _ (with_board-IsQuiet a rest) (
            IsQuiet-then a1 (receive_byte b a1 value) _ (receive_byte-IsQuiet a1 value)
              (serial_rx-IsQuiet fuel (receive_byte b a1 value))))
  ]

  i2c_writes-IsQuiet : (fuel : ℕ) (a : MotorApp b) → IsQuiet a (process_i2c_writes b fuel a)
  unfolding process_i2c_writes
  i2c_writes-IsQuiet zero a = same-IsQuiet a
  i2c_writes-IsQuiet (suc fuel) a = elim (Option-cases (b.take_write a.board)) [
    | inl e ↦ rw (e, process_i2c_writes) (same-IsQuiet a)
    | inr ((w, rest), e) ↦
        let a1 = record a { board = rest } in
        let a2 = receive_i2c_write b a1 w.reg w.bytes w.length in
        rw (e, process_i2c_writes)
          (IsQuiet-then a a1 _ (with_board-IsQuiet a rest) (
            IsQuiet-then a1 a2 _ (receive_i2c_write-IsQuiet a1 w.reg w.bytes w.length)
              (i2c_writes-IsQuiet fuel a2)))
  ]

  i2c_target-IsQuiet : (a : MotorApp b) → IsQuiet a (process_i2c_target b a)
  unfolding process_i2c_target
  i2c_target-IsQuiet a = ground arith

  check_watchdog-IsQuiet : (a : MotorApp b) → IsQuiet a (check_watchdog b a)
  unfolding check_watchdog
  check_watchdog-IsQuiet a = ground arith

  run_control-IsQuiet : (a : MotorApp b) (f : MotorFeedback) → IsQuiet a (run_control b a f)
  unfolding run_control update_speed
  run_control-IsQuiet a f = ground arith

  apply_output-IsSafe :
      (a : MotorApp b)
      → IsSafe a
      → IsSafe (apply_output b a)
        × ((apply_output b a).timeout_active ≡ true
            → IsUnpowered (apply_output b a).control.outputs)
  unfolding apply_output apply
  apply_output-IsSafe a v = ground (
    arith,
    stop_all-driven a.control.outputs v.tracked,
    apply_modes-IsTracked a.control (refresh_status a.registers) v.tracked,
  )

  sync-IsQuiet : (a : MotorApp b) → IsQuiet a (sync_encoder_registers b a)
  unfolding sync_encoder_registers
  sync-IsQuiet a = record { outputs_kept = refl; marked = λ d. (d, refl) }

  receive_all-IsQuiet : (fuel : ℕ) (a : MotorApp b) → IsQuiet a (receive_all b fuel a)
  receive_all-IsQuiet fuel a =
      let a1 = process_serial_rx b fuel a in
      let a2 = process_i2c_writes b fuel a1 in
      let a3 = process_i2c_target b a2 in
      IsQuiet-then a a3 _
        (IsQuiet-then a a2 _
          (IsQuiet-then a a1 _ (serial_rx-IsQuiet fuel a) (i2c_writes-IsQuiet fuel a1))
          (i2c_target-IsQuiet a2))
        (check_watchdog-IsQuiet a3)

  encoder_modes-IsQuiet : (a : MotorApp b) → IsQuiet a (update_encoder_modes b a)
  unfolding update_encoder_modes
  encoder_modes-IsQuiet a = with_board-IsQuiet a _

  -- A round of the main loop that ends with the timeout on, from the watchdog, from a recovery of
  -- the I2C target or from before, leaves the enable inputs of both bridges low, whatever was
  -- received and measured in it; and it ends, as it began, with the pins that the bridge driver
  -- believes in and with no stop outstanding.
  pub process_stops :
      (fuel : ℕ) (a : MotorApp b)
      → IsSafe a
      → let a' = process b fuel a in
        IsSafe a' × (a'.timeout_active ≡ true → IsUnpowered a'.control.outputs)
  unfolding process
  process_stops fuel a v = apply_output-IsSafe _ (quiet-IsSafe a _ whole v)
    where
      a1 : MotorApp b
      a1 = record a { board = b.encoders_process a.board a.ms_ticks }

      a2 : MotorApp b
      a2 = receive_all b fuel (sync_encoder_registers b a1)

      q2 : IsQuiet a a2
      q2 = IsQuiet-then a a1 _ (with_board-IsQuiet a _) (
          IsQuiet-then a1 (sync_encoder_registers b a1) _ (sync-IsQuiet a1)
            (receive_all-IsQuiet fuel (sync_encoder_registers b a1)))

      whole : IsQuiet a (run_control b (update_encoder_modes b a2) (feedback b a1))
      whole = IsQuiet-then a a2 _ q2 (
          IsQuiet-then a2 (update_encoder_modes b a2) _ (encoder_modes-IsQuiet a2)
            (run_control-IsQuiet (update_encoder_modes b a2) (feedback b a1)))

  -- After the initialisation both bridges are off and nothing is outstanding, whatever the
  -- application and the pins were before.
  pub motor_app_init-IsSafe :
      (a : MotorApp b)
      → IsPhaseSafe a.control.outputs.calls
      → let a' = motor_app_init b a in IsSafe a' × IsUnpowered a'.control.outputs
  unfolding motor_app_init apply motor_control_init sync_encoder_registers
  motor_app_init-IsSafe a v =
      let stopped = stop_all-driven (drv8701_init a.control.outputs) (init-IsTracked _ v) in
      let off : IsUnpowered (stop_all (drv8701_init a.control.outputs)) = (stopped.1, stopped.2) in
      (record { tracked = stopped.0; stopped = λ _ _. off }, off)
