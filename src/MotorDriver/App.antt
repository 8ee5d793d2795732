-- ===== src/MotorDriver/App.antt =====
-- MotorDriver/app/motor_app.cpp: the bus traffic and the communication watchdog. The peripherals
-- below MotorDriver/board/ are the interface `Board`.
pub mod Watchdog
pub mod Silence
pub mod Process
pub mod Outputs
pub mod Loop
pub mod Rpm
mod Examples
use guga_pi.MotorDriver.Reg
use guga_pi.MotorDriver.Flag
use guga_pi.MotorDriver.RegisterMap.State.{
  RegisterMap, watchdog_timeout_10ms, encoder_inverted, m1_counts_per_rev, m2_counts_per_rev,
}
use guga_pi.MotorDriver.Serial.{Parser, process_byte}
use guga_pi.Common.{
  ℕ, Bool, if◌then◌else◌, true, Option, u32, ◌*◌, ◌==◌, false, ◌!=◌, not, bit_and, List, some,
  Array, ◌+◌, ◌/◌, ltb, ◌^◌, ◌&&◌, ◌||◌, none, u16, ◌-◌, sub32, [],
}
use guga_pi.MotorDriver.RegisterMap.Status.{
  set_timeout_active, has_active_command, force_coast_on_timeout,
}
use guga_pi.MotorDriver.RegisterMap.Write.{read, commit_write}
use guga_pi.MotorDriver.RegisterMap.State.{encoder_control}
use guga_pi.MotorDriver.RegisterMap.Update.{
  clear_encoder_control, update_encoder_snapshot, update_measured_rpm,
}
use guga_pi.MotorDriver.Control.Apply.{MotorControl}
use guga_pi.MotorDriver.I2cTarget.{I2cWrite}

-- `drivers::EncoderSnapshot`; the signed fields are patterns.
pub record Snapshot : Type 0 where
  pub count : ℕ
  pub counts_per_second : ℕ
  pub state : ℕ

-- The encoders (`true` is Encoder1), the UART, the I2C target with the address in use, the address
-- in the flash (`load_address`, `save_address`), and the system tick. `read_byte`, `take_write` and
-- `i2c_process` also give what the call leaves of the peripherals.
pub record Board : Type 1 where
  pub State : Type 0
  pub encoders_init : State → State
  pub encoders_process : State → ℕ → State
  pub set_enabled : State → Bool → Bool → State
  pub get_snapshot : State → Bool → Snapshot
  pub reset_encoder : State → Bool → State
  pub uart_init : State → State
  pub read_byte : State → Option (ℕ × State)
  pub uart_write : State → List ℕ → State
  pub i2c_init : State → State
  pub take_write : State → Option (I2cWrite × State)
  pub i2c_process : State → ℕ → Bool × State
  pub address : State → ℕ
  pub set_address : State → ℕ → State
  pub load_address : State → ℕ
  pub save_address : State → ℕ → State
  pub start_ticks : State → State

-- The magnitude of the rounded quotient, kept within an int16_t of that sign.
abbrev pub rounded_rpm : ℕ → ℕ → ℕ → ℕ
rounded_rpm magnitude counts_per_rev top =
    let rpm = (magnitude * 60 + counts_per_rev / 2) / counts_per_rev in
    if ltb top rpm then top else rpm

-- The pattern of the int16_t.
unfoldable pub encoder_counts_per_second_to_rpm : ℕ → ℕ → ℕ
encoder_counts_per_second_to_rpm counts_per_second counts_per_rev =
    if counts_per_rev == 0
    then 0
    else if ltb counts_per_second (2 ^ 31)
    then rounded_rpm counts_per_second counts_per_rev 32767
    else u16 (2 ^ 16 - rounded_rpm (2 ^ 32 - counts_per_second) counts_per_rev 32768)

unfoldable pub negate_int32_saturating : ℕ → ℕ
negate_int32_saturating value = if value == 2 ^ 31 then 2 ^ 31 - 1 else u32 (2 ^ 32 - value)

-- What the encoder reads, with its sign.
abbrev pub signed_snapshot : RegisterMap → Bool → Snapshot → Snapshot
signed_snapshot s motor1 e =
    if encoder_inverted s motor1
    then record e {
      count = negate_int32_saturating e.count;
      counts_per_second = negate_int32_saturating e.counts_per_second;
    }
    else e

-- The fields are patterns.
pub record MotorFeedback : Type 0 where
  pub m1_count : ℕ
  pub m1_rpm : ℕ
  pub m2_count : ℕ
  pub m2_rpm : ℕ

module _ (b : Board) where
  -- The variables of the file, and the peripherals.
  pub record MotorApp : Type 0 where
    pub registers : RegisterMap
    pub serial : Parser
    pub ms_ticks : ℕ
    pub last_watchdog_refresh_ms : ℕ
    pub watchdog_armed : Bool
    pub timeout_active : Bool
    pub output_dirty : Bool
    pub control : MotorControl
    pub board : b.State

  unfoldable pub watchdog_timeout_ms : MotorApp → ℕ
  watchdog_timeout_ms a = watchdog_timeout_10ms a.registers * 10

  unfoldable pub refresh_lease_from_write : MotorApp → MotorApp
  refresh_lease_from_write a =
      let s = set_timeout_active a.registers false in
      let a1 = record a { timeout_active = false; registers = s } in
      let a2 =
        if has_active_command s
        then record a1 { last_watchdog_refresh_ms = a.ms_ticks; watchdog_armed = true }
        else record a1 { watchdog_armed = false } in
      record a2 { output_dirty = true }

  unfoldable pub check_i2c_address_changed : MotorApp → MotorApp
  check_i2c_address_changed a =
      let reg_addr = read a.registers Reg.i2c_address in
      if reg_addr != b.address a.board
      then record a { board = b.save_address (b.set_address a.board reg_addr) reg_addr }
      else a

  unfoldable pub refresh_lease_from_keepalive : MotorApp → MotorApp
  refresh_lease_from_keepalive a =
      if not a.timeout_active && has_active_command a.registers
      then record a { last_watchdog_refresh_ms = a.ms_ticks; watchdog_armed = true }
      else a

  unfoldable pub check_watchdog : MotorApp → MotorApp
  check_watchdog a =
      let timeout_ms = watchdog_timeout_ms a in
      if timeout_ms == 0 || not (has_active_command a.registers)
      then record a { watchdog_armed = false }
      else if not a.watchdog_armed
      then record a { last_watchdog_refresh_ms = a.ms_ticks; watchdog_armed = true }
      else if not a.timeout_active
          && a.watchdog_armed
          && ltb timeout_ms (sub32 a.ms_ticks a.last_watchdog_refresh_ms)
      then record a {
        timeout_active = true;
        watchdog_armed = false;
        registers = force_coast_on_timeout a.registers;
        output_dirty = true;
      }
      else a

  -- The counts and the speeds that `SyncEncoderRegisters` returns.
  unfoldable pub feedback : MotorApp → MotorFeedback
  feedback a =
      let s = a.registers in
      let m1 = signed_snapshot s true (b.get_snapshot a.board true) in
      let m2 = signed_snapshot s false (b.get_snapshot a.board false) in
      record {
        m1_count = m1.count;
        m1_rpm = encoder_counts_per_second_to_rpm m1.counts_per_second (m1_counts_per_rev s);
        m2_count = m2.count;
        m2_rpm = encoder_counts_per_second_to_rpm m2.counts_per_second (m2_counts_per_rev s);
      }

  -- What `SyncEncoderRegisters` does to the register map.
  unfoldable pub sync_encoder_registers : MotorApp → MotorApp
  sync_encoder_registers a =
      let s = a.registers in
      let m1 = signed_snapshot s true (b.get_snapshot a.board true) in
      let m2 = signed_snapshot s false (b.get_snapshot a.board false) in
      let f = feedback a in
      let s1 =
        update_encoder_snapshot s m1.count m1.counts_per_second m1.state m2.count
          m2.counts_per_second m2.state in
      record a { registers = update_measured_rpm s1 f.m1_rpm f.m2_rpm }

  unfoldable pub handle_encoder_control : MotorApp → MotorApp
  handle_encoder_control a =
      let control = encoder_control a.registers in
      let b1 =
        if bit_and control Flag.encoder_control_reset_m1 != 0
        then b.reset_encoder a.board true
        else a.board in
      let b2 =
        if bit_and control Flag.encoder_control_reset_m2 != 0
        then b.reset_encoder b1 false
        else b1 in
      let a1 = record a { board = b2 } in
      if control != 0
      then sync_encoder_registers (record a1 { registers = clear_encoder_control a.registers })
      else a1

  abbrev pub after_write : MotorApp → MotorApp
  after_write a = check_i2c_address_changed (refresh_lease_from_write (handle_encoder_control a))

  -- One round of the loop of `ProcessSerialRx`.
  unfoldable pub receive_byte : MotorApp → ℕ → MotorApp
  receive_byte a value =
      let o = process_byte a.serial a.registers value in
      let a1 = record a {
        serial = o.parser;
        registers = o.registers;
        board = if o.ready then b.uart_write a.board o.response else a.board;
      } in
      let a2 = if o.keepalive_received then refresh_lease_from_keepalive a1 else a1 in
      if o.write_committed then after_write a2 else a2

  -- One round of the loop of `ProcessI2cWrites`.
  abbrev pub accepted_write : MotorApp → RegisterMap × Option Bool → MotorApp
  accepted_write a (s, none) = record a { registers = s }
  accepted_write a (s, some changed) = after_write (record a { registers = s })

  unfoldable pub receive_i2c_write : MotorApp → ℕ → Array → ℕ → MotorApp
  receive_i2c_write a reg bytes length =
      accepted_write a (commit_write a.registers reg bytes length)

  unfoldable pub tick_from_isr : MotorApp → MotorApp
  tick_from_isr a = record a { ms_ticks = u32 (a.ms_ticks + 1) }
