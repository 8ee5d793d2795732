-- ===== src/MotorDriver/App/Watchdog.antt =====
-- MotorDriver/app/motor_app.cpp: what the communication watchdog guarantees.
use guga_pi.MotorDriver.RegisterMap.Safety.{
  force_coast_on_timeout_lem, timeout_inhibits, timeout_active-refresh_status, commit_write_timeout,
}
use guga_pi.MotorDriver.App.{
  Board, MotorApp, check_watchdog, tick_from_isr, ℕ, receive_byte, List, refresh_lease_from_write,
  check_i2c_address_changed, after_write, refresh_lease_from_keepalive, receive_i2c_write,
  handle_encoder_control, accepted_write,
}
use guga_pi.Common.{
  ℕ, List, ◌≡◌, arith, Array, ◌∷◌, true, [], false, Option, Bool, ◌∙◌, ◌⊎◌, some, if◌then◌else◌,
  inl, inr, Bool-cases, none,
}
use guga_pi.MotorDriver.RegisterMap.Status.{set_timeout_active}
use guga_pi.MotorDriver.Serial.{Outcome, process_byte}
use guga_pi.MotorDriver.RegisterMap.State.{RegisterMap}
use guga_pi.MotorDriver.Serial.Invariant.{process_byte_timeout}
use guga_pi.MotorDriver.RegisterMap.Write.{commit_write}

-- What happens between two deadlines: time passes, bytes and I2C writes come, the watchdog looks.
pub data Event : Type 0 where
  ticks checks : Event
  receives : ℕ → Event
  i2c_writes : ℕ → Array → ℕ → Event

module _ (b : Board) where
  unfoldable pub step : MotorApp b → Event → MotorApp b
  step a ticks = tick_from_isr b a
  step a checks = check_watchdog b a
  step a (receives value) = receive_byte b a value
  step a (i2c_writes reg payload length) = receive_i2c_write b a reg payload length

  unfoldable pub run : MotorApp b → List Event → MotorApp b
  run a [] = a
  run a (e ∷ es) = run (step a e) es

  -- The two copies of the timeout flag agree, and a timed-out driver is not armed.
  pub record IsConsistent (a : MotorApp b) : Type 0 where
    pub flags_agree : a.registers.timeout_active ≡ a.timeout_active
    pub disarmed : a.timeout_active ≡ true → a.watchdog_armed ≡ false

  check_watchdog-IsConsistent :
      (a : MotorApp b) → IsConsistent a → IsConsistent (check_watchdog b a)
  unfolding check_watchdog
  check_watchdog-IsConsistent a v =
      ground (arith, (force_coast_on_timeout_lem a.registers).3, timeout_inhibits a.registers)

  lease_from_write-IsConsistent : (a : MotorApp b) → IsConsistent (refresh_lease_from_write b a)
  unfolding refresh_lease_from_write set_timeout_active
  lease_from_write-IsConsistent a =
      ground (arith, timeout_active-refresh_status (record a.registers { timeout_active = false }))

  check_i2c-IsConsistent :
      (a : MotorApp b) → IsConsistent a → IsConsistent (check_i2c_address_changed b a)
  unfolding check_i2c_address_changed
  check_i2c-IsConsistent a v = ground arith

  after_write-IsConsistent : (a : MotorApp b) → IsConsistent (after_write b a)
  after_write-IsConsistent a =
      check_i2c-IsConsistent _ (lease_from_write-IsConsistent (handle_encoder_control b a))

  keepalive-IsConsistent :
      (a : MotorApp b) → IsConsistent a → IsConsistent (refresh_lease_from_keepalive b a)
  unfolding refresh_lease_from_keepalive
  keepalive-IsConsistent a v = ground arith

  receive_byte-IsConsistent :
      (a : MotorApp b) (value : ℕ) → IsConsistent a → IsConsistent (receive_byte b a value)
  unfolding receive_byte
  receive_byte-IsConsistent a value v = elim (Bool-cases o.write_committed) [
    | inl e ↦ rw e (after_write-IsConsistent _)
    | inr e ↦ rw e (kept (Bool-cases o.keepalive_received))
  ]
    where
      o : Outcome
      o = process_byte a.serial a.registers value

      a1 : MotorApp b
      a1 = record a {
        serial = o.parser;
        registers = o.registers;
        board = if o.ready then b.uart_write a.board o.response else a.board;
      }

      v1 : IsConsistent a1
      v1 = record {
        flags_agree = process_byte_timeout a.serial a.registers value ∙ v.flags_agree;
        disarmed = v.disarmed;
      }

      kept :
          (o.keepalive_received ≡ true) ⊎ (o.keepalive_received ≡ false)
          → IsConsistent (if o.keepalive_received then refresh_lease_from_keepalive b a1 else a1)
      kept (inl e) = rw e (keepalive-IsConsistent a1 v1)
      kept (inr e) = rw e v1

  receive_i2c_write-IsConsistent :
      (a : MotorApp b) (reg : ℕ) (bytes : Array) (length : ℕ)
      → IsConsistent a
      → IsConsistent (receive_i2c_write b a reg bytes length)
  unfolding receive_i2c_write
  receive_i2c_write-IsConsistent a reg bytes length v =
      go (commit_write a.registers reg bytes length)
        (commit_write_timeout a.registers reg bytes length)
    where
      go :
          (c : RegisterMap × Option Bool)
          → c.0.timeout_active ≡ a.registers.timeout_active
          → IsConsistent (accepted_write b a c)
      go (s, none) e = record { flags_agree = e ∙ v.flags_agree; disarmed = v.disarmed }
      go (s, some changed) e = after_write-IsConsistent _

  step-IsConsistent : (a : MotorApp b) (e : Event) → IsConsistent a → IsConsistent (step a e)
  unfolding step tick_from_isr
  step-IsConsistent a ticks v = record { flags_agree = v.flags_agree; disarmed = v.disarmed }
  step-IsConsistent a checks v = check_watchdog-IsConsistent a v
  step-IsConsistent a (receives value) v = receive_byte-IsConsistent a value v
  step-IsConsistent a (i2c_writes reg payload length) v =
      receive_i2c_write-IsConsistent a reg payload length v

  -- Whatever arrives on the two buses, however time passes and whenever the watchdog looks, the
  -- application's timeout flag and the register map's agree, and a timed-out driver is not armed.
  pub run-IsConsistent :
      (a : MotorApp b) (es : List Event) → IsConsistent a → IsConsistent (run a es)
  unfolding run
  run-IsConsistent a [] v = v
  run-IsConsistent a (e ∷ es) v = run-IsConsistent (step a e) es (step-IsConsistent a e v)
