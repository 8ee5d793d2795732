-- ===== src/Controller/MotorClient/Link.antt =====
-- gugaPI/app/motor_driver_client.h: the client and what it calls below it.
use guga_pi.Controller.DriverStatus.{DriverStatus}
use guga_pi.Common.{ℕ, Array, List, Option, Bool}

abbrev pub sof : ℕ
sof = 0xAA

abbrev pub cmd_read : ℕ
cmd_read = 1

abbrev pub cmd_write : ℕ
cmd_write = 2

abbrev pub cmd_heartbeat : ℕ
cmd_heartbeat = 3

abbrev pub response_flag : ℕ
response_flag = 0x80

abbrev pub status_ok : ℕ
status_ok = 0

abbrev pub max_payload_length : ℕ
max_payload_length = 32

abbrev pub response_timeout_ms : ℕ
response_timeout_ms = 50

abbrev pub i2c_transfer_attempts : ℕ
i2c_transfer_attempts = 3

abbrev pub i2c_inter_transfer_delay_us : ℕ
i2c_inter_transfer_delay_us = 200

abbrev pub i2c_retry_delay_us : ℕ
i2c_retry_delay_us = 500

abbrev pub i2c_write_verify_attempts : ℕ
i2c_write_verify_attempts = 5

abbrev pub i2c_write_verify_delay_us : ℕ
i2c_write_verify_delay_us = 200

pub data Transport : Type 0 where
  uart i2c : Transport

pub record Client : Type 0 where
  pub transport : Transport
  pub i2c_address : ℕ

-- `bytes` is `data[0 .. length)`.
pub record Frame : Type 0 where
  pub cmd : ℕ
  pub reg : ℕ
  pub bytes : List ℕ

-- The UART and I2C functions of board/ and drivers/ and the clock. A block read returns its status
-- and the buffer.
pub record Link : Type 1 where
  pub World : Type 0
  pub write_byte : ℕ → World → World × DriverStatus
  pub read_byte : World → World × Option ℕ
  pub clear_rx_buffer : World → World
  pub millis : World → World × ℕ
  pub delay_us : ℕ → World → World
  pub has_i2c_bus : Bool
  pub write_reg8_block : ℕ → ℕ → List ℕ → World → World × DriverStatus
  pub read_reg8 : ℕ → ℕ → ℕ → World → World × (DriverStatus × Array)
  pub probe_address : ℕ → World → World × DriverStatus
  pub recover_bus : World → World × DriverStatus
