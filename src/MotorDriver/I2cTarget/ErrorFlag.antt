-- ===== src/MotorDriver/I2cTarget/ErrorFlag.antt =====
-- MotorDriver/board/board_i2c_target.cpp: the error flags (`ErrorFlag.rx_overflow` is
-- `kErrorRxOverflow`).
use Prim.Native.Nat.{ℕ}

abbrev pub rx_overflow : ℕ
rx_overflow = 0x01

abbrev pub dropped_write : ℕ
dropped_write = 0x02

abbrev pub tx_underflow : ℕ
tx_underflow = 0x04

abbrev pub arbitration_lost : ℕ
arbitration_lost = 0x08

abbrev pub interrupt_overflow : ℕ
interrupt_overflow = 0x10

abbrev pub bus_stuck_recovery : ℕ
bus_stuck_recovery = 0x20
