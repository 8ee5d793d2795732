-- ===== src/MotorDriver/I2cTarget/Examples.antt =====
-- MotorDriver/board/board_i2c_target.cpp: the theorems on a concrete target.
use guga_pi.MotorDriver.I2cTarget.{start, stop, I2cWrite, I2cTarget, irq_handler}
use guga_pi.MotorDriver.RegisterMap.Update.{init}
use guga_pi.Common.{false, [], ◌∷◌, ◌≡◌, arith, ◌++◌, refl}
use guga_pi.MotorDriver.I2cTarget.Queue.{queued, IsValid, irq_handler-IsValid}
use guga_pi.MotorDriver.I2cTarget.Transactions.{shown, transaction_is_queued, receive_bursts}

abbrev no_write : I2cWrite
no_write = record { reg = 0; length = 0; bytes = λ i. 0 }

-- One write waits in the last entry, and a byte of a broken transaction in the receive buffer.
abbrev target : I2cTarget
target = record {
  selected_reg = 9;
  rx_count = 1;
  rx_buffer = λ i. 9;
  rx_overflow_current = false;
  write_head = 7;
  write_tail = 0;
  write_count = 1;
  writes = λ i. no_write;
  dropped_writes = 0;
  error_flags = 0;
  sda_low_since_ms = 0;
  recovery_count = 0;
  i2c_address = 0x20;
  sda_low_tracking = false;
}

target-IsValid : IsValid target
target-IsValid = record {
  rx_in = omega arith;
  head_in = omega arith;
  count_in = omega arith;
  tail_at = refl;
}

irq_handler-IsValid_example : IsValid (irq_handler target init (stop (4 ∷ 5 ∷ []))).0
irq_handler-IsValid_example = irq_handler-IsValid target init (stop (4 ∷ 5 ∷ [])) target-IsValid

transaction_is_queued_example :
    let t1 = (irq_handler target init (start (3 ∷ []))).0 in
    let t2 = receive_bursts t1 init ((4 ∷ []) ∷ (1 ∷ []) ∷ []) in
    let t3 = (irq_handler t2 init (stop (2 ∷ []))).0 in
    (w : I2cWrite) × (queued t3 ≡ queued target ++ w ∷ []) × (shown w ≡ (4, 1 ∷ 2 ∷ []))
transaction_is_queued_example =
    transaction_is_queued target init (3 ∷ []) ((4 ∷ []) ∷ (1 ∷ []) ∷ []) (2 ∷ []) 4 1 (2 ∷ [])
      target-IsValid refl (omega arith) (omega arith)
