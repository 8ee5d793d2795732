-- ===== src/MotorDriver/I2cTarget.antt =====
-- MotorDriver/board/board_i2c_target.cpp: the I2C target, its interrupt handler and the queue of
-- writes. What the vendor's DL_ and NVIC_ functions give is an argument; what they do to the
-- peripheral is left out. The register map that the target reads has been set.
pub mod ErrorFlag
pub mod Queue
pub mod Transactions
mod Examples
use guga_pi.MotorDriver.Flag
use guga_pi.MotorDriver.I2cTarget.ErrorFlag
use guga_pi.MotorDriver.RegisterMap.Write.{read}
use guga_pi.Common.{
  zero, suc, none, some, true, false, [], ◌∷◌, ℕ, List, u8, if◌then◌else◌, u32, Option, ◌+◌, Array,
  bit_or, ◌!=◌, Bool, ◌==◌, ◌-◌, leb, ltb, update, fill, ◌||◌, not, list_of, set_entry, sub32, ◌%◌,
}
use guga_pi.MotorDriver.RegisterMap.State.{RegisterMap}

abbrev pub rx_buffer_length : ℕ
rx_buffer_length = Flag.max_payload_length + 1

abbrev pub write_queue_length : ℕ
write_queue_length = 8

abbrev pub bus_stuck_recovery_ms : ℕ
bus_stuck_recovery_ms = 50

-- `board::BoardI2cTargetWrite`, and an entry of the three arrays of the queue.
pub record I2cWrite : Type 0 where
  pub reg : ℕ
  pub length : ℕ
  pub bytes : Array

pub record I2cTarget : Type 0 where
  pub selected_reg : ℕ
  pub rx_count : ℕ
  pub rx_buffer : Array
  pub rx_overflow_current : Bool
  pub write_head : ℕ
  pub write_tail : ℕ
  pub write_count : ℕ
  pub writes : ℕ → I2cWrite
  pub dropped_writes : ℕ
  pub error_flags : ℕ
  pub sda_low_since_ms : ℕ
  pub recovery_count : ℕ
  pub i2c_address : ℕ
  pub sda_low_tracking : Bool

abbrev pub raise : I2cTarget → ℕ → I2cTarget
raise t flag = record t { error_flags = bit_or t.error_flags flag }

unfoldable pub reset_rx_transaction : I2cTarget → I2cTarget
reset_rx_transaction t = record t { rx_count = 0; rx_overflow_current = false }

unfoldable pub read_selected_register : I2cTarget → RegisterMap → ℕ × I2cTarget
read_selected_register t r =
    let value = read r t.selected_reg in
    if t.selected_reg != 0xFF
    then (value, record t { selected_reg = u8 (t.selected_reg + 1) })
    else (value, t)

-- The values that go to the transmit FIFO, with what DL_I2C_transmitTargetDataCheck answers for each
-- as long as the FIFO is not full.
unfoldable pub fill_tx_fifo : I2cTarget → RegisterMap → List Bool → I2cTarget × List ℕ
fill_tx_fifo t r [] = (t, [])
fill_tx_fifo t r (accepted ∷ answers) =
    let (value, t1) = read_selected_register t r in
    let (t2, values) = fill_tx_fifo t1 r answers in
    if accepted then (t2, value ∷ values) else (t1, [])

unfoldable pub store_rx_byte : I2cTarget → ℕ → I2cTarget
store_rx_byte t value =
    let t1 = if t.rx_count == 0 then record t { selected_reg = value } else t in
    if ltb t.rx_count rx_buffer_length
    then record t1 {
      rx_buffer = update t.rx_buffer t.rx_count value;
      rx_count = u8 (t.rx_count + 1);
    }
    else raise (record t1 { rx_overflow_current = true }) ErrorFlag.rx_overflow

-- The bytes that DL_I2C_receiveTargetDataCheck gives.
unfoldable pub drain_rx_fifo : I2cTarget → List ℕ → I2cTarget
drain_rx_fifo t [] = t
drain_rx_fifo t (x ∷ xs) = drain_rx_fifo (store_rx_byte t x) xs

-- The write that stands in the receive buffer, stored over an entry.
abbrev pub received_write : I2cTarget → I2cWrite → I2cWrite
received_write t entry =
    let length = u8 (t.rx_count - 1) in
    record {
      reg = t.rx_buffer 0;
      length = length;
      bytes = fill entry.bytes 0 (list_of t.rx_buffer 1 length);
    }

unfoldable pub queue_write_from_rx : I2cTarget → I2cTarget
queue_write_from_rx t =
    let slot = t.write_tail in
    if leb t.rx_count 1 || t.rx_overflow_current
    then t
    else if leb write_queue_length t.write_count
    then raise (record t { dropped_writes = u32 (t.dropped_writes + 1) }) ErrorFlag.dropped_write
    else record t {
      writes = set_entry t.writes slot (received_write t (t.writes slot));
      write_tail = u8 ((t.write_tail + 1) % write_queue_length);
      write_count = u8 (t.write_count + 1);
    }

unfoldable pub recover_target_peripheral : I2cTarget → I2cTarget
recover_target_peripheral t =
    let t1 = record (reset_rx_transaction t) { write_head = 0; write_tail = 0; write_count = 0 } in
    record (raise t1 ErrorFlag.bus_stuck_recovery) {
      recovery_count = u32 (t.recovery_count + 1);
      sda_low_tracking = false;
    }

unfoldable pub i2c_target_init : I2cTarget → I2cTarget
i2c_target_init t = record (reset_rx_transaction t) {
  selected_reg = 0;
  write_head = 0;
  write_tail = 0;
  write_count = 0;
  dropped_writes = 0;
  error_flags = 0;
  sda_low_since_ms = 0;
  recovery_count = 0;
  sda_low_tracking = false;
}

-- With the levels of the two lines.
unfoldable pub i2c_target_process : I2cTarget → ℕ → Bool → Bool → I2cTarget × Bool
i2c_target_process t now_ms scl_high sda_high =
    if not scl_high || sda_high
    then (record t { sda_low_tracking = false }, false)
    else if not t.sda_low_tracking
    then (record t { sda_low_since_ms = now_ms; sda_low_tracking = true }, false)
    else if ltb (sub32 now_ms t.sda_low_since_ms) bus_stuck_recovery_ms
    then (t, false)
    else (recover_target_peripheral t, true)

-- `BoardI2cTarget_TakeWrite`, whose argument is not null. The write taken is stored over `into`.
unfoldable pub take_write : I2cTarget → I2cWrite → Option (I2cWrite × I2cTarget)
take_write t into =
    let entry = t.writes t.write_head in
    if ltb 0 t.write_count
    then some (
      record entry { bytes = fill into.bytes 0 (list_of entry.bytes 0 entry.length) },
      record t {
        write_head = u8 ((t.write_head + 1) % write_queue_length);
        write_count = u8 (t.write_count - 1);
      },
    )
    else none

unfoldable pub i2c_target_set_address : I2cTarget → ℕ → I2cTarget
i2c_target_set_address t address = record t { i2c_address = address }

-- The pending interrupts, with the bytes of the receive FIFO or the answers of the transmit FIFO.
pub data Interrupt : Type 0 where
  start rx_ready stop : List ℕ → Interrupt
  tx_ready : List Bool → Interrupt
  tx_underflow rx_overflow arbitration_lost interrupt_overflow other : Interrupt

-- The state after `BoardI2cTarget_IrqHandler`, and the values sent.
unfoldable pub irq_handler : I2cTarget → RegisterMap → Interrupt → I2cTarget × List ℕ
irq_handler t r (start bytes) = (reset_rx_transaction (drain_rx_fifo t bytes), [])
irq_handler t r (rx_ready bytes) = (drain_rx_fifo t bytes, [])
irq_handler t r (tx_ready answers) = fill_tx_fifo t r answers
irq_handler t r (stop bytes) =
    (reset_rx_transaction (queue_write_from_rx (drain_rx_fifo t bytes)), [])
irq_handler t r tx_underflow = (raise t ErrorFlag.tx_underflow, [])
irq_handler t r rx_overflow = (raise t ErrorFlag.rx_overflow, [])
irq_handler t r arbitration_lost = (raise t ErrorFlag.arbitration_lost, [])
irq_handler t r interrupt_overflow = (raise t ErrorFlag.interrupt_overflow, [])
irq_handler t r other = (t, [])
