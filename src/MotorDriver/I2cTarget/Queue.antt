-- ===== src/MotorDriver/I2cTarget/Queue.antt =====
-- MotorDriver/board/board_i2c_target.cpp: the eight entries are a bounded queue of writes.
use guga_pi.MotorDriver.I2cTarget.{
  tx_underflow, rx_overflow, arbitration_lost, interrupt_overflow, other,
}
use guga_pi.Common.{
  none, some, false, [], ◌∷◌, ◌≤◌, List, ℕ, arith, ◌<◌, ◌≡◌, entries, Bool, ◌⊎◌, index_after,
  Bool-cases, ◌++◌, inl, inr, u32, ◌+◌, leb, u8, suc, entries-set_entry, refl, fill, list_of, ◌%◌,
  ◌-◌, ltb, ring_next, ap, ◌∙◌,
}
use guga_pi.MotorDriver.I2cTarget.{
  I2cTarget, store_rx_byte, drain_rx_fifo, queue_write_from_rx, reset_rx_transaction, fill_tx_fifo,
  read_selected_register, irq_handler, take_write, rx_buffer_length, I2cWrite, write_queue_length,
  Interrupt, start, rx_ready, received_write, tx_ready, stop,
}
use guga_pi.MotorDriver.RegisterMap.State.{RegisterMap}

-- The counters are in their arrays, and the tail is where the entries end.
pub record IsValid (t : I2cTarget) : Type 0 where
  pub rx_in : t.rx_count ≤ rx_buffer_length
  pub head_in : t.write_head < write_queue_length
  pub count_in : t.write_count ≤ write_queue_length
  pub tail_at : t.write_tail ≡ index_after write_queue_length t.write_head t.write_count

-- The writes that wait, the oldest first.
abbrev pub queued : I2cTarget → List I2cWrite
queued t = entries t.writes write_queue_length t.write_head t.write_count

store_rx_byte-IsValid : (t : I2cTarget) (x : ℕ) → IsValid t → IsValid (store_rx_byte t x)
unfolding store_rx_byte
store_rx_byte-IsValid t x v = ground arith

pub drain-IsValid : (t : I2cTarget) (xs : List ℕ) → IsValid t → IsValid (drain_rx_fifo t xs)
unfolding drain_rx_fifo
drain-IsValid t [] v = v
drain-IsValid t (x ∷ xs) v = drain-IsValid (store_rx_byte t x) xs (store_rx_byte-IsValid t x v)

queue_write-IsValid : (t : I2cTarget) → IsValid t → IsValid (queue_write_from_rx t)
unfolding queue_write_from_rx
queue_write-IsValid t v = ground arith

reset_rx-IsValid : (t : I2cTarget) → IsValid t → IsValid (reset_rx_transaction t)
unfolding reset_rx_transaction
reset_rx-IsValid t v = ground arith

fill_tx-IsValid :
    (t : I2cTarget) (r : RegisterMap) (answers : List Bool)
    → IsValid t
    → IsValid (fill_tx_fifo t r answers).0
unfolding fill_tx_fifo read_selected_register
fill_tx-IsValid t r [] v = v
fill_tx-IsValid t r (accepted ∷ answers) v =
    let t1 = (read_selected_register t r).1 in
    let v1 : IsValid t1 = ground arith in
    let rest = fill_tx-IsValid t1 r answers v1 in
    elim (Bool-cases accepted) [ inl e ↦ rw e rest | inr e ↦ rw e v1 ]

-- Every interrupt, whatever the bus carries, keeps the counters of the receive buffer and of the
-- queue inside their arrays, and the tail of the queue where its entries end.
pub irq_handler-IsValid :
    (t : I2cTarget) (r : RegisterMap) (i : Interrupt) → IsValid t → IsValid (irq_handler t r i).0
unfolding irq_handler
irq_handler-IsValid t r (start bytes) v = reset_rx-IsValid _ (drain-IsValid t bytes v)
irq_handler-IsValid t r (rx_ready bytes) v = drain-IsValid t bytes v
irq_handler-IsValid t r (tx_ready answers) v = fill_tx-IsValid t r answers v
irq_handler-IsValid t r (stop bytes) v =
    reset_rx-IsValid _ (queue_write-IsValid _ (drain-IsValid t bytes v))
irq_handler-IsValid t r tx_underflow v = ground arith
irq_handler-IsValid t r rx_overflow v = ground arith
irq_handler-IsValid t r arbitration_lost v = ground arith
irq_handler-IsValid t r interrupt_overflow v = ground arith
irq_handler-IsValid t r other v = v

-- A write in the receive buffer joins the end of the queue when there is room for it, and is
-- dropped and counted when there is none.
pub queue_write_lem :
    (t : I2cTarget)
    → IsValid t
    → 1 < t.rx_count
    → t.rx_overflow_current ≡ false
    → let t' = queue_write_from_rx t in
      ((t.write_count < write_queue_length)
        × (queued t' ≡ queued t ++ received_write t (t.writes t.write_tail) ∷ [])
        × (t'.dropped_writes ≡ t.dropped_writes))
      ⊎ ((t.write_count ≡ write_queue_length)
          × (queued t' ≡ queued t)
          × (t'.dropped_writes ≡ u32 (t.dropped_writes + 1)))
unfolding queue_write_from_rx
queue_write_lem t v two whole =
    let long : leb t.rx_count 1 ≡ false = ground arith in
    elim (Bool-cases (leb write_queue_length t.write_count)) [
      | inl e ↦ inr (ground arith, rw (long, whole, e) refl, rw (long, whole, e) refl)
      | inr e ↦
          let room : t.write_count < write_queue_length = ground arith in
          let counted : u8 (t.write_count + 1) ≡ suc t.write_count = omega arith in
          let added =
            entries-set_entry t.writes write_queue_length t.write_head t.write_count
              (received_write t (t.writes t.write_tail)) t.write_tail v.head_in room v.tail_at in
          inl (room, rw (long, whole, e, counted) added, rw (long, whole, e) refl)
    ]

-- Taking a write: either the queue is empty and there is none, or the write that comes is the first
-- of the queue, its bytes stored over the caller's, and the rest of the queue is left.
pub take_write_lem :
    (t : I2cTarget) (into : I2cWrite)
    → IsValid t
    → ((queued t ≡ []) × (take_write t into ≡ none))
      ⊎ ((w : I2cWrite) × (t' : I2cTarget) × (queued t ≡ w ∷ queued t')
          × (take_write t into
              ≡ some (record w { bytes = fill into.bytes 0 (list_of w.bytes 0 w.length) }, t'))
          × IsValid t')
unfolding take_write entries
take_write_lem t into v = elim (Bool-cases (ltb 0 t.write_count)) [
  | inl e ↦
      let one_more : t.write_count ≡ suc (u8 (t.write_count - 1)) = ground arith in
      let next : u8 ((t.write_head + 1) % 8) ≡ ring_next 8 t.write_head = ground arith in
      inr (
        t.writes t.write_head,
        after,
        ap (entries t.writes 8 t.write_head) one_more ∙ rw next refl,
        rw e refl,
        ground arith,
      )
  | inr e ↦ inl (ground arith, rw e refl)
]
  where
    after : I2cTarget
    after = record t {
      write_head = u8 ((t.write_head + 1) % write_queue_length);
      write_count = u8 (t.write_count - 1);
    }
