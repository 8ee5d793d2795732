-- ===== src/MotorDriver/I2cTarget/Transactions.antt =====
-- MotorDriver/board/board_i2c_target.cpp: a whole transaction on the bus, from its start to its stop.
use guga_pi.MotorDriver.Flag
use guga_pi.Common.{
  false, [], ◌∷◌, Array, List, ℕ, ◌<◌, length, list_of, ◌+◌, ◌≡◌, ◌≤◌, suc, fill, ap, arith, zero,
  refl, update, ◌∙◌, ◌++◌, u8, ◌-◌, fill_past, list_of-fill, inl, inr,
}
use guga_pi.MotorDriver.I2cTarget.{
  drain_rx_fifo, I2cWrite, I2cTarget, rx_buffer_length, store_rx_byte, received_write,
  reset_rx_transaction, irq_handler, write_queue_length, start, rx_ready, stop, queue_write_from_rx,
}
use guga_pi.MotorDriver.I2cTarget.Queue.{queued, IsValid, drain-IsValid, queue_write_lem}
use guga_pi.MotorDriver.RegisterMap.State.{RegisterMap}

-- A target that has room for the bytes stores them behind those that it has.
drain-stored :
    (t : I2cTarget) (xs : List ℕ)
    → 0 < t.rx_count
    → t.rx_count + length xs ≤ rx_buffer_length
    → drain_rx_fifo t xs
      ≡ record t { rx_buffer = fill t.rx_buffer t.rx_count xs; rx_count = t.rx_count + length xs }
unfolding drain_rx_fifo
drain-stored t [] pos le =
    let e : t.rx_count ≡ t.rx_count + 0 = omega arith in ap (λ n. record t { rx_count = n }) e
drain-stored t (x ∷ xs) pos le =
    let one : store_rx_byte t x
        ≡ record t { rx_buffer = update t.rx_buffer t.rx_count x; rx_count = t.rx_count + 1 } =
      unfold store_rx_byte in ground arith in
    let t1 : I2cTarget = record t {
      rx_buffer = update t.rx_buffer t.rx_count x;
      rx_count = t.rx_count + 1;
    } in
    let count : t.rx_count + 1 + length xs ≡ t.rx_count + suc (length xs) = omega arith in
    rw one (drain-stored t1 xs (omega arith) (omega arith))
    ∙ ap (λ n. record t { rx_buffer = fill t.rx_buffer t.rx_count (x ∷ xs); rx_count = n }) count

length-list_of : (a : Array) (i n : ℕ) → length (list_of a i n) ≡ n
length-list_of a i zero = refl
length-list_of a i (suc n) = ap suc (length-list_of a (i + 1) n)

-- The register and the bytes of a write.
abbrev pub shown : I2cWrite → ℕ × List ℕ
shown w = (w.reg, list_of w.bytes 0 w.length)

shown-received :
    (t : I2cTarget) (a : Array) (reg : ℕ) (payload : List ℕ) (entry : I2cWrite)
    → length payload ≤ Flag.max_payload_length
    → t.rx_buffer ≡ fill (update a 0 reg) 1 payload
    → t.rx_count ≡ 1 + length payload
    → shown (received_write t entry) ≡ (reg, payload)
shown-received t a reg payload entry le buffer count =
    let len : u8 (t.rx_count - 1) ≡ length payload = omega arith in
    let first : fill (update a 0 reg) 1 payload 0 ≡ reg =
      fill_past (update a 0 reg) 1 payload 0 (omega arith) in
    let kept : list_of (fill (update a 0 reg) 1 payload) 1 (length payload) ≡ payload =
      list_of-fill (update a 0 reg) 1 payload in
    rw (len, buffer, first, kept) (ap (λ ys. (reg, ys)) (list_of-fill entry.bytes 0 payload))

drain-append :
    (t : I2cTarget) (xs ys : List ℕ)
    → drain_rx_fifo (drain_rx_fifo t xs) ys ≡ drain_rx_fifo t (xs ++ ys)
unfolding drain_rx_fifo
drain-append t [] ys = refl
drain-append t (x ∷ xs) ys = drain-append (store_rx_byte t x) xs ys

drain-writes : (t : I2cTarget) (xs : List ℕ) → queued (drain_rx_fifo t xs) ≡ queued t
unfolding drain_rx_fifo
drain-writes t [] = refl
drain-writes t (x ∷ xs) =
    let one : queued (store_rx_byte t x) ≡ queued t = unfold store_rx_byte in ground arith in
    drain-writes (store_rx_byte t x) xs ∙ one

drain-count : (t : I2cTarget) (xs : List ℕ) → (drain_rx_fifo t xs).write_count ≡ t.write_count
unfolding drain_rx_fifo
drain-count t [] = refl
drain-count t (x ∷ xs) =
    let one : (store_rx_byte t x).write_count ≡ t.write_count =
      unfold store_rx_byte in ground arith in
    drain-count (store_rx_byte t x) xs ∙ one

-- What a target has after the bytes of a write, from the start of the transaction on.
abbrev filled : I2cTarget → ℕ → List ℕ → I2cTarget
filled t reg payload = record t {
  selected_reg = reg;
  rx_buffer = fill (update t.rx_buffer 0 reg) 1 payload;
  rx_count = 1 + length payload;
  rx_overflow_current = false;
}

drain-filled :
    (t : I2cTarget) (reg : ℕ) (payload : List ℕ)
    → length payload ≤ Flag.max_payload_length
    → drain_rx_fifo (reset_rx_transaction t) (reg ∷ payload) ≡ filled t reg payload
unfolding drain_rx_fifo reset_rx_transaction store_rx_byte
drain-filled t reg payload le =
    drain-stored
      (record t {
        selected_reg = reg;
        rx_buffer = update t.rx_buffer 0 reg;
        rx_count = 1;
        rx_overflow_current = false;
      })
      payload (omega arith) (omega arith)

-- The bytes of several interrupts.
abbrev pub bytes_of : List (List ℕ) → List ℕ
bytes_of [] = []
bytes_of (burst ∷ bursts) = burst ++ bytes_of bursts

-- One receive interrupt after another.
unfoldable pub receive_bursts : I2cTarget → RegisterMap → List (List ℕ) → I2cTarget
receive_bursts t r [] = t
receive_bursts t r (burst ∷ bursts) = receive_bursts (irq_handler t r (rx_ready burst)).0 r bursts

receive_bursts-drain :
    (t : I2cTarget) (r : RegisterMap) (bursts : List (List ℕ))
    → receive_bursts t r bursts ≡ drain_rx_fifo t (bytes_of bursts)
unfolding receive_bursts irq_handler drain_rx_fifo
receive_bursts-drain t r [] = refl
receive_bursts-drain t r (burst ∷ bursts) =
    receive_bursts-drain (drain_rx_fifo t burst) r bursts ∙ drain-append t burst (bytes_of bursts)

-- A write transaction goes through when fewer than eight writes wait: a start, then a register and
-- one to 32 bytes, taken by any number of receive interrupts and by the stop, in any division, join
-- the end of the queue as one write of those bytes to that register, whatever was in the receive
-- buffer before.
pub transaction_is_queued :
    (t : I2cTarget) (r : RegisterMap) (late : List ℕ) (early : List (List ℕ)) (rest : List ℕ)
    (reg x : ℕ) (xs : List ℕ)
    → IsValid t
    → bytes_of early ++ rest ≡ reg ∷ x ∷ xs
    → length (x ∷ xs) ≤ Flag.max_payload_length
    → t.write_count < write_queue_length
    → let t1 = (irq_handler t r (start late)).0 in
      let t2 = receive_bursts t1 r early in
      let t3 = (irq_handler t2 r (stop rest)).0 in
      (w : I2cWrite) × (queued t3 ≡ queued t ++ w ∷ []) × (shown w ≡ (reg, x ∷ xs))
unfolding irq_handler reset_rx_transaction
transaction_is_queued t r late early rest reg x xs v split le room =
    elim (queue_write_lem f vf (omega arith) refl) [
      | inl (_, joined, _) ↦ (
        received_write f (f.writes f.write_tail),
        ap (λ s. queued (queue_write_from_rx s)) whole
            ∙ joined
            ∙ ap (λ q. q ++ received_write f (f.writes f.write_tail) ∷ []) (drain-writes t late),
        shown-received f d.rx_buffer reg (x ∷ xs) (f.writes f.write_tail) le refl refl,
      )
      | inr (full, _, _) ↦ absurd (omega (arith, drain-count t late))
    ]
  where
    d : I2cTarget
    d = drain_rx_fifo t late

    f : I2cTarget
    f = filled d reg (x ∷ xs)

    vd : IsValid d
    vd = drain-IsValid t late v

    vf : IsValid f
    vf = record {
      rx_in = omega arith;
      head_in = vd.head_in;
      count_in = vd.count_in;
      tail_at = vd.tail_at;
    }

    whole : drain_rx_fifo (receive_bursts (reset_rx_transaction d) r early) rest ≡ f
    whole =
        ap (λ q. drain_rx_fifo q rest) (receive_bursts-drain (reset_rx_transaction d) r early)
        ∙ drain-append (reset_rx_transaction d) (bytes_of early) rest
        ∙ ap (drain_rx_fifo (reset_rx_transaction d)) split
        ∙ drain-filled d reg (x ∷ xs) le
