-- ===== src/MotorDriver/App/Loop.antt =====
-- MotorDriver/app/motor_app.cpp: the main loop around `MotorApp_Process`, and the end of its loop
-- over the received bytes.
use guga_pi.MotorDriver.App.{
  Board, MotorApp, tick_from_isr, handle_encoder_control, receive_byte, refresh_lease_from_write,
  refresh_lease_from_keepalive, check_i2c_address_changed, sync_encoder_registers, after_write,
}
use guga_pi.MotorDriver.Reg
use guga_pi.MotorDriver.Flag
use guga_pi.MotorDriver.RegisterMap.Write.{read}
use guga_pi.MotorDriver.RegisterMap.State.{encoder_control}
use guga_pi.MotorDriver.UartLink.{
  UartLinkContext, UartLinkConfig, next_rx_index, read_byte as link_read,
}
use guga_pi.MotorDriver.UartLink.Queue.{IsValid, waiting, contents, read_byte_lem, length-contents}
use guga_pi.Common.{
  [], ◌∷◌, none, some, true, zero, suc, ℕ, List, ◌≡◌, ◌<◌, [], Bool, arith, inl, inr, if◌then◌else◌,
  bit_and, Bool-cases, ◌∙◌, ◌!=◌, ap, false, refl, sym, length,
}
use guga_pi.MotorDriver.App.Process.{process_serial_rx, process, motor_app_init}
use guga_pi.MotorDriver.Drv8701.Drive.{IsPhaseSafe}
use guga_pi.MotorDriver.App.Outputs.{process_stops, IsSafe, IsUnpowered, motor_app_init-IsSafe}

-- The tick interrupt, or a call of `MotorApp_Process`.
pub data LoopStep : Type 0 where
  ticked : LoopStep
  processed : ℕ → LoopStep

module _ (b : Board) where
  unfoldable pub loop : MotorApp b → List LoopStep → MotorApp b
  loop a [] = a
  loop a (ticked ∷ es) = loop (tick_from_isr b a) es
  loop a (processed fuel ∷ es) = loop (process b fuel a) es

  abbrev IsAtRest : MotorApp b → Type 0
  IsAtRest a = IsSafe b a × (a.timeout_active ≡ true → IsUnpowered a.control.outputs)

  tick-IsAtRest : (a : MotorApp b) → IsAtRest a → IsAtRest (tick_from_isr b a)
  unfolding tick_from_isr
  tick-IsAtRest a (v, stopped) = (record { tracked = v.tracked; stopped = v.stopped }, stopped)

  loop-IsAtRest : (a : MotorApp b) (es : List LoopStep) → IsAtRest a → IsAtRest (loop a es)
  unfolding loop
  loop-IsAtRest a [] v = v
  loop-IsAtRest a (ticked ∷ es) v = loop-IsAtRest (tick_from_isr b a) es (tick-IsAtRest a v)
  loop-IsAtRest a (processed fuel ∷ es) v =
      loop-IsAtRest (process b fuel a) es (process_stops b fuel a v.0)

  -- From the initialisation on, between any two steps of the main loop, whatever bytes, writes and
  -- recoveries the peripherals had and however time passed: while the timeout is on, the enable
  -- pins of both bridges are connected to the port, driven and low. The phase pins are supposed not
  -- to have been written under drive before the initialisation, as when nothing was called.
  pub timeout_unpowers :
      (a : MotorApp b) (es : List LoopStep)
      → IsPhaseSafe a.control.outputs.calls
      → (loop (motor_app_init b a) es).timeout_active ≡ true
      → IsUnpowered (loop (motor_app_init b a) es).control.outputs
  timeout_unpowers a es v =
      let (safe, off) = motor_app_init-IsSafe b a v in
      (loop-IsAtRest (motor_app_init b a) es (safe, λ _. off)).1

  -- The serial port of the board is the link `link`: a read is `UartLink_ReadByte`, and the other
  -- calls that the loop makes leave the receive buffer alone.
  pub record IsLinked (link : b.State → UartLinkContext) : Type 0 where
    pub idles : (s : b.State) → link_read (link s) ≡ none → b.read_byte s ≡ none
    pub takes :
        (s : b.State) (v : ℕ) (c : UartLinkContext)
        → link_read (link s) ≡ some (v, c)
        → (s' : b.State) × (b.read_byte s ≡ some (v, s')) × (link s' ≡ c)
    pub writes : (s : b.State) (bytes : List ℕ) → link (b.uart_write s bytes) ≡ link s
    pub resets : (s : b.State) (e : Bool) → link (b.reset_encoder s e) ≡ link s
    pub sets : (s : b.State) (v : ℕ) → link (b.set_address s v) ≡ link s
    pub saves : (s : b.State) (v : ℕ) → link (b.save_address s v) ≡ link s

  module _ (link : b.State → UartLinkContext) (d : IsLinked link) where
    link_if : (c : Bool) (s s' : b.State) → link s ≡ link s' → link (if c then s else s') ≡ link s'
    link_if true s s' h = h
    link_if false s s' h = refl

    encoder-link : (a : MotorApp b) → link (handle_encoder_control b a).board ≡ link a.board
    unfolding handle_encoder_control sync_encoder_registers
    encoder-link a =
        let control = encoder_control a.registers in
        let first = bit_and control Flag.encoder_control_reset_m1 != 0 in
        let second = bit_and control Flag.encoder_control_reset_m2 != 0 in
        let b1 = if first then b.reset_encoder a.board true else a.board in
        let kept =
          link_if second (b.reset_encoder b1 false) b1 (d.resets b1 false)
          ∙ link_if first (b.reset_encoder a.board true) a.board (d.resets a.board true) in
        elim (Bool-cases (control != 0)) [ inl e ↦ rw e kept | inr e ↦ rw e kept ]

    address-link : (a : MotorApp b) → link (check_i2c_address_changed b a).board ≡ link a.board
    unfolding check_i2c_address_changed
    address-link a =
        let addr = read a.registers Reg.i2c_address in
        elim (Bool-cases (addr != b.address a.board)) [
          | inl e ↦ rw e (d.saves (b.set_address a.board addr) addr ∙ d.sets a.board addr)
          | inr e ↦ rw e refl
        ]

    lease-board : (a : MotorApp b) → (refresh_lease_from_write b a).board ≡ a.board
    unfolding refresh_lease_from_write
    lease-board a = ground arith

    after_write-link : (a : MotorApp b) → link (after_write b a).board ≡ link a.board
    after_write-link a =
        address-link (refresh_lease_from_write b (handle_encoder_control b a))
        ∙ ap link (lease-board (handle_encoder_control b a))
        ∙ encoder-link a

    receive_byte-link :
        (a : MotorApp b) (value : ℕ) → link (receive_byte b a value).board ≡ link a.board
    unfolding receive_byte refresh_lease_from_keepalive
    receive_byte-link a value = grind (arith, d.writes, after_write-link)

    -- The loop over the received bytes ends: when the serial port is a valid link and no byte comes
    -- while the loop runs, a bound above the number of bytes that wait in the buffer is enough, and
    -- after it the buffer is empty and a read gives none.
    pub serial_rx_drains :
        (config : UartLinkConfig) (fuel : ℕ) (a : MotorApp b)
        → IsValid config (link a.board)
        → waiting config (link a.board) < fuel
        → let a' = process_serial_rx b fuel a in
          (contents config (link a'.board) ≡ []) × (b.read_byte a'.board ≡ none)
    unfolding process_serial_rx
    serial_rx_drains config zero a v h = absurd (omega arith)
    serial_rx_drains config (suc fuel) a v h = elim (read_byte_lem config (link a.board) v) [
      | inl (empty, e) ↦ let idle = d.idles a.board e in rw (idle, process_serial_rx) (empty, idle)
      | inr (first, e, valid) ↦
          let (rest, taken, left) = d.takes a.board _ _ e in
          let a1 = record a { board = rest } in
          let value = (link a.board).rx_buffer (link a.board).rx_tail in
          let same = receive_byte-link a1 value ∙ left in
          let before : UartLinkContext = link a.board in
          let after = record before { rx_tail = next_rx_index config before.rx_tail } in
          let fewer : waiting config before ≡ suc (waiting config after) =
            sym (length-contents config before)
            ∙ ap length first
            ∙ ap suc (length-contents config after) in
          let left_over = ap (λ (c : UartLinkContext). waiting config c) same in
          rw (taken, process_serial_rx)
            (serial_rx_drains config fuel (receive_byte b a1 value) (rw same valid)
              (omega (arith, fewer, left_over)))
    ]
