-- ===== src/Controller/MotorClient/Uart.antt =====
-- gugaPI/app/motor_driver_client.h: frames over the UART.
use guga_pi.Controller.MotorClient.Link.{
  Link, Frame, sof, max_payload_length, response_timeout_ms, cmd_write, response_flag,
}
use guga_pi.Controller.Action.{◌>>=◌, ◌>>◌, Act, done, failed, unfinished, checked, pure, refuse_if}
use guga_pi.Controller.DriverStatus.{error, timeout, invalid_arg}
use guga_pi.Common.{
  none, some, true, false, ℕ, if◌then◌else◌, suc, u8, List, bit_and, zero, bit_xor, leb, ◌!=◌, ◌∷◌,
  [], ◌<<◌, sub32, some, ◌==◌, ltb, bit_or, ◌||◌,
}

-- One round of the loop of `Crc8Update`.
abbrev crc8_round : ℕ → ℕ
crc8_round crc = if bit_and crc 0x80 != 0 then u8 (bit_xor (crc << 1) 0x07) else u8 (crc << 1)

unfoldable pub crc8_rounds : ℕ → ℕ → ℕ
crc8_rounds zero crc = crc
crc8_rounds (suc n) crc = crc8_rounds n (crc8_round crc)

unfoldable pub crc8_update : ℕ → ℕ → ℕ
crc8_update crc value = crc8_rounds 8 (u8 (bit_xor crc value))

module _ (l : Link) where
  -- The writes of `SendFrame` up to the check value, which is the result.
  unfoldable pub send_bytes : ℕ → List ℕ → Act l.World ℕ
  send_bytes crc [] = pure crc
  send_bytes crc (x ∷ xs) = do (λ w. checked (l.write_byte x w)); send_bytes (crc8_update crc x) xs

  unfoldable pub send_frame : ℕ → ℕ → List ℕ → ℕ → Act l.World (Unit {0})
  send_frame cmd reg payload len = do
    refuse_if (ltb max_payload_length len) invalid_arg
    crc ← send_bytes 0 (sof ∷ cmd ∷ reg ∷ len ∷ (if cmd == cmd_write then payload else []))
    (λ w. checked (l.write_byte crc w))

  -- The loop of `ReadByteDeadline`, and the status that its callers make of a late byte.
  unfoldable pub read_byte_deadline : ℕ → ℕ → Act l.World ℕ
  read_byte_deadline zero start_ms w = (w, unfinished)
  read_byte_deadline (suc fuel) start_ms w =
      let (w1, now_ms) = l.millis w in
      let (w2, byte) = l.read_byte w1 in
      if leb response_timeout_ms (sub32 now_ms start_ms)
      then (w1, failed timeout)
      else elim byte [ some value ↦ (w2, done value) | none ↦ read_byte_deadline fuel start_ms w2 ]

  -- The loop of `ReceiveFrame` that looks for the start of a frame.
  unfoldable pub find_sof : ℕ → ℕ → ℕ → Act l.World (Unit {0})
  find_sof fuel zero start_ms = λ w. (w, unfinished)
  find_sof fuel (suc bytes) start_ms = do
    value ← read_byte_deadline fuel start_ms
    elim (value == sof) [ true ↦ pure tt | false ↦ find_sof fuel bytes start_ms ]

  -- The loop that receives `n` bytes of payload: the bytes and the check value over them.
  unfoldable pub receive_payload : ℕ → ℕ → ℕ → ℕ → Act l.World (List ℕ × ℕ)
  receive_payload fuel start_ms zero crc = pure ([], crc)
  receive_payload fuel start_ms (suc n) crc = do
    value ← read_byte_deadline fuel start_ms
    rest ← receive_payload fuel start_ms n (crc8_update crc value)
    pure (value ∷ rest.0, rest.1)

  -- `ReceiveFrame` from its first wait on.
  unfoldable pub receive_from : ℕ → ℕ → Act l.World Frame
  receive_from fuel start_ms = do
    find_sof fuel fuel start_ms
    cmd ← read_byte_deadline fuel start_ms
    reg ← read_byte_deadline fuel start_ms
    len ← read_byte_deadline fuel start_ms
    refuse_if (ltb max_payload_length len) error
    payload ←
        receive_payload fuel start_ms len
          (crc8_update (crc8_update (crc8_update (crc8_update 0 sof) cmd) reg) len)
    received ← read_byte_deadline fuel start_ms
    refuse_if (received != payload.1) error
    pure (record { cmd = cmd; reg = reg; bytes = payload.0 })

  unfoldable pub receive_frame : ℕ → Act l.World Frame
  receive_frame fuel w = let (w0, start_ms) = l.millis w in receive_from fuel start_ms w0

  -- `Request` over the UART.
  unfoldable pub uart_request : ℕ → ℕ → ℕ → List ℕ → ℕ → Act l.World Frame
  uart_request fuel cmd reg payload len w =
      (do
        send_frame cmd reg payload len
        frame ← receive_frame fuel
        refuse_if (frame.cmd != u8 (bit_or cmd response_flag) || frame.reg != reg) error
        pure frame)
        (l.clear_rx_buffer w)
