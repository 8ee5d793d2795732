-- ===== src/Controller/MotorClient/Registers.antt =====
-- gugaPI/app/motor_driver_client.h: register transfers over either bus, and verified writes. The
-- pointers that the functions take are not null.
use guga_pi.Controller.MotorClient.Link.{
  Link, Client, Frame, Transport, uart, i2c, max_payload_length, i2c_inter_transfer_delay_us,
  i2c_retry_delay_us, cmd_read, cmd_write, cmd_heartbeat, i2c_write_verify_delay_us, status_ok,
  i2c_transfer_attempts, response_flag, i2c_write_verify_attempts,
}
use guga_pi.Controller.Action.{
  Act, done, failed, unfinished, checked, ◌>>=◌, ◌>>◌, refuse_if, pure, fail,
}
use guga_pi.Controller.MotorClient.Uart.{uart_request}
use guga_pi.Controller.DriverStatus.{DriverStatus, ok, error, timeout, invalid_arg, busy, nack}
use guga_pi.Common.{
  list_of, ℕ, Array, true, false, if◌then◌else◌, Bool, List, suc, ltb, [], length, ◌==◌, ◌||◌, ◌∷◌,
  ◌&&◌, zero, not, u8, ◌+◌, get_or, bit_or,
}

unfoldable pub set_bus : Client → Transport → Client
set_bus c transport = record c { transport = transport }

-- The limits of the address are those of drivers/i2c_diag/i2c_diag.h.
unfoldable pub set_i2c_address : Client → ℕ → Client × DriverStatus
set_i2c_address c address =
    if ltb address 0x08 || ltb 0x77 address
    then (c, invalid_arg)
    else (record c { i2c_address = address }, ok)

-- The statuses after which a transfer is tried again.
abbrev pub is_retriable : DriverStatus → Bool
is_retriable nack = true
is_retriable timeout = true
is_retriable busy = true
is_retriable error = true
is_retriable _ = false

abbrev pub bytes_equal : List ℕ → List ℕ → Bool
bytes_equal [] [] = true
bytes_equal (x ∷ xs) (y ∷ ys) = x == y && bytes_equal xs ys
bytes_equal _ _ = false

unfoldable pub status_ok_response : Frame → Bool
status_ok_response frame = length frame.bytes == 1 && get_or frame.bytes 0 0 == status_ok

module _ (l : Link) where
  abbrev finish_i2c_transfer : l.World → l.World
  finish_i2c_transfer w = l.delay_us i2c_inter_transfer_delay_us w

  unfoldable pub recover_i2c_before_retry : l.World → l.World × DriverStatus
  recover_i2c_before_retry w =
      let (w1, status) = l.recover_bus w in (l.delay_us i2c_retry_delay_us w1, status)

  abbrev is_ok : DriverStatus → Bool
  is_ok ok = true
  is_ok _ = false

  -- The loop over the attempts of a transfer, `n` of them left, that `I2cWriteReg` and the branches of
  -- `I2cRequest` share.
  unfoldable pub attempt_transfer : {A : Type 0} → Act l.World A → ℕ → Act l.World A
  attempt_transfer transfer zero w = (finish_i2c_transfer w, failed error)
  attempt_transfer transfer (suc n) w =
      let (w1, r) = transfer w in
      elim r [
        | done a ↦ (finish_i2c_transfer w1, done a)
        | unfinished ↦ (w1, unfinished)
        | failed status ↦
            let (w2, recovery) = recover_i2c_before_retry w1 in
            elim (is_retriable status) [
              | false ↦ (w1, failed status)
              | true ↦ elim (n == 0) [
                | true ↦ (finish_i2c_transfer w1, failed status)
                | false ↦ elim (is_ok recovery) [
                  | true ↦ attempt_transfer transfer n w2
                  | false ↦ (w2, failed status)
                ]
              ]
            ]
      ]

  unfoldable pub i2c_write_reg : Client → ℕ → List ℕ → Act l.World (Unit {0})
  i2c_write_reg c reg payload = do
    refuse_if (not l.has_i2c_bus || length payload == 0 || ltb 256 (reg + length payload))
        invalid_arg
    attempt_transfer (λ w. checked (l.write_reg8_block c.i2c_address reg payload w))
        i2c_transfer_attempts

  abbrev read_block : Client → ℕ → ℕ → Act l.World Array
  read_block c reg len w =
      let (w1, (status, buffer)) = l.read_reg8 c.i2c_address reg len w in
      (w1, if is_ok status then done buffer else failed status)

  -- A response that was not a frame of its own.
  abbrev reply : ℕ → ℕ → List ℕ → Act l.World Frame
  reply cmd reg bytes w =
      (w, done (record { cmd = u8 (bit_or cmd response_flag); reg = reg; bytes = bytes }))

  unfoldable pub i2c_request : Client → ℕ → ℕ → List ℕ → ℕ → Act l.World Frame
  i2c_request c cmd reg payload len =
      let allowed = refuse_if (not l.has_i2c_bus || ltb max_payload_length len) invalid_arg in
      if cmd == cmd_read
      then (do
        allowed
        refuse_if (len == 0) invalid_arg
        buffer ← attempt_transfer (read_block c reg len) i2c_transfer_attempts
        reply cmd reg (list_of buffer 0 len))
      else if cmd == cmd_write
      then (do allowed; i2c_write_reg c reg payload; reply cmd reg (status_ok ∷ []))
      else if cmd == cmd_heartbeat
      then (do
        allowed
        attempt_transfer (λ w. checked (l.probe_address c.i2c_address w)) i2c_transfer_attempts
        reply cmd reg (status_ok ∷ []))
      else (do allowed; fail invalid_arg)

  module _ (fuel : ℕ) (c : Client) where
    unfoldable pub request : ℕ → ℕ → List ℕ → ℕ → Act l.World Frame
    request cmd reg payload len = elim c.transport [
      | i2c ↦ i2c_request c cmd reg payload len
      | uart ↦ uart_request l fuel cmd reg payload len
    ]

    unfoldable pub read_registers : ℕ → ℕ → Act l.World Frame
    read_registers reg len = request cmd_read reg [] len

    unfoldable pub write_registers : ℕ → List ℕ → Act l.World Frame
    write_registers reg payload = request cmd_write reg payload (length payload)

    -- The loop of `VerifyRegisters`, with `n` attempts left.
    unfoldable pub attempt_verify : ℕ → ℕ → List ℕ → DriverStatus → Act l.World (Unit {0})
    attempt_verify zero reg expected last_status w = (w, failed last_status)
    attempt_verify (suc n) reg expected last_status w =
        let (w1, r) = read_registers reg (length expected) w in
        let w2 = if n == 0 then w1 else l.delay_us i2c_write_verify_delay_us w1 in
        elim r [
          | unfinished ↦ (w1, unfinished)
          | failed status ↦ attempt_verify n reg expected status w2
          | done frame ↦ elim (bytes_equal frame.bytes expected) [
            | true ↦ (w1, done tt)
            | false ↦ attempt_verify n reg expected error w2
          ]
        ]

    unfoldable pub verify_registers : ℕ → List ℕ → Act l.World (Unit {0})
    verify_registers reg expected = do
      refuse_if
          (length expected == 0
            || ltb max_payload_length (length expected)
            || ltb 256 (reg + length expected))
          invalid_arg
      attempt_verify (elim c.transport [ i2c ↦ i2c_write_verify_attempts | uart ↦ 1 ]) reg expected
          error

    unfoldable pub write_registers_checked : ℕ → List ℕ → Act l.World (Unit {0})
    write_registers_checked reg payload = do
      frame ← write_registers reg payload
      refuse_if (not (status_ok_response frame)) error
      elim c.transport [ i2c ↦ verify_registers reg payload | uart ↦ pure tt ]

    -- The result is what `Ping` stores through `ok`.
    unfoldable pub ping : Act l.World Bool
    ping = do frame ← request cmd_heartbeat 0 [] 0; pure (status_ok_response frame)
