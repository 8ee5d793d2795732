-- ===== src/Controller/MotorClient/EndToEnd.antt =====
-- gugaPI/app/motor_driver_client.h with MotorDriver/protocol: calls of the client over a UART, and what
-- they leave in the registers of the driver.
use guga_pi.Controller.MotorClient.Link.{
  Link, Client, Frame, uart, sof, max_payload_length, cmd_read, cmd_write, response_flag,
}
use guga_pi.Controller.MotorClient.Uart.{uart_request, send_frame}
use guga_pi.Controller.MotorClient.Wire.{IsWire, Holds, joined}
use guga_pi.Controller.MotorClient.Reception.{crc_over, receive_frame-Yields}
use guga_pi.Controller.MotorClient.Requests.{Fed, send_frame-Yields, crc_over-same}
use guga_pi.MotorDriver.Serial
use guga_pi.MotorDriver.Serial.{Parser, crc8_over}
use guga_pi.MotorDriver.Serial.Frames.{feed}
use guga_pi.MotorDriver.RegisterMap.State.{RegisterMap}
use mathlib.Core.List.{append-nil}
use guga_pi.MotorDriver.Flag
use guga_pi.MotorDriver.Serial.Requests.{read_answer, read_frame_lem}
use guga_pi.MotorDriver.RegisterMap.Write.{read_block, commit_write}
use guga_pi.Controller.MotorClient.Registers.{read_registers, request, verify_registers}
use guga_pi.Controller.MotorClient.Registers.{
  write_registers_checked, write_registers, status_ok_response,
}
use guga_pi.Controller.MotorClient.Link.{i2c}
use guga_pi.Controller.Action.{Act, pure, ◌>>=◌, Result, done, failed, refuse_if, ◌>>=◌}
use guga_pi.Controller.DriverStatus.{error}
use guga_pi.MotorDriver.Serial.Requests.{frame, frame_crc, write_status, write_frame_lem}
use guga_pi.Common.{
  not, none, some, ℕ, List, ◌<◌, ◌∷◌, ◌≡◌, ◌≤◌, u8, length, bit_or, if◌then◌else◌, [], ◌==◌, ◌++◌,
  refl, ◌∙◌, arith, Option, ap, none, some, Bool, subst, array_of,
}
use guga_pi.Controller.Yields.{Yields, bind-Yields, refuse_if-Yields, pure-Yields, bind-result}
use guga_pi.MotorDriver.Serial.Invariant.{length-read_from}
use guga_pi.Controller.Action.{done}

-- A response of the driver, as the client reads it.
abbrev reply_bytes : ℕ → ℕ → List ℕ → List ℕ
reply_bytes cmd reg bytes =
    let header = sof ∷ u8 (bit_or cmd response_flag) ∷ reg ∷ length bytes ∷ [] in
    header ++ (bytes ++ (crc_over 0 (header ++ bytes) ∷ []))

build_response-same :
    (cmd reg : ℕ) (bytes : List ℕ) → Serial.build_response cmd reg bytes ≡ reply_bytes cmd reg bytes
unfolding Serial.build_response crc8_over
build_response-same cmd reg bytes =
    rw (crc_over-same 0 (sof ∷ u8 (bit_or cmd response_flag) ∷ reg ∷ length bytes ∷ bytes)) refl

-- What a read answers with.
abbrev pub block_or_error : Option (List ℕ) → List ℕ
block_or_error none = Flag.serial_status_error ∷ []
block_or_error (some bytes) = bytes

read_answer-same :
    (reg : ℕ) (block : Option (List ℕ))
    → read_answer reg block ≡ Serial.build_response cmd_read reg (block_or_error block)
unfolding Serial.build_status_response
read_answer-same reg none = refl
read_answer-same reg (some bytes) = refl

length-block_or_error :
    (s : RegisterMap) (reg len : ℕ) → 0 < len → length (block_or_error (read_block s reg len)) ≤ len
unfolding read_block
length-block_or_error s reg len pos = ground (arith, length-read_from s reg 0 len)

-- How a checked write ends.
abbrev pub write_result : Option Bool → Result (Unit {0})
write_result none = failed error
write_result (some changed) = done tt

module _ (l : Link) (wire : IsWire l) (fuel : ℕ) (pos : 0 < fuel) where
  -- What a waiting driver makes of a request.
  abbrev served : ℕ → ℕ → List ℕ → l.World → ℕ → Parser × RegisterMap × List (List ℕ)
  served cmd reg payload w len =
      feed (wire.parser w) (wire.registers w)
        (frame cmd reg len payload (frame_crc cmd reg len payload))

  send_frame-served :
      (cmd reg len : ℕ) (payload : List ℕ) (w w0 : l.World)
      → len ≤ max_payload_length
      → Holds l wire (wire.parser w) (wire.registers w) [] w0
      → let body = if cmd == cmd_write then payload else [] in
        Yields (send_frame l cmd reg payload len) w0 tt (
          Fed l wire
            (wire.parser w)
            (wire.registers w)
            []
            (frame cmd reg len body (frame_crc cmd reg len body)))
  unfolding Serial.serial_crc8
  send_frame-served cmd reg len payload w w0 fits v =
      let body = if cmd == cmd_write then payload else [] in
      let p = wire.parser w in
      let s = wire.registers w in
      subst
        (λ (crc : ℕ).
          Yields (send_frame l cmd reg payload len) w0 tt
            (Fed l wire p s [] (frame cmd reg len body crc)))
        (crc_over-same 0 (sof ∷ cmd ∷ reg ∷ len ∷ body))
        (send_frame-Yields l wire cmd reg len payload p s [] w0 fits v)

  -- A request that the driver answers.
  uart_request-Yields :
      (cmd reg len : ℕ) (payload bytes : List ℕ) (w : l.World)
      → len ≤ max_payload_length
      → length bytes ≤ max_payload_length
      → let after = served cmd reg (if cmd == cmd_write then payload else []) w len in
        after.2 ≡ Serial.build_response cmd reg bytes ∷ []
        → Yields
            (uart_request l fuel cmd reg payload len)
            w
            (record { cmd = u8 (bit_or cmd response_flag); reg = reg; bytes = bytes })
            (Holds l wire after.0 after.1 [])
  unfolding uart_request
  uart_request-Yields cmd reg len payload bytes w fits small answered =
      let (p1, s1, ys1) = wire.clears w in
      let w0 = l.clear_rx_buffer w in
      let after = served cmd reg (if cmd == cmd_write then payload else []) w len in
      let v0 : Holds l wire (wire.parser w) (wire.registers w) [] w0 = record {
        parser_is = p1;
        registers_are = s1;
        waiting_are = ys1;
      } in
      let y = bind-Yields _ (send_frame-served cmd reg len payload w w0 fits v0) (λ w1 v1.
        bind-Yields _
          (receive_frame-Yields l wire after.0 after.1 fuel (u8 (bit_or cmd response_flag)) reg
            bytes [] w1 pos small
            (record {
              parser_is = v1.parser_is;
              registers_are = v1.registers_are;
              waiting_are =
                  v1.waiting_are
                  ∙ ap joined answered
                  ∙ append-nil _
                  ∙ build_response-same cmd reg bytes;
            }))
          (λ w2 v2.
            bind-Yields _ (refuse_if-Yields _ _ w2 _ (ground arith) v2)
              (λ w3 v3. pure-Yields _ w3 _ v3))) in
      record { result = y.result; after = y.after }

  -- A read over a UART, from a driver that waits for a frame, gives the block that ReadBlock gives or
  -- the error status where it refuses the range; no register changes and the driver waits again.
  pub read_registers_lem :
      (c : Client) (reg len : ℕ) (w : l.World)
      → c.transport ≡ uart
      → (wire.parser w).state ≡ Serial.wait_sof
      → 0 < len
      → len ≤ max_payload_length
      → let (w', r) = read_registers l fuel c reg len w in
        (r
          ≡ done (record {
            cmd = u8 (bit_or cmd_read response_flag);
            reg = reg;
            bytes = block_or_error (read_block (wire.registers w) reg len);
          }))
        × (wire.registers w' ≡ wire.registers w)
        × ((wire.parser w').state ≡ Serial.wait_sof)
  unfolding read_registers request
  read_registers_lem c reg len w over waits some_bytes fits =
      let s = wire.registers w in
      let (waits', same, answered) =
        read_frame_lem (wire.parser w) s reg len waits some_bytes fits in
      let y =
        uart_request-Yields cmd_read reg len [] (block_or_error (read_block s reg len)) w fits
          (omega (arith, length-block_or_error s reg len some_bytes))
          (answered ∙ ap (λ (r : List ℕ). r ∷ []) (read_answer-same reg (read_block s reg len))) in
      rw over (
        y.result,
        y.after.registers_are ∙ same,
        ap (λ (p : Parser). p.state) y.after.parser_is ∙ waits',
      )

  write_end :
      (c : Client) (changed : Option Bool) (cmd reg : ℕ) (k : Act l.World (Unit {0})) (w : l.World)
      → c.transport ≡ uart
      → let reply : Frame = record { cmd = cmd; reg = reg; bytes = write_status changed ∷ [] } in
        (refuse_if (not (status_ok_response reply)) error
            >>= (λ u. elim c.transport [ i2c ↦ k | uart ↦ pure tt ]))
          w
        ≡ (w, write_result changed)
  unfolding status_ok_response ◌>>=◌
  write_end c none cmd reg k w over = refl
  write_end c (some changed) cmd reg k w over = rw over refl

  -- A checked write over a UART, to a driver that waits for a frame, changes the registers exactly as
  -- CommitWrite on its payload does, and is done where that accepts it and fails where it does not;
  -- the driver waits again.
  pub write_registers_checked_lem :
      (c : Client) (reg x : ℕ) (xs : List ℕ) (w : l.World)
      → c.transport ≡ uart
      → (wire.parser w).state ≡ Serial.wait_sof
      → length (x ∷ xs) ≤ max_payload_length
      → let (w', r) = write_registers_checked l fuel c reg (x ∷ xs) w in
        let (s', changed) =
          commit_write (wire.registers w) reg (array_of (x ∷ xs)) (length (x ∷ xs)) in
        (r ≡ write_result changed)
        × (wire.registers w' ≡ s')
        × ((wire.parser w').state ≡ Serial.wait_sof)
  unfolding write_registers_checked write_registers request Serial.build_status_response
  write_registers_checked_lem c reg x xs w over waits fits =
      let s = wire.registers w in
      let payload = x ∷ xs in
      let (waits', same, answered) = write_frame_lem (wire.parser w) s reg x xs waits fits in
      let changed = (commit_write s reg (array_of payload) (length payload)).1 in
      let y =
        uart_request-Yields cmd_write reg (length payload) payload (write_status changed ∷ []) w
          fits (omega arith) answered in
      let w' = (write_registers l fuel c reg payload w).0 in
      let after = served cmd_write reg payload w (length payload) in
      let y' : Yields (write_registers l fuel c reg payload) w
          (record {
            cmd = u8 (bit_or cmd_write response_flag);
            reg = reg;
            bytes = write_status changed ∷ [];
          })
          (Holds l wire after.0 after.1 []) =
        rw over y in
      let e : write_registers_checked l fuel c reg payload w ≡ (w', write_result changed) =
        bind-result _ y'
        ∙ write_end c changed (u8 (bit_or cmd_write response_flag)) reg
            (verify_registers l fuel c reg payload) w' over in
      rw e (
        refl,
        y'.after.registers_are ∙ same,
        ap (λ (p : Parser). p.state) y'.after.parser_is ∙ waits',
      )
