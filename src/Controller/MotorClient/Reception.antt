-- ===== src/Controller/MotorClient/Reception.antt =====
-- gugaPI/app/motor_driver_client.h: a frame that waits on the line is received within the deadline.
use guga_pi.Controller.MotorClient.Link.{Link, response_timeout_ms, sof, max_payload_length}
use guga_pi.Controller.MotorClient.Uart.{
  crc8_update, find_sof, receive_payload, receive_from, receive_frame,
}
use guga_pi.MotorDriver.Serial.{Parser}
use guga_pi.MotorDriver.RegisterMap.State.{RegisterMap}
use guga_pi.Controller.MotorClient.Wire.{IsWire, Timed, read_byte-Yields, Timed-le}
use guga_pi.Controller.MotorClient.Wire.{Holds}
use guga_pi.Common.{zero, suc, ℕ, List, ◌∷◌, ◌<◌, [], ◌+◌, length, ◌++◌, ◌≤◌, u32, arith, ◌∙◌}
use guga_pi.Controller.MotorClient.Wire.{IsWire, Timed, read_byte-Yields}
use guga_pi.Controller.Yields.{Yields, pure-Yields, bind-Yields, refuse_if-Yields}

-- The check value that the client computes over bytes.
abbrev pub crc_over : ℕ → List ℕ → ℕ
crc_over crc [] = crc
crc_over crc (x ∷ xs) = crc_over (crc8_update crc x) xs

find_sof-Yields :
    (l : Link) (wire : IsWire l) (p : Parser) (s : RegisterMap) (fuel t k : ℕ) (xs : List ℕ)
    (w : l.World)
    → 0 < fuel
    → k < response_timeout_ms
    → Timed l wire t k p s (sof ∷ xs) w
    → Yields (find_sof l fuel fuel (u32 t)) w tt (Timed l wire t (k + 1) p s xs)
unfolding find_sof
find_sof-Yields l wire p s zero t k xs w pos h v = absurd (omega arith)
find_sof-Yields l wire p s (suc fuel) t k xs w pos h v =
    bind-Yields _ (read_byte-Yields l wire (suc fuel) t k sof p s xs w pos h v)
      (λ w1 v1. pure-Yields tt w1 _ v1)

module _ (l : Link) (wire : IsWire l) (p : Parser) (s : RegisterMap) (fuel t : ℕ)
    (pos : 0 < fuel) where
  receive_payload-Yields :
      (bytes : List ℕ) (k crc : ℕ) (xs : List ℕ) (w : l.World)
      → k + length bytes < response_timeout_ms
      → Timed l wire t k p s (bytes ++ xs) w
      → Yields
          (receive_payload l fuel (u32 t) (length bytes) crc)
          w
          (bytes, crc_over crc bytes)
          (Timed l wire t (k + length bytes) p s xs)
  unfolding receive_payload
  receive_payload-Yields [] k crc xs w h v =
      pure-Yields _ w _ (Timed-le l wire t _ _ p s _ w (omega arith) v)
  receive_payload-Yields (x ∷ bytes) k crc xs w h v =
      bind-Yields _ (read_byte-Yields l wire fuel t k x p s (bytes ++ xs) w pos (omega arith) v)
        (λ w1 v1.
          bind-Yields _
            (receive_payload-Yields bytes (k + 1) (crc8_update crc x) xs w1 (omega arith) v1)
            (λ w2 v2. pure-Yields _ w2 _ (Timed-le l wire t _ _ p s _ w2 (omega arith) v2)))

  pub receive_from-Yields :
      (k cmd reg : ℕ) (bytes xs : List ℕ) (w : l.World)
      → length bytes ≤ max_payload_length
      → k ≤ 1
      → let crc = crc_over 0 (sof ∷ cmd ∷ reg ∷ length bytes ∷ bytes) in
        Timed l wire t k p s (sof ∷ cmd ∷ reg ∷ length bytes ∷ (bytes ++ (crc ∷ xs))) w
        → Yields
            (receive_from l fuel (u32 t))
            w
            (record { cmd = cmd; reg = reg; bytes = bytes })
            (Holds l wire p s xs)
  unfolding receive_from
  receive_from-Yields k cmd reg bytes xs w fits h v =
      let n = length bytes in
      let crc = crc_over 0 (sof ∷ cmd ∷ reg ∷ n ∷ bytes) in
      let rest = bytes ++ (crc ∷ xs) in
      bind-Yields _
        (find_sof-Yields l wire p s fuel t k (cmd ∷ reg ∷ n ∷ rest) w pos (omega arith) v)
        (λ w1 v1.
          bind-Yields _
            (read_byte-Yields l wire fuel t (k + 1) cmd p s (reg ∷ n ∷ rest) w1 pos (omega arith)
              v1)
            (λ w2 v2.
              bind-Yields _
                (read_byte-Yields l wire fuel t (k + 1 + 1) reg p s (n ∷ rest) w2 pos (omega arith)
                  v2)
                (λ w3 v3.
                  bind-Yields _
                    (read_byte-Yields l wire fuel t (k + 1 + 1 + 1) n p s rest w3 pos (omega arith)
                      v3)
                    (λ w4 v4. bind-Yields _ (refuse_if-Yields _ _ w4 _ (ground arith) v4) (λ w5 v5.
                      bind-Yields _
                        (receive_payload-Yields bytes (k + 1 + 1 + 1 + 1) _ (crc ∷ xs) w5
                          (omega arith) v5)
                        (λ w6 v6.
                          bind-Yields _
                            (read_byte-Yields l wire fuel t _ crc p s xs w6 pos (omega arith) v6)
                            (λ w7 v7.
                              bind-Yields _
                                (refuse_if-Yields _ _ w7 (Holds l wire p s xs) (ground arith)
                                  v7.holds)
                                (λ w8 v8. pure-Yields _ w8 _ v8))))))))

-- A frame with a right check value that waits on the line is received, whatever follows it.
pub receive_frame-Yields :
    (l : Link) (wire : IsWire l) (p : Parser) (s : RegisterMap) (fuel cmd reg : ℕ)
    (bytes xs : List ℕ) (w : l.World)
    → 0 < fuel
    → length bytes ≤ max_payload_length
    → let crc = crc_over 0 (sof ∷ cmd ∷ reg ∷ length bytes ∷ bytes) in
      Holds l wire p s (sof ∷ cmd ∷ reg ∷ length bytes ∷ (bytes ++ (crc ∷ xs))) w
      → Yields
          (receive_frame l fuel)
          w
          (record { cmd = cmd; reg = reg; bytes = bytes })
          (Holds l wire p s xs)
unfolding receive_frame
receive_frame-Yields l wire p s fuel cmd reg bytes xs w pos fits v =
    let (now, p1, s1, ws1, lo, hi) = wire.counts w in
    let w1 = (l.millis w).0 in
    let y =
      receive_from-Yields l wire p s fuel (wire.clock w) pos 1 cmd reg bytes xs w1 fits
        (omega arith)
        (record {
          holds = record {
            parser_is = p1 ∙ v.parser_is;
            registers_are = s1 ∙ v.registers_are;
            waiting_are = ws1 ∙ v.waiting_are;
          };
          not_before = lo;
          not_after = hi;
        }) in
    record { result = rw now y.result; after = rw now y.after }
