-- ===== src/Controller/MotorClient/Wire.antt =====
-- gugaPI/app/motor_driver_client.h with MotorDriver/protocol/serial_protocol.cpp: a UART that joins
-- the client to the parser of the driver.
use guga_pi.Controller.MotorClient.Link.{Link, response_timeout_ms}
use guga_pi.MotorDriver.Serial.{Parser, process_byte}
use guga_pi.MotorDriver.RegisterMap.State.{RegisterMap}
use guga_pi.Controller.DriverStatus.{ok}
use guga_pi.Common.{
  zero, suc, false, ℕ, List, ◌∷◌, ◌≡◌, ◌≤◌, ◌<◌, ◌++◌, ◌+◌, [], if◌then◌else◌, u32, some, arith,
  ◌∙◌, leb, sub32, refl,
}
use guga_pi.Controller.MotorClient.Uart.{read_byte_deadline}
use guga_pi.Controller.Yields.{Yields}

-- The bytes of several responses in a row.
abbrev pub joined : List (List ℕ) → List ℕ
joined [] = []
joined (x ∷ xs) = x ++ joined xs

-- What a line does that loses nothing: the bytes written go through the parser of the driver, its
-- responses come back in order, and no reading of the clock takes more than a millisecond.
pub record IsWire (l : Link) : Type 0 where
  pub parser : l.World → Parser
  pub registers : l.World → RegisterMap
  pub waiting : l.World → List ℕ
  pub clock : l.World → ℕ
  pub takes : (x : ℕ) (w : l.World) → (l.write_byte x w).1 ≡ ok
  pub drives :
      (x : ℕ) (w : l.World)
      → let o = process_byte (parser w) (registers w) x in
        let w' = (l.write_byte x w).0 in
        (parser w' ≡ o.parser)
        × (registers w' ≡ o.registers)
        × (waiting w' ≡ waiting w ++ (if o.ready then o.response else []))
  pub clears :
      (w : l.World)
      → let w' = l.clear_rx_buffer w in
        (parser w' ≡ parser w) × (registers w' ≡ registers w) × (waiting w' ≡ [])
  pub brings :
      (x : ℕ) (xs : List ℕ) (w : l.World)
      → waiting w ≡ x ∷ xs
      → let (w', byte) = l.read_byte w in
        (byte ≡ some x)
        × (parser w' ≡ parser w)
        × (registers w' ≡ registers w)
        × (waiting w' ≡ xs)
        × (clock w' ≡ clock w)
  pub counts :
      (w : l.World)
      → let (w', now_ms) = l.millis w in
        (now_ms ≡ u32 (clock w))
        × (parser w' ≡ parser w)
        × (registers w' ≡ registers w)
        × (waiting w' ≡ waiting w)
        × (clock w ≤ clock w')
        × (clock w' ≤ clock w + 1)

module _ (l : Link) (wire : IsWire l) where
  -- The state of the driver and the bytes on the way back.
  pub record Holds (p : Parser) (s : RegisterMap) (xs : List ℕ) (w : l.World) : Type 0 where
    pub parser_is : wire.parser w ≡ p
    pub registers_are : wire.registers w ≡ s
    pub waiting_are : wire.waiting w ≡ xs

  -- The same, with a clock that is at most `k` milliseconds past `t`.
  pub record Timed (t k : ℕ) (p : Parser) (s : RegisterMap) (xs : List ℕ) (w : l.World)
      : Type 0 where
    pub holds : Holds p s xs w
    pub not_before : t ≤ wire.clock w
    pub not_after : wire.clock w ≤ t + k

  pub read_byte-Yields :
      (fuel t k x : ℕ) (p : Parser) (s : RegisterMap) (xs : List ℕ) (w : l.World)
      → 0 < fuel
      → k < response_timeout_ms
      → Timed t k p s (x ∷ xs) w
      → Yields (read_byte_deadline l fuel (u32 t)) w x (Timed t (k + 1) p s xs)
  unfolding read_byte_deadline
  read_byte-Yields zero t k x p s xs w pos h v = absurd (omega arith)
  read_byte-Yields (suc fuel) t k x p s xs w pos h v =
      let (now, p1, s1, ws1, lo, hi) = wire.counts w in
      let w1 = (l.millis w).0 in
      let (byte, p2, s2, ws2, still) = wire.brings x xs w1 (ws1 ∙ v.holds.waiting_are) in
      let early : leb response_timeout_ms (sub32 (l.millis w).1 (u32 t)) ≡ false =
        rw now (ground (arith, v.not_before, v.not_after)) in
      record {
        result = rw (read_byte_deadline, early, byte) refl;
        after =
            rw (read_byte_deadline, early, byte)
              (record {
                holds = record {
                  parser_is = p2 ∙ p1 ∙ v.holds.parser_is;
                  registers_are = s2 ∙ s1 ∙ v.holds.registers_are;
                  waiting_are = ws2;
                };
                not_before = omega (arith, still, lo, v.not_before);
                not_after = omega (arith, still, hi, v.not_after);
              });
      }

  pub Timed-le :
      (t j k : ℕ) (p : Parser) (s : RegisterMap) (xs : List ℕ) (w : l.World)
      → j ≤ k
      → Timed t j p s xs w
      → Timed t k p s xs w
  Timed-le t j k p s xs w h v = record {
    holds = v.holds;
    not_before = v.not_before;
    not_after = omega (arith, v.not_after);
  }
