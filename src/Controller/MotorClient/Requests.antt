-- ===== src/Controller/MotorClient/Requests.antt =====
-- gugaPI/app/motor_driver_client.h with MotorDriver/protocol/serial_protocol.cpp: a request that the
-- client sends is served by the driver, and its answer received.
use guga_pi.Controller.MotorClient.Link.{Link, sof, max_payload_length, cmd_write}
use guga_pi.Controller.MotorClient.Uart.{crc8_rounds, crc8_update, send_bytes, send_frame}
use guga_pi.Controller.MotorClient.Wire.{IsWire, Holds, joined}
use guga_pi.Controller.MotorClient.Reception.{crc_over}
use guga_pi.MotorDriver.Serial.{Parser, process_byte, crc8_over}
use guga_pi.MotorDriver.Serial.Frames.{feed}
use guga_pi.MotorDriver.RegisterMap.State.{RegisterMap}
use guga_pi.MotorDriver.Serial
use mathlib.Core.List.{append_assoc, append-nil}
use guga_pi.Common.{
  zero, suc, ℕ, List, ◌++◌, ◌≡◌, [], ◌∷◌, ap, if◌then◌else◌, refl, Bool-cases, ◌∙◌, u8, inl, sym,
  bit_xor, inr, ◌≤◌, ◌==◌, arith,
}
use guga_pi.Controller.Yields.{Yields, pure-Yields, bind-Yields, refuse_if-Yields}
use guga_pi.Controller.Action.{checked}

-- The two sides compute the same check value.
crc8_rounds-same : (n crc : ℕ) → crc8_rounds n crc ≡ Serial.crc8_rounds n crc
unfolding crc8_rounds Serial.crc8_rounds
crc8_rounds-same zero crc = refl
crc8_rounds-same (suc n) crc = crc8_rounds-same n _

pub crc_over-same : (crc : ℕ) (xs : List ℕ) → crc_over crc xs ≡ crc8_over crc xs
unfolding crc8_update Serial.crc8_update crc8_over
crc_over-same crc [] = refl
crc_over-same crc (x ∷ xs) =
    rw (crc8_rounds-same 8 (u8 (bit_xor crc x)))
      (crc_over-same (Serial.crc8_rounds 8 (u8 (bit_xor crc x))) xs)

-- The response to a byte, if there is one.
abbrev answer : Serial.Outcome → List ℕ
answer o = if o.ready then o.response else []

joined-answer :
    (o : Serial.Outcome) (rs : List (List ℕ))
    → joined (if o.ready then o.response ∷ rs else rs) ≡ answer o ++ joined rs
joined-answer o rs = elim (Bool-cases o.ready) [ inl e ↦ rw e refl | inr e ↦ rw e refl ]

module _ (l : Link) (wire : IsWire l) where
  -- The driver after it was fed, its responses behind what was waiting.
  abbrev pub Fed : Parser → RegisterMap → List ℕ → List ℕ → l.World → Type 0
  Fed p s ys xs = let r = feed p s xs in Holds l wire r.0 r.1 (ys ++ joined r.2)

  waiting-step :
      (o : Serial.Outcome) (ys : List ℕ) (rs : List (List ℕ))
      → ys ++ joined (if o.ready then o.response ∷ rs else rs) ≡ (ys ++ answer o) ++ joined rs
  waiting-step o ys rs =
      ap (λ (t : List ℕ). ys ++ t) (joined-answer o rs)
      ∙ sym (append_assoc ys (answer o) (joined rs))

  Fed-step :
      (p : Parser) (s : RegisterMap) (ys xs : List ℕ) (x : ℕ)
      → let o = process_byte p s x in
        Fed p s ys (x ∷ xs) ≡ Fed o.parser o.registers (ys ++ answer o) xs
  unfolding feed
  Fed-step p s ys xs x =
      let o = process_byte p s x in
      let r = feed o.parser o.registers xs in ap (Holds l wire r.0 r.1) (waiting-step o ys r.2)

  Fed-append :
      (xs zs : List ℕ) (p : Parser) (s : RegisterMap) (ys : List ℕ)
      → let r = feed p s xs in Fed r.0 r.1 (ys ++ joined r.2) zs ≡ Fed p s ys (xs ++ zs)
  unfolding feed
  Fed-append [] zs p s ys = rw (append-nil ys) refl
  Fed-append (x ∷ xs) zs p s ys =
      let o = process_byte p s x in
      let r = feed o.parser o.registers xs in
      ap (λ (t : List ℕ). Fed r.0 r.1 t zs) (waiting-step o ys r.2)
      ∙ Fed-append xs zs o.parser o.registers (ys ++ answer o)
      ∙ sym (Fed-step p s ys (xs ++ zs) x)

  write_byte-Yields :
      (x : ℕ) (p : Parser) (s : RegisterMap) (ys : List ℕ) (w : l.World)
      → Holds l wire p s ys w
      → let o = process_byte p s x in
        Yields
          (λ w'. checked (l.write_byte x w'))
          w
          tt
          (Holds l wire o.parser o.registers (ys ++ answer o))
  write_byte-Yields x p s ys w v =
      let (p1, s1, ys1) = wire.drives x w in
      record {
        result = rw (wire.takes x w) refl;
        after = rw (wire.takes x w) (record {
          parser_is = rw (p1, v.parser_is, v.registers_are) refl;
          registers_are = rw (s1, v.parser_is, v.registers_are) refl;
          waiting_are = rw (ys1, v.parser_is, v.registers_are, v.waiting_are) refl;
        });
      }

  send_bytes-Yields :
      (xs : List ℕ) (crc : ℕ) (p : Parser) (s : RegisterMap) (ys : List ℕ) (w : l.World)
      → Holds l wire p s ys w
      → Yields (send_bytes l crc xs) w (crc_over crc xs) (Fed p s ys xs)
  unfolding send_bytes feed
  send_bytes-Yields [] crc p s ys w v = pure-Yields _ w _ (rw (append-nil ys) v)
  send_bytes-Yields (x ∷ xs) crc p s ys w v =
      let o = process_byte p s x in
      rw (Fed-step p s ys xs x) (
        bind-Yields _ (write_byte-Yields x p s ys w v) (λ w1 v1.
          send_bytes-Yields xs (crc8_update crc x) o.parser o.registers (ys ++ answer o) w1 v1))

  last-Yields :
      (x : ℕ) (p : Parser) (s : RegisterMap) (ys : List ℕ) (w : l.World)
      → Holds l wire p s ys w
      → Yields (λ w'. checked (l.write_byte x w')) w tt (Fed p s ys (x ∷ []))
  unfolding feed
  last-Yields x p s ys w v =
      rw (Fed-step p s ys [] x, append-nil (ys ++ answer (process_byte p s x)))
        (write_byte-Yields x p s ys w v)

  -- A frame that is sent whole goes through the parser of the driver.
  pub send_frame-Yields :
      (cmd reg len : ℕ) (payload : List ℕ) (p : Parser) (s : RegisterMap) (ys : List ℕ)
      (w : l.World)
      → len ≤ max_payload_length
      → Holds l wire p s ys w
      → let bytes = sof ∷ cmd ∷ reg ∷ len ∷ (if cmd == cmd_write then payload else []) in
        Yields
          (send_frame l cmd reg payload len)
          w
          tt
          (Fed p s ys (bytes ++ (crc_over 0 bytes ∷ [])))
  unfolding send_frame
  send_frame-Yields cmd reg len payload p s ys w fits v =
      let bytes = sof ∷ cmd ∷ reg ∷ len ∷ (if cmd == cmd_write then payload else []) in
      let r = feed p s bytes in
      rw (sym (Fed-append bytes (crc_over 0 bytes ∷ []) p s ys)) (
        bind-Yields _ (refuse_if-Yields _ _ w _ (ground arith) v) (λ w1 v1.
          bind-Yields _ (send_bytes-Yields bytes 0 p s ys w1 v1)
            (λ w2 v2. last-Yields (crc_over 0 bytes) r.0 r.1 (ys ++ joined r.2) w2 v2)))
