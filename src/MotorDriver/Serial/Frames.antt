-- ===== src/MotorDriver/Serial/Frames.antt =====
-- MotorDriver/protocol/serial_protocol.cpp: what a whole frame does, byte by byte.
use guga_pi.Common.{
  ℕ, suc, ◌+◌, ◌≤◌, ◌<◌, ◌≡◌, refl, ◌∙◌, List, [], ◌∷◌, ◌++◌, Array, update, arith, length, ◌==◌,
  if◌then◌else◌, ◌&&◌, ltb, fill,
}
use guga_pi.MotorDriver.Flag
use guga_pi.MotorDriver.RegisterMap.State.{RegisterMap}
use guga_pi.MotorDriver.Serial.{
  ParserState, wait_sof, payload, crc_byte, Parser, crc8_over, crc8_update, process_byte, quiet,
  command, register, length_byte,
}

-- The bytes of a line one after another: the parser and the registers after them, and the responses.
unfoldable pub feed : Parser → RegisterMap → List ℕ → Parser × RegisterMap × List (List ℕ)
feed p s [] = (p, s, [])
feed p s (b ∷ bs) =
    let o = process_byte p s b in
    let rest = feed o.parser o.registers bs in
    (rest.0, rest.1, if o.ready then o.response ∷ rest.2 else rest.2)

abbrev pub at : ParserState → ℕ → ℕ → ℕ → ℕ → ℕ → Array → Parser
at state crc cmd reg len data_index bytes = record {
  state = state;
  crc = crc;
  cmd = cmd;
  reg = reg;
  len = len;
  data_index = data_index;
  bytes = bytes;
}

feed-quiet :
    (p q : Parser) (s : RegisterMap) (b : ℕ) (bs : List ℕ)
    → process_byte p s b ≡ quiet q s
    → feed p s (b ∷ bs) ≡ feed q s bs
unfolding feed
feed-quiet p q s b bs e = rw e

module _ (cmd reg len : ℕ) (s : RegisterMap) (fits : len ≤ Flag.max_payload_length) where
  process_byte-last :
      (x crc i : ℕ) (a : Array)
      → len ≡ i + 1
      → process_byte (at payload crc cmd reg len i a) s x
        ≡ quiet (at crc_byte (crc8_update crc x) cmd reg len len (update a i x)) s
  unfolding process_byte
  process_byte-last x crc i a e = ground arith

  process_byte-more :
      (x crc i : ℕ) (a : Array)
      → i + 1 < len
      → process_byte (at payload crc cmd reg len i a) s x
        ≡ quiet (at payload (crc8_update crc x) cmd reg len (i + 1) (update a i x)) s
  unfolding process_byte
  process_byte-more x crc i a e = ground arith

  pub feed-payload :
      (xs : List ℕ) (x crc i : ℕ) (a : Array) (rest : List ℕ)
      → len ≡ i + suc (length xs)
      → feed (at payload crc cmd reg len i a) s ((x ∷ xs) ++ rest)
        ≡ feed (at crc_byte (crc8_over crc (x ∷ xs)) cmd reg len len (fill a i (x ∷ xs))) s rest
  unfolding crc8_over
  feed-payload [] x crc i a rest e = feed-quiet _ _ s x rest (process_byte-last x crc i a e)
  feed-payload (y ∷ xs) x crc i a rest e =
      feed-quiet _ _ s x _ (process_byte-more x crc i a (omega arith))
      ∙ feed-payload xs y (crc8_update crc x) (i + 1) (update a i x) rest (omega arith)

module _ (p : Parser) (s : RegisterMap) where
  process_byte-sof :
      p.state ≡ wait_sof
      → process_byte p s Flag.serial_sof
        ≡ quiet (record p { state = command; crc = crc8_update 0 Flag.serial_sof }) s
  unfolding process_byte
  process_byte-sof e = ground arith

  process_byte-command :
      (crc cmd : ℕ)
      → process_byte (record p { state = command; crc = crc }) s cmd
        ≡ quiet (record p { state = register; crc = crc8_update crc cmd; cmd = cmd }) s
  unfolding process_byte
  process_byte-command crc cmd = refl

  process_byte-register :
      (crc cmd reg : ℕ)
      → process_byte (record p { state = register; crc = crc; cmd = cmd }) s reg
        ≡ quiet
            (record p { state = length_byte; crc = crc8_update crc reg; cmd = cmd; reg = reg })
            s
  unfolding process_byte
  process_byte-register crc cmd reg = refl

  process_byte-length :
      (crc cmd reg len : ℕ)
      → len ≤ Flag.max_payload_length
      → process_byte (record p { state = length_byte; crc = crc; cmd = cmd; reg = reg }) s len
        ≡ quiet
            (at
              (if cmd == Flag.serial_cmd_write && ltb 0 len then payload else crc_byte)
              (crc8_update crc len)
              cmd
              reg
              len
              0
              p.bytes)
            s
  unfolding process_byte
  process_byte-length crc cmd reg len h = ground arith

  -- The bytes that announce a frame, at a parser that waits for one.
  pub feed-header :
      (cmd reg len : ℕ) (rest : List ℕ)
      → p.state ≡ wait_sof
      → len ≤ Flag.max_payload_length
      → feed p s (Flag.serial_sof ∷ cmd ∷ reg ∷ len ∷ rest)
        ≡ feed
            (at
              (if cmd == Flag.serial_cmd_write && ltb 0 len then payload else crc_byte)
              (crc8_over 0 (Flag.serial_sof ∷ cmd ∷ reg ∷ len ∷ []))
              cmd
              reg
              len
              0
              p.bytes)
            s
            rest
  unfolding crc8_over
  feed-header cmd reg len rest e h =
      let c1 = crc8_update 0 Flag.serial_sof in
      let c2 = crc8_update c1 cmd in
      feed-quiet p _ s Flag.serial_sof _ (process_byte-sof e)
      ∙ feed-quiet _ _ s cmd _ (process_byte-command c1 cmd)
      ∙ feed-quiet _ _ s reg _ (process_byte-register c2 cmd reg)
      ∙ feed-quiet _ _ s len rest (process_byte-length (crc8_update c2 reg) cmd reg len h)
