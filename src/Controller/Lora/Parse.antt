-- ===== src/Controller/Lora/Parse.antt =====
-- gugaPI/app/lora_protocol.cpp: what the bytes of a whole frame do to the parser.
use guga_pi.Controller.Lora.State.{
  LoraContext, Radio, Parser, parse_sof_0, parse_header, ParserState, max_payload_length,
  parse_payload, parse_crc_0, sof_0, LoraFrame, parse_sof_1, version, sof_1, flag_ack_required,
}
use guga_pi.Controller.DriverStatus.{ok}
use guga_pi.Controller.Lora.Frame.{update_crc, crc16_over}
use guga_pi.Controller.Lora.Receive.{
  process_byte, plain, consume_payload_byte, to_state, consume_header_byte, take_length,
}
use guga_pi.Common.{
  ℕ, Array, List, ◌≡◌, ◌∷◌, ◌++◌, true, [], ◌≤◌, refl, ◌+◌, ◌<◌, suc, update, length, fill, arith,
  ◌∙◌, ◌≢◌, bit_and, ◌-◌, if◌then◌else◌, ◌==◌, bit_or_low,
}

abbrev pub with_parser : LoraContext → Parser → LoraContext
with_parser c p = record c { parser = p }

-- The parser in a payload of `n` bytes, or behind it.
abbrev pub at : ParserState → ℕ → ℕ → ℕ → ℕ → ℕ → ℕ → ℕ → Array → Parser
at state crc kind flags sequence n index received payload = record {
  state = state;
  header_index = 6;
  payload_index = index;
  expected_length = n;
  crc = crc;
  received_crc = received;
  frame = record { kind = kind; flags = flags; sequence = sequence; length = n; payload = payload };
}

module _ (r : Radio) where
  -- The bytes of the link one after another.
  unfoldable pub feed : LoraContext → r.World → List ℕ → LoraContext × r.World
  feed c w [] = (c, w)
  feed c w (x ∷ xs) = let o = process_byte r c w x in feed o.context o.world xs

  pub feed-append :
      (c : LoraContext) (w : r.World) (xs ys : List ℕ)
      → feed c w (xs ++ ys) ≡ (let s = feed c w xs in feed s.0 s.1 ys)
  unfolding feed
  feed-append c w [] ys = refl
  feed-append c w (x ∷ xs) ys = let o = process_byte r c w x in feed-append o.context o.world xs ys

  pub feed-step :
      (c c' : LoraContext) (w : r.World) (x : ℕ) (xs : List ℕ)
      → process_byte r c w x ≡ plain r c' w ok
      → feed c w (x ∷ xs) ≡ feed c' w xs
  unfolding feed
  feed-step c c' w x xs e = rw e

  module _ (c : LoraContext) (w : r.World) (on : c.initialized ≡ true) (kind flags sequence n : ℕ)
      (fits : n ≤ max_payload_length) where
    payload-last :
        (x crc i rc : ℕ) (a : Array)
        → n ≡ i + 1
        → process_byte r (with_parser c (at parse_payload crc kind flags sequence n i rc a)) w x
          ≡ plain r
              (with_parser c
                (at parse_crc_0 (update_crc crc x) kind flags sequence n n rc (update a i x)))
              w
              ok
    unfolding process_byte consume_payload_byte
    payload-last x crc i rc a e = ground arith

    payload-more :
        (x crc i rc : ℕ) (a : Array)
        → i + 1 < n
        → process_byte r (with_parser c (at parse_payload crc kind flags sequence n i rc a)) w x
          ≡ plain r
              (with_parser c (
                at parse_payload
                  (update_crc crc x)
                  kind
                  flags
                  sequence
                  n
                  (i + 1)
                  rc
                  (update a i x)))
              w
              ok
    unfolding process_byte consume_payload_byte
    payload-more x crc i rc a e = ground arith

    pub feed-payload :
        (xs : List ℕ) (x crc i rc : ℕ) (a : Array) (rest : List ℕ)
        → n ≡ i + suc (length xs)
        → feed
            (with_parser c (at parse_payload crc kind flags sequence n i rc a))
            w
            ((x ∷ xs) ++ rest)
          ≡ feed
              (with_parser c (
                at parse_crc_0
                  (crc16_over crc (x ∷ xs))
                  kind
                  flags
                  sequence
                  n
                  n
                  rc
                  (fill a i (x ∷ xs))))
              w
              rest
    unfolding crc16_over
    feed-payload [] x crc i rc a rest e = feed-step _ _ w x rest (payload-last x crc i rc a e)
    feed-payload (y ∷ xs) x crc i rc a rest e =
        feed-step _ _ w x _ (payload-more x crc i rc a (omega arith))
        ∙ feed-payload xs y (update_crc crc x) (i + 1) rc (update a i x) rest (omega arith)

  module _ (c : LoraContext) (w : r.World) (on : c.initialized ≡ true) where
    pub start :
        c.parser.state ≡ parse_sof_0
        → process_byte r c w sof_0 ≡ plain r (to_state parse_sof_1 c) w ok
    unfolding process_byte
    start e = ground arith

    pub second :
        process_byte r (to_state parse_sof_1 c) w sof_1
        ≡ plain r
            (with_parser c
              (record c.parser { state = parse_header; header_index = 0; crc = 0xFFFF }))
            w
            ok
    unfolding process_byte
    second = ground arith

    -- A parser that reads the header byte `i`.
    abbrev heading : ℕ → ℕ → ℕ → LoraFrame → LoraContext
    heading i crc expected f = with_parser c (record c.parser {
      state = parse_header;
      header_index = i;
      crc = crc;
      expected_length = expected;
      frame = f;
    })

    pub header-0 :
        (crc expected : ℕ) (f : LoraFrame)
        → process_byte r (heading 0 crc expected f) w version
          ≡ plain r (heading 1 (update_crc crc version) expected f) w ok
    unfolding process_byte consume_header_byte
    header-0 crc expected f = ground arith

    pub header-1 :
        (crc expected kind : ℕ) (f : LoraFrame)
        → kind ≢ 0
        → process_byte r (heading 1 crc expected f) w kind
          ≡ plain r (heading 2 (update_crc crc kind) expected (record f { kind = kind })) w ok
    unfolding process_byte consume_header_byte
    header-1 crc expected kind f h = ground arith

    pub header-2 :
        (crc expected flags : ℕ) (f : LoraFrame)
        → bit_and flags (255 - flag_ack_required) ≡ 0
        → process_byte r (heading 2 crc expected f) w flags
          ≡ plain r (heading 3 (update_crc crc flags) expected (record f { flags = flags })) w ok
    unfolding process_byte consume_header_byte
    header-2 crc expected flags f h = ground arith

    pub header-3 :
        (crc expected sequence : ℕ) (f : LoraFrame)
        → process_byte r (heading 3 crc expected f) w sequence
          ≡ plain r
              (heading 4 (update_crc crc sequence) expected (record f { sequence = sequence }))
              w
              ok
    unfolding process_byte consume_header_byte
    header-3 crc expected sequence f = ground arith

    pub header-4 :
        (crc expected low : ℕ) (f : LoraFrame)
        → process_byte r (heading 4 crc expected f) w low
          ≡ plain r (heading 5 (update_crc crc low) low f) w ok
    unfolding process_byte consume_header_byte
    header-4 crc expected low f = ground arith

    -- The length byte that ends the header.
    pub header-5 :
        (crc n : ℕ) (f : LoraFrame)
        → n ≤ max_payload_length
        → process_byte r (heading 5 crc n f) w 0
          ≡ plain r
              (with_parser c (
                at
                  (if n == 0 then parse_crc_0 else parse_payload)
                  (update_crc crc 0)
                  f.kind
                  f.flags
                  f.sequence
                  n
                  0
                  c.parser.received_crc
                  f.payload))
              w
              ok
    unfolding process_byte consume_header_byte take_length
    header-5 crc n f h = ground (arith, bit_or_low 8 n 0 (omega arith))
