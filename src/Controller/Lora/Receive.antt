-- ===== src/Controller/Lora/Receive.antt =====
-- gugaPI/app/lora_protocol.cpp: the parser, the queue of received frames and the acknowledgements.
use guga_pi.Controller.Lora.State.{
  LoraContext, Parser, ParserState, Statistics, LoraFrame, Radio, parse_sof_0, parse_sof_1,
  parse_header, parse_payload, parse_crc_0, parse_crc_1, type_ack, flag_ack_required, sof_0,
  rx_queue_depth, version, sof_1, max_payload_length,
}
use guga_pi.Controller.Lora.Frame.{update_crc, encode_frame}
use guga_pi.Controller.DriverStatus.{
  DriverStatus, ok, error, invalid_arg, not_initialized, busy, unsupported,
}
use guga_pi.Common.{
  ℕ, if◌then◌else◌, Option, Bool, u8, u16, List, bit_and, ◌!=◌, ◌==◌, leb, not, ◌&&◌, ◌+◌, bit_or,
  true, [], ◌^◌, ◌||◌, ◌<<◌, update, false, ◌-◌, none, ltb, some,
}

-- `IncrementSaturated`.
abbrev pub up : ℕ → ℕ
up value = if value != 2 ^ 32 - 1 then value + 1 else value

abbrev pub tally : (Statistics → Statistics) → LoraContext → LoraContext
tally f c = record c { statistics = f c.statistics }

abbrev pub format_error : LoraContext → LoraContext
format_error = tally (λ s. record s { rx_format_errors = up s.rx_format_errors })

unfoldable pub reset_parser : LoraContext → LoraContext
reset_parser c = record c {
  parser = record {
    state = parse_sof_0;
    header_index = 0;
    payload_index = 0;
    expected_length = 0;
    crc = 0xFFFF;
    received_crc = 0;
    frame = record c.parser.frame { kind = 0; flags = 0; sequence = 0; length = 0 };
  };
}

abbrev pub to_state : ParserState → LoraContext → LoraContext
to_state state c = record c { parser = record c.parser { state = state } }

unfoldable pub reset_parser_with_possible_sof : LoraContext → ℕ → LoraContext
reset_parser_with_possible_sof c byte =
    if byte == sof_0 then to_state parse_sof_1 (reset_parser c) else reset_parser c

-- Rounds up `rx_queue_head` and `rx_queue_tail`.
abbrev pub next_index : ℕ → ℕ
next_index i = if leb rx_queue_depth (u8 (i + 1)) then 0 else u8 (i + 1)

unfoldable pub queue_parsed_frame : LoraContext → LoraContext × DriverStatus
queue_parsed_frame c =
    let q = c.queue in
    if leb rx_queue_depth q.count
    then (tally (λ s. record s { rx_queue_drops = up s.rx_queue_drops }) c, busy)
    else (
      tally (λ s. record s { rx_delivered_frames = up s.rx_delivered_frames })
          (record c {
            queue = record q {
              slots = λ i. if i == q.head then c.parser.frame else q.slots i;
              head = next_index q.head;
              count = u8 (q.count + 1);
            };
          }),
      ok,
    )

unfoldable pub read_frame : LoraContext → LoraContext × Option LoraFrame
read_frame c =
    let q = c.queue in
    if not c.initialized || q.count == 0 then (c, none) else (
      record c { queue = record q { tail = next_index q.tail; count = u8 (q.count - 1) } },
      some (q.slots q.tail),
    )

unfoldable pub get_queued_frame_count : LoraContext → ℕ
get_queued_frame_count c = if c.initialized then c.queue.count else 0

unfoldable pub is_duplicate : LoraContext → ℕ → Bool
is_duplicate c frame_crc =
    c.last_rx.is_set && c.last_rx.sequence == c.parser.frame.sequence && c.last_rx.crc == frame_crc

-- The branch of `HandleCompletedFrame` for an acknowledgement.
unfoldable pub handle_ack : LoraContext → LoraContext × DriverStatus
handle_ack c =
    let f = c.parser.frame in
    let c1 = tally (λ s. record s { rx_ack_frames = up s.rx_ack_frames }) c in
    if f.flags != 0 || f.length != 0
    then (format_error c, error)
    else if c.pending.awaiting_ack && c.pending.sequence == f.sequence
    then (
      record c1 {
        pending = record c.pending { awaiting_ack = false; retry_count = 0; encoded_length = 0 };
        last_tx_status = ok;
      },
      ok,
    )
    else (tally (λ s. record s { rx_unexpected_acks = up s.rx_unexpected_acks }) c1, error)

-- A header byte that ends the frame.
abbrev refuse_header : LoraContext → ℕ → DriverStatus → LoraContext × DriverStatus
refuse_header c byte status = (reset_parser_with_possible_sof (format_error c) byte, status)

abbrev next_header : LoraContext → Parser → LoraContext × DriverStatus
next_header c p = (record c { parser = record p { header_index = u8 (p.header_index + 1) } }, ok)

-- The last header byte.
unfoldable pub take_length : LoraContext → Parser → ℕ → LoraContext × DriverStatus
take_length c p byte =
    let expected = u16 (bit_or p.expected_length (u16 byte << 8)) in
    let p1 = record p { expected_length = expected } in
    if ltb max_payload_length expected
    then (
      reset_parser_with_possible_sof
          (tally (λ s. record s { rx_length_errors = up s.rx_length_errors })
            (record c { parser = p1 }))
          byte,
      invalid_arg,
    )
    else next_header c (record p1 {
      frame = record p.frame { length = expected };
      payload_index = 0;
      state = if expected == 0 then parse_crc_0 else parse_payload;
    })

unfoldable pub consume_header_byte : LoraContext → ℕ → LoraContext × DriverStatus
consume_header_byte c byte =
    let p = record c.parser { crc = update_crc c.parser.crc byte } in
    let c1 = record c { parser = p } in
    if p.header_index == 0
    then (if byte != version then refuse_header c1 byte unsupported else next_header c1 p)
    else if p.header_index == 1
    then (if byte == 0
        then refuse_header c1 byte invalid_arg
        else next_header c1 (record p { frame = record p.frame { kind = byte } }))
    else if p.header_index == 2
    then (if bit_and byte (255 - flag_ack_required) != 0
        then refuse_header c1 byte invalid_arg
        else next_header c1 (record p { frame = record p.frame { flags = byte } }))
    else if p.header_index == 3
    then next_header c1 (record p { frame = record p.frame { sequence = byte } })
    else if p.header_index == 4
    then next_header c1 (record p { expected_length = byte })
    else if p.header_index == 5
    then take_length c1 p byte
    else (reset_parser c1, error)

unfoldable pub consume_payload_byte : LoraContext → ℕ → LoraContext
consume_payload_byte c byte =
    let p = c.parser in
    let index = u16 (p.payload_index + 1) in
    record c {
      parser = record p {
        frame = record p.frame { payload = update p.frame.payload p.payload_index byte };
        payload_index = index;
        crc = update_crc p.crc byte;
        state = if leb p.expected_length index then parse_crc_0 else p.state;
      };
    }

module _ (r : Radio) where
  -- What a call leaves: the context, the world of the radio, and the status returned.
  pub record Outcome : Type 0 where
    pub context : LoraContext
    pub world : r.World
    pub status : DriverStatus

  abbrev pub plain : LoraContext → r.World → DriverStatus → Outcome
  plain c w status = record { context = c; world = w; status = status }

  abbrev is_ok : DriverStatus → Bool
  is_ok ok = true
  is_ok _ = false

  unfoldable pub write_encoded : LoraContext → r.World → List ℕ → Outcome
  write_encoded c w encoded =
      let (w', status) = r.write w encoded in
      plain (if is_ok status then c else tally (λ s. record s { tx_errors = up s.tx_errors }) c) w'
        status

  unfoldable pub send_acknowledgment : LoraContext → r.World → ℕ → Outcome
  send_acknowledgment c w sequence =
      let o = write_encoded c w (encode_frame type_ack 0 sequence []) in
      record o {
        context =
            if is_ok o.status
            then tally (λ s. record s { tx_ack_frames = up s.tx_ack_frames }) o.context
            else o.context;
      }

  abbrev acknowledge_if : Bool → LoraContext → r.World → Outcome
  acknowledge_if required c w =
      if required then send_acknowledgment c w c.parser.frame.sequence else plain c w ok

  abbrev deliver : Bool → ℕ → LoraContext → r.World → LoraContext × DriverStatus → Outcome
  deliver required frame_crc c w (c1, ok) =
      acknowledge_if required
        (record c1 {
          last_rx = record { is_set = true; sequence = c.parser.frame.sequence; crc = frame_crc };
        })
        w
  deliver required frame_crc c w (c1, status) = plain c1 w status

  unfoldable pub handle_completed_frame : LoraContext → r.World → ℕ → Outcome
  handle_completed_frame c w frame_crc =
      let c1 = tally (λ s. record s { rx_valid_frames = up s.rx_valid_frames }) c in
      let f = c.parser.frame in
      let required = bit_and f.flags flag_ack_required != 0 in
      if f.kind == type_ack
      then (let a = handle_ack c1 in plain a.0 w a.1)
      else if is_duplicate c1 frame_crc
      then acknowledge_if required (tally (λ s. record s { rx_duplicates = up s.rx_duplicates }) c1)
          w
      else deliver required frame_crc c1 w (queue_parsed_frame c1)

  unfoldable pub consume_crc_byte : LoraContext → r.World → ℕ → Outcome
  consume_crc_byte c w byte =
      let p = c.parser in
      let received = u16 (bit_or p.received_crc (u16 byte << 8)) in
      let c1 = record c { parser = record p { received_crc = received } } in
      if received != p.crc
      then plain
          (reset_parser_with_possible_sof
            (tally (λ s. record s { rx_crc_errors = up s.rx_crc_errors }) c1) byte)
          w error
      else (let o = handle_completed_frame c1 w p.crc in
          record o { context = reset_parser o.context })

  -- The `switch` of `LoraProtocol_ProcessByte`.
  abbrev pub dispatch : ParserState → LoraContext → r.World → ℕ → Outcome
  dispatch parse_sof_0 c w byte = plain (if byte == sof_0 then to_state parse_sof_1 c else c) w ok
  dispatch parse_sof_1 c w byte =
      plain
        (if byte == sof_1
          then record c {
            parser = record c.parser { state = parse_header; header_index = 0; crc = 0xFFFF };
          }
          else if byte != sof_0
          then to_state parse_sof_0 c
          else c)
        w ok
  dispatch parse_header c w byte = let h = consume_header_byte c byte in plain h.0 w h.1
  dispatch parse_payload c w byte = plain (consume_payload_byte c byte) w ok
  dispatch parse_crc_0 c w byte =
      plain (record c { parser = record c.parser { received_crc = byte; state = parse_crc_1 } }) w
        ok
  dispatch parse_crc_1 c w byte = consume_crc_byte c w byte

  unfoldable pub process_byte : LoraContext → r.World → ℕ → Outcome
  process_byte c w byte =
      if not c.initialized then plain c w not_initialized else dispatch c.parser.state c w byte
