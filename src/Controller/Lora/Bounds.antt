-- ===== src/Controller/Lora/Bounds.antt =====
-- gugaPI/app/lora_protocol.cpp: no byte makes the parser or the ring leave their arrays.
use guga_pi.Controller.Lora.State.{
  parse_sof_0, parse_sof_1, parse_crc_0, parse_crc_1, ParserState, LoraContext, Radio, Parser,
  parse_header, parse_payload, max_payload_length, ParserState,
}
use guga_pi.Controller.Lora.Receive.{
  process_byte, handle_completed_frame, reset_parser, consume_header_byte, take_length,
  consume_payload_byte, consume_crc_byte, queue_parsed_frame, handle_ack,
  reset_parser_with_possible_sof, send_acknowledgment, write_encoded, dispatch,
}
use guga_pi.Controller.Lora.Queue.{IsRing, queue_parsed_frame-IsRing}
use guga_pi.Common.{ℕ, ◌≡◌, ◌<◌, arith, ◌≤◌, u16, bit_or, ◌<<◌, refl}

-- The parser's indices are those of its arrays.
pub record IsParsing (p : Parser) : Type 0 where
  pub header_in : p.state ≡ parse_header → p.header_index < 6
  pub payload_in : p.state ≡ parse_payload → p.payload_index < p.expected_length
  pub payload_fits : p.state ≡ parse_payload → p.expected_length ≤ max_payload_length

consume_header-IsParsing :
    (c : LoraContext) (byte : ℕ)
    → c.parser.state ≡ parse_header
    → IsParsing c.parser
    → IsParsing (consume_header_byte c byte).0.parser
unfolding consume_header_byte take_length reset_parser reset_parser_with_possible_sof
consume_header-IsParsing c byte e v = ground arith

consume_header-queue : (c : LoraContext) (byte : ℕ) → (consume_header_byte c byte).0.queue ≡ c.queue
unfolding consume_header_byte take_length reset_parser reset_parser_with_possible_sof
consume_header-queue c byte = ground arith

consume_payload-IsParsing :
    (c : LoraContext) (byte : ℕ)
    → c.parser.state ≡ parse_payload
    → IsParsing c.parser
    → IsParsing (consume_payload_byte c byte).parser
unfolding consume_payload_byte
consume_payload-IsParsing c byte e v = ground arith

module _ (r : Radio) where
  handle_completed-IsRing :
      (c : LoraContext) (w : r.World) (crc : ℕ)
      → IsRing c.queue
      → IsRing (handle_completed_frame r c w crc).context.queue
  unfolding handle_completed_frame send_acknowledgment write_encoded handle_ack queue_parsed_frame
  handle_completed-IsRing c w crc v = ground (arith, queue_parsed_frame-IsRing c v)

  consume_crc-keeps :
      (c : LoraContext) (w : r.World) (byte : ℕ)
      → IsRing c.queue
      → IsParsing (consume_crc_byte r c w byte).context.parser
        × IsRing (consume_crc_byte r c w byte).context.queue
  unfolding consume_crc_byte reset_parser reset_parser_with_possible_sof
  consume_crc-keeps c w byte v =
      let received = u16 (bit_or c.parser.received_crc (u16 byte << 8)) in
      let c1 : LoraContext = record c { parser = record c.parser { received_crc = received } } in
      let ring = handle_completed-IsRing c1 w c.parser.crc v in (ground arith, ground (arith, ring))

  dispatch-keeps :
      (state : ParserState) (c : LoraContext) (w : r.World) (byte : ℕ)
      → c.parser.state ≡ state
      → IsParsing c.parser
      → IsRing c.queue
      → IsParsing (dispatch r state c w byte).context.parser
        × IsRing (dispatch r state c w byte).context.queue
  dispatch-keeps parse_sof_0 c w byte e v q = (ground arith, ground arith)
  dispatch-keeps parse_sof_1 c w byte e v q = (ground arith, ground arith)
  dispatch-keeps parse_header c w byte e v q =
      (consume_header-IsParsing c byte e v, rw (consume_header-queue c byte) q)
  dispatch-keeps parse_payload c w byte e v q =
      (consume_payload-IsParsing c byte e v, unfold consume_payload_byte in q)
  dispatch-keeps parse_crc_0 c w byte e v q = (ground arith, q)
  dispatch-keeps parse_crc_1 c w byte e v q = consume_crc-keeps c w byte q

  -- Every byte, in every state, keeps the parser's indices inside the header and the payload buffer
  -- and the ring of received frames well formed.
  pub process_byte-IsParsing :
      (c : LoraContext) (w : r.World) (byte : ℕ)
      → IsParsing c.parser
      → IsRing c.queue
      → IsParsing (process_byte r c w byte).context.parser
        × IsRing (process_byte r c w byte).context.queue
  unfolding process_byte
  process_byte-IsParsing c w byte v q =
      ground (arith, dispatch-keeps c.parser.state c w byte refl v q)
