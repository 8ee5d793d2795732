-- ===== src/Controller/Lora/RoundTrip.antt =====
-- gugaPI/app/lora_protocol.cpp: the parser reads back what `EncodeFrame` wrote.
use guga_pi.Controller.Lora.State.{
  LoraContext, Radio, parse_sof_0, LoraFrame, version, sof_0, parse_crc_1, flag_ack_required, sof_1,
  parse_crc_0, max_payload_length, parse_payload,
}
use guga_pi.Controller.Lora.Frame.{
  update_crc, crc16_over, crc16_ccitt, covered, encode_frame, crc16_over-lt,
}
use guga_pi.Controller.Lora.Receive.{
  process_byte, handle_completed_frame, reset_parser, consume_crc_byte,
}
use guga_pi.Controller.Lora.Parse.{
  feed, at, feed-step, feed-payload, header-0, with_parser, start, second, header-1, header-2,
  header-3, header-4, header-5,
}
use guga_pi.Common.{
  ℕ, Array, List, ◌≡◌, length, ◌≢◌, true, bit_and, ◌-◌, ◌∷◌, if◌then◌else◌, ◌<◌, fill, [], ◌==◌,
  ◌^◌, ◌≤◌, u8, ◌++◌, ◌>>◌, arith, ◌∙◌, refl, bit_and_byte, bit_or_low, ◌%◌, ◌/◌,
}

-- The context whose parser has a whole frame, with a right check value.
abbrev pub arrived : LoraContext → ℕ → ℕ → ℕ → List ℕ → LoraContext
arrived c kind flags sequence payload =
    let n = length payload in
    let crc = crc16_ccitt (covered kind flags sequence payload) in
    with_parser c
      (at parse_crc_1 crc kind flags sequence n n crc (fill c.parser.frame.payload 0 payload))

-- What is sent: a type, no unknown flag, and a payload that fits.
pub record IsSendable (kind flags : ℕ) (payload : List ℕ) : Type 0 where
  pub has_kind : kind ≢ 0
  pub known_flags : bit_and flags (255 - flag_ack_required) ≡ 0
  pub fits : length payload ≤ max_payload_length

module _ (r : Radio) (c : LoraContext) (w : r.World) (on : c.initialized ≡ true) where
  module _ (kind flags sequence : ℕ) (payload : List ℕ) (v : IsSendable kind flags payload) where
    abbrev n : ℕ
    n = length payload

    abbrev crc_of_header : ℕ
    crc_of_header = crc16_over 0xFFFF (version ∷ kind ∷ flags ∷ sequence ∷ n ∷ 0 ∷ [])

    feed-header :
        (rest : List ℕ)
        → c.parser.state ≡ parse_sof_0
        → feed r c w (sof_0 ∷ sof_1 ∷ version ∷ kind ∷ flags ∷ sequence ∷ n ∷ 0 ∷ rest)
          ≡ feed r
              (with_parser c (
                at
                  (if n == 0 then parse_crc_0 else parse_payload)
                  crc_of_header
                  kind
                  flags
                  sequence
                  n
                  0
                  c.parser.received_crc
                  c.parser.frame.payload))
              w
              rest
    unfolding crc16_over
    feed-header rest waits =
        let f = c.parser.frame in
        let e = c.parser.expected_length in
        let c0 = update_crc 0xFFFF version in
        let c1 = update_crc c0 kind in
        let c2 = update_crc c1 flags in
        let c3 = update_crc c2 sequence in
        let f1 : LoraFrame = record f { kind = kind } in
        let f2 : LoraFrame = record f1 { flags = flags } in
        let f3 : LoraFrame = record f2 { sequence = sequence } in
        feed-step r c _ w sof_0 _ (start r c w on waits)
        ∙ feed-step r _ _ w sof_1 _ (second r c w on)
        ∙ feed-step r _ _ w version _ (header-0 r c w on 0xFFFF e f)
        ∙ feed-step r _ _ w kind _ (header-1 r c w on c0 e kind f v.has_kind)
        ∙ feed-step r _ _ w flags _ (header-2 r c w on c1 e flags f1 v.known_flags)
        ∙ feed-step r _ _ w sequence _ (header-3 r c w on c2 e sequence f2)
        ∙ feed-step r _ _ w n _ (header-4 r c w on c3 e n f3)
        ∙ feed-step r _ _ w 0 rest (header-5 r c w on (update_crc c3 n) n f3 v.fits)

    feed-body :
        (xs : List ℕ) (crc : ℕ) (rest : List ℕ)
        → n ≡ length xs
        → feed r
            (with_parser c (
              at
                (if n == 0 then parse_crc_0 else parse_payload)
                crc
                kind
                flags
                sequence
                n
                0
                c.parser.received_crc
                c.parser.frame.payload))
            w
            (xs ++ rest)
          ≡ feed r
              (with_parser c (
                at parse_crc_0
                  (crc16_over crc xs)
                  kind
                  flags
                  sequence
                  n
                  n
                  c.parser.received_crc
                  (fill c.parser.frame.payload 0 xs)))
              w
              rest
    unfolding crc16_over
    feed-body [] crc rest e = rw e refl
    feed-body (x ∷ xs) crc rest e =
        let go =
          feed-payload r c w on kind flags sequence n v.fits xs x crc 0 c.parser.received_crc
            c.parser.frame.payload rest (omega arith) in
        ground (arith, go)

    -- The check value, low byte first.
    feed-check :
        (crc rc : ℕ) (a : Array)
        → crc < 2 ^ 16
        → feed r
            (with_parser c (at parse_crc_0 crc kind flags sequence n n rc a))
            w
            (u8 (bit_and crc 0xFF) ∷ u8 (bit_and (crc >> 8) 0xFF) ∷ [])
          ≡ (let o =
                handle_completed_frame r
                  (with_parser c (at parse_crc_1 crc kind flags sequence n n crc a))
                  w
                  crc in
              (reset_parser o.context, o.world))
    unfolding feed process_byte consume_crc_byte
    feed-check crc rc a h = ground (
      arith,
      bit_and_byte crc,
      bit_and_byte (crc >> 8),
      bit_or_low 8 (crc % 256) (crc / 256) (omega arith),
    )

    length_bytes : (u8 (bit_and n 0xFF) ≡ n) × (u8 (bit_and (n >> 8) 0xFF) ≡ 0)
    length_bytes =
        let h = v.fits in (omega (arith, bit_and_byte n), omega (arith, bit_and_byte (n >> 8)))

    -- A frame as `EncodeFrame` writes it, fed byte by byte to a parser that waits, is handled once, as
    -- the frame with that type, flags, sequence and payload; the parser waits again.
    pub feed-encode_frame :
        c.parser.state ≡ parse_sof_0
        → let crc = crc16_ccitt (covered kind flags sequence payload) in
          let o = handle_completed_frame r (arrived c kind flags sequence payload) w crc in
          feed r c w (encode_frame kind flags sequence payload) ≡ (reset_parser o.context, o.world)
    unfolding encode_frame crc16_ccitt crc16_over
    feed-encode_frame waits =
        let crc = crc16_over crc_of_header payload in
        let a = fill c.parser.frame.payload 0 payload in
        rw (length_bytes.0, length_bytes.1)
          (feed-header _ waits
            ∙ feed-body payload crc_of_header _ refl
            ∙ feed-check crc c.parser.received_crc a (
                crc16_over-lt payload crc_of_header (
                  crc16_over-lt (version ∷ kind ∷ flags ∷ sequence ∷ n ∷ 0 ∷ []) 0xFFFF
                    (omega arith))))
