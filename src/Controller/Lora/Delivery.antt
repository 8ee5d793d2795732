-- ===== src/Controller/Lora/Delivery.antt =====
-- gugaPI/app/lora_protocol.cpp: a frame that arrives is kept once and acknowledged.
use guga_pi.Controller.Lora.State.{
  LoraContext, Radio, parse_sof_0, Signature, flag_ack_required, type_ack, rx_queue_depth,
}
use guga_pi.Controller.Lora.Frame.{encode_frame}
use guga_pi.Controller.Lora.Receive.{
  Outcome, handle_completed_frame, is_duplicate, queue_parsed_frame, send_acknowledgment,
  write_encoded,
}
use guga_pi.Controller.Lora.Queue.{
  contents, IsRing, queue_parsed_frame-room, queue_parsed_frame-IsRing,
}
use guga_pi.Common.{
  ℕ, true, ◌≡◌, if◌then◌else◌, bit_and, ◌++◌, ◌∷◌, ◌≢◌, ◌!=◌, [], arith, false, ◌<◌,
}

abbrev pub signature_of : ℕ → ℕ → Signature
signature_of sequence crc = record { is_set = true; sequence = sequence; crc = crc }

-- What a receiver is like between two frames.
pub record IsListening (c : LoraContext) : Type 0 where
  pub on : c.initialized ≡ true
  pub waits : c.parser.state ≡ parse_sof_0
  pub ring : IsRing c.queue

module _ (r : Radio) (c : LoraContext) (w : r.World) where
  -- The world after the acknowledgement that the flags ask for.
  abbrev pub world_after : ℕ → ℕ → r.World
  world_after flags sequence =
      if bit_and flags flag_ack_required != 0
      then (r.write w (encode_frame type_ack 0 sequence [])).0
      else w

  -- What the completion of a new frame leaves.
  pub record IsKept (crc : ℕ) (o : Outcome r) : Type 0 where
    pub appended : contents o.context ≡ contents c ++ (c.parser.frame ∷ [])
    pub ring : IsRing o.context.queue
    pub remembered : o.context.last_rx ≡ signature_of c.parser.frame.sequence crc
    pub still_on : o.context.initialized ≡ c.initialized
    pub answered : o.world ≡ world_after c.parser.frame.flags c.parser.frame.sequence

  -- What the completion of a frame that came before leaves.
  pub record IsDropped (o : Outcome r) : Type 0 where
    pub unchanged : contents o.context ≡ contents c
    pub ring : IsRing o.context.queue
    pub remembered : o.context.last_rx ≡ c.last_rx
    pub still_on : o.context.initialized ≡ c.initialized
    pub answered : o.world ≡ world_after c.parser.frame.flags c.parser.frame.sequence

  pub handle-IsDropped :
      (crc : ℕ)
      → IsRing c.queue
      → c.parser.frame.kind ≢ type_ack
      → is_duplicate c crc ≡ true
      → IsDropped (handle_completed_frame r c w crc)
  unfolding handle_completed_frame is_duplicate send_acknowledgment write_encoded
  handle-IsDropped crc v k d = record {
    unchanged = ground arith;
    ring = ground arith;
    remembered = ground arith;
    still_on = ground arith;
    answered = ground arith;
  }

  pub handle-IsKept :
      (crc : ℕ)
      → IsRing c.queue
      → c.parser.frame.kind ≢ type_ack
      → is_duplicate c crc ≡ false
      → c.queue.count < rx_queue_depth
      → IsKept crc (handle_completed_frame r c w crc)
  unfolding handle_completed_frame is_duplicate send_acknowledgment write_encoded queue_parsed_frame
  handle-IsKept crc v k d room =
      let grown = (queue_parsed_frame-room c v room).0 in
      let kept = queue_parsed_frame-IsRing c v in
      record {
        appended = ground (arith, grown);
        ring = ground (arith, kept);
        remembered = ground arith;
        still_on = ground arith;
        answered = ground arith;
      }
