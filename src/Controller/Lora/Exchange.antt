-- ===== src/Controller/Lora/Exchange.antt =====
-- gugaPI/app/lora_protocol.cpp: a frame, its retransmissions and its acknowledgement, byte by byte.
use guga_pi.Controller.Lora.State.{LoraContext, Radio, LoraFrame, type_ack, rx_queue_depth}
use guga_pi.Controller.Lora.Frame.{encode_frame, crc16_ccitt, covered}
use guga_pi.Controller.Lora.Receive.{handle_completed_frame, reset_parser, is_duplicate, handle_ack}
use guga_pi.Controller.DriverStatus.{ok}
use guga_pi.Controller.Lora.Parse.{feed, feed-append}
use guga_pi.Controller.Lora.Queue.{contents}
use guga_pi.Controller.Lora.RoundTrip.{arrived, IsSendable, feed-encode_frame}
use guga_pi.Controller.Lora.Delivery.{
  IsListening, handle-IsKept, handle-IsDropped, world_after, signature_of,
}
use guga_pi.Common.{ℕ, List, ◌≡◌, ◌≢◌, [], true, ◌<◌, arith, suc, false, ◌∙◌, ◌++◌, refl, ◌∷◌, zero}

module _ (kind flags sequence : ℕ) (payload : List ℕ) where
  abbrev pub check_value : ℕ
  check_value = crc16_ccitt (covered kind flags sequence payload)

  -- The frame that a receiver makes of the bytes of `EncodeFrame`.
  abbrev pub frame_seen : LoraContext → LoraFrame
  frame_seen c = (arrived c kind flags sequence payload).parser.frame

  -- The bytes, sent so many times.
  abbrev pub copies : ℕ → List ℕ
  copies zero = []
  copies (suc k) = encode_frame kind flags sequence payload ++ copies k

  -- The receiver has not just kept the same frame.
  abbrev pub IsNew : LoraContext → Type 0
  IsNew c = is_duplicate (arrived c kind flags sequence payload) check_value ≡ false

module _ (r : Radio) (kind flags sequence : ℕ) (payload : List ℕ)
    (v : IsSendable kind flags payload) (no_ack : kind ≢ type_ack) where
  abbrev bytes_sent : List ℕ
  bytes_sent = encode_frame kind flags sequence payload

  abbrev check : ℕ
  check = check_value kind flags sequence payload

  pub frame_is_kept :
      (c : LoraContext) (w : r.World)
      → IsListening c
      → c.queue.count < rx_queue_depth
      → IsNew kind flags sequence payload c
      → let s = feed r c w bytes_sent in
        (contents s.0 ≡ contents c ++ (frame_seen kind flags sequence payload c ∷ []))
        × IsListening s.0
        × (s.0.last_rx ≡ signature_of sequence check)
        × (s.1 ≡ world_after r c w flags sequence)
  unfolding reset_parser
  frame_is_kept c w l room new =
      let a = arrived c kind flags sequence payload in
      let k = handle-IsKept r a w check l.ring no_ack new room in
      rw (feed-encode_frame r c w l.on kind flags sequence payload v l.waits) (
        k.appended,
        record { on = k.still_on ∙ l.on; waits = refl; ring = k.ring },
        k.remembered,
        k.answered,
      )

  pub frame_is_dropped :
      (c : LoraContext) (w : r.World)
      → IsListening c
      → c.last_rx ≡ signature_of sequence check
      → let s = feed r c w bytes_sent in
        (contents s.0 ≡ contents c)
        × IsListening s.0
        × (s.0.last_rx ≡ signature_of sequence check)
        × (s.1 ≡ world_after r c w flags sequence)
  unfolding reset_parser is_duplicate
  frame_is_dropped c w l same =
      let a = arrived c kind flags sequence payload in
      let k = handle-IsDropped r a w check l.ring no_ack (ground (arith, same)) in
      rw (feed-encode_frame r c w l.on kind flags sequence payload v l.waits) (
        k.unchanged,
        record { on = k.still_on ∙ l.on; waits = refl; ring = k.ring },
        k.remembered ∙ same,
        k.answered,
      )

  repeats_are_dropped :
      (k : ℕ) (c : LoraContext) (w : r.World)
      → IsListening c
      → c.last_rx ≡ signature_of sequence check
      → contents (feed r c w (copies kind flags sequence payload k)).0 ≡ contents c
  repeats_are_dropped zero c w l same = unfold feed in refl
  repeats_are_dropped (suc k) c w l same =
      let (unchanged, listening, remembered, answered) = frame_is_dropped c w l same in
      let s = feed r c w bytes_sent in
      rw (feed-append r c w bytes_sent (copies kind flags sequence payload k))
        (repeats_are_dropped k s.0 s.1 listening remembered ∙ unchanged)

  -- A frame that is new to a listening receiver with room is delivered exactly once, however often its
  -- bytes are sent again.
  pub delivered_once :
      (k : ℕ) (c : LoraContext) (w : r.World)
      → IsListening c
      → c.queue.count < rx_queue_depth
      → IsNew kind flags sequence payload c
      → contents (feed r c w (copies kind flags sequence payload (suc k))).0
        ≡ contents c ++ (frame_seen kind flags sequence payload c ∷ [])
  delivered_once k c w l room new =
      let (appended, listening, remembered, answered) = frame_is_kept c w l room new in
      let s = feed r c w bytes_sent in
      rw (feed-append r c w bytes_sent (copies kind flags sequence payload k))
        (repeats_are_dropped k s.0 s.1 listening remembered ∙ appended)

ack-IsSendable : IsSendable type_ack 0 []
ack-IsSendable = record { has_kind = omega arith; known_flags = refl; fits = omega arith }

-- The acknowledgement that a sender waits for ends its wait.
pub ack_ends_wait :
    (r : Radio) (c : LoraContext) (w : r.World) (sequence : ℕ)
    → IsListening c
    → c.pending.awaiting_ack ≡ true
    → c.pending.sequence ≡ sequence
    → let s = feed r c w (encode_frame type_ack 0 sequence []) in
      (s.0.pending.awaiting_ack ≡ false) × (s.0.last_tx_status ≡ ok) × (s.1 ≡ w)
unfolding reset_parser handle_completed_frame handle_ack
ack_ends_wait r c w sequence l waiting same =
    rw (feed-encode_frame r c w l.on type_ack 0 sequence [] ack-IsSendable l.waits)
      (ground (arith, same), ground (arith, same), ground arith)
