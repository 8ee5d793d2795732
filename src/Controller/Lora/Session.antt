-- ===== src/Controller/Lora/Session.antt =====
-- gugaPI/app/lora_protocol.cpp: a sender and a receiver over a link that loses nothing.
use guga_pi.Controller.Lora.State.{LoraContext, Radio, flag_ack_required, rx_queue_depth, type_ack}
use guga_pi.Controller.Lora.Frame.{encode_frame}
use guga_pi.Controller.Lora.Receive.{write_encoded}
use guga_pi.Controller.Lora.Send.{send, note_sent}
use guga_pi.Controller.DriverStatus.{ok}
use guga_pi.Controller.Lora.Parse.{feed}
use guga_pi.Controller.Lora.Queue.{contents}
use guga_pi.Controller.Lora.RoundTrip.{IsSendable}
use guga_pi.Controller.Lora.Delivery.{IsListening}
use guga_pi.Controller.Lora.Exchange.{frame_is_kept, ack_ends_wait, IsNew, frame_seen}
use guga_pi.Common.{
  list_of, list_of-fill, refl, ℕ, List, ◌≡◌, ◌++◌, false, ◌<◌, ◌≢◌, true, [], u8, ◌∷◌, ◌+◌, ap,
  arith, ◌∙◌,
}

-- A radio that takes every write; `heard` is what came through so far.
pub record IsReliable (r : Radio) : Type 0 where
  pub heard : r.World → List ℕ
  pub takes : (w : r.World) (xs : List ℕ) → (r.write w xs).1 ≡ ok
  pub carries : (w : r.World) (xs : List ℕ) → heard (r.write w xs).0 ≡ heard w ++ xs

-- A sender that may send.
pub record IsIdle (c : LoraContext) : Type 0 where
  pub listening : IsListening c
  pub no_wait : c.pending.awaiting_ack ≡ false

module _ (r : Radio) (good : IsReliable r) where
  -- A request to send that is well formed goes out as its frame, with the next sequence number, and
  -- the sender waits for the acknowledgement of that number.
  pub send_lem :
      (c : LoraContext) (w : r.World) (kind now_ms : ℕ) (payload : List ℕ)
      → IsIdle c
      → IsSendable kind flag_ack_required payload
      → kind ≢ type_ack
      → let o = send r c w kind payload true now_ms in
        (o.status ≡ ok)
        × (good.heard o.world
            ≡ good.heard w ++ encode_frame kind flag_ack_required c.next_tx_sequence payload)
        × IsListening o.context
        × (o.context.pending.awaiting_ack ≡ true)
        × (o.context.pending.sequence ≡ c.next_tx_sequence)
        × (o.context.next_tx_sequence ≡ u8 (c.next_tx_sequence + 1))
  unfolding send write_encoded note_sent
  send_lem c w kind now_ms payload idle v no_ack =
      let l = idle.listening in
      let free = idle.no_wait in
      let bytes = encode_frame kind flag_ack_required c.next_tx_sequence payload in
      let taken = good.takes w bytes in
      let carried = good.carries w bytes in
      (
        ground (arith, v.has_kind, v.fits, taken),
        ground (arith, v.has_kind, v.fits, taken, carried),
        record {
          on = ground (arith, v.has_kind, v.fits, taken);
          waits = ground (arith, v.has_kind, v.fits, taken);
          ring = ground (arith, v.has_kind, v.fits, taken);
        },
        ground (arith, v.has_kind, v.fits, taken),
        ground (arith, v.has_kind, v.fits, taken),
        ground (arith, v.has_kind, v.fits, taken),
      )

  -- What an idle sender writes, fed to a listening receiver with room that has not just kept the same
  -- frame, is delivered there as one frame with its type, number and payload; what the receiver
  -- answers, fed to the sender, ends its wait.
  pub exchange_lem :
      (a b : LoraContext) (w w' : r.World) (kind now_ms : ℕ) (payload : List ℕ)
      → IsIdle a
      → IsListening b
      → b.queue.count < rx_queue_depth
      → IsSendable kind flag_ack_required payload
      → kind ≢ type_ack
      → IsNew kind flag_ack_required a.next_tx_sequence payload b
      → let bytes = encode_frame kind flag_ack_required a.next_tx_sequence payload in
        let acks = encode_frame type_ack 0 a.next_tx_sequence [] in
        let sent = send r a w kind payload true now_ms in
        let got = feed r b w' bytes in
        let done = feed r sent.context sent.world acks in
        let frame = frame_seen kind flag_ack_required a.next_tx_sequence payload b in
        (good.heard sent.world ≡ good.heard w ++ bytes)
        × (contents got.0 ≡ contents b ++ (frame ∷ []))
        × (frame.kind ≡ kind)
        × (frame.sequence ≡ a.next_tx_sequence)
        × (list_of frame.payload 0 frame.length ≡ payload)
        × (good.heard got.1 ≡ good.heard w' ++ acks)
        × (done.0.pending.awaiting_ack ≡ false)
        × (done.0.last_tx_status ≡ ok)
  exchange_lem a b w w' kind now_ms payload idle l room v no_ack new =
      let (status, heard, listening, waiting, number, next) =
        send_lem a w kind now_ms payload idle v no_ack in
      let (appended, listening', remembered, answered) =
        frame_is_kept r kind flag_ack_required a.next_tx_sequence payload v no_ack b w' l room
          new in
      let sent = send r a w kind payload true now_ms in
      let (over, fine, silent) =
        ack_ends_wait r sent.context sent.world a.next_tx_sequence listening waiting number in
      (
        heard,
        appended,
        refl,
        refl,
        list_of-fill b.parser.frame.payload 0 payload,
        ap good.heard answered ∙ good.carries w' (encode_frame type_ack 0 a.next_tx_sequence []),
        over,
        fine,
      )
