-- ===== src/Controller/Lora/Examples.antt =====
-- gugaPI/app/lora_protocol.cpp: the theorems on a concrete radio and two ends.
use guga_pi.Controller.DriverStatus.{ok, timeout}
use guga_pi.Controller.Lora.Parse.{feed}
use guga_pi.Controller.Lora.Receive.{process_byte, is_duplicate, queue_parsed_frame, read_frame}
use guga_pi.Controller.Lora.State.{
  Radio, LoraConfig, LoraContext, type_data, flag_ack_required, type_ack,
}
use guga_pi.Controller.Lora.Session.{IsReliable, IsIdle, exchange_lem}
use guga_pi.Common.{List, ℕ, refl, true, arith, ◌≡◌, [], ◌++◌, ◌∷◌, false, list_of}
use guga_pi.Controller.Lora.Queue.{IsRing, contents, enqueue, dequeue, queue_refines}
use guga_pi.Controller.Lora.Delivery.{IsListening}
use guga_pi.Controller.Lora.RoundTrip.{IsSendable}
use guga_pi.Controller.Lora.Frame.{encode_frame}
use guga_pi.Controller.Lora.Retries.{poll, retries_end}
use guga_pi.Controller.Lora.Bounds.{IsParsing, process_byte-IsParsing}
use guga_pi.Controller.Lora.Exchange.{IsNew, frame_seen, copies, delivered_once}
use guga_pi.Controller.Lora.Send.{send, fresh}

-- A radio whose world is the bytes that it was given.
abbrev tape : Radio
tape = record { World = List ℕ; write = λ w xs. (w ++ xs, ok) }

tape-IsReliable : IsReliable tape
tape-IsReliable = record { heard = λ w. w; takes = λ w xs. refl; carries = λ w xs. refl }

abbrev config : LoraConfig
config = record { has_write = true; acknowledgment_timeout_ms = 100; max_retries = 2 }

-- The two ends after `LoraProtocol_Init`.
abbrev here : LoraContext
here = fresh config 7

abbrev there : LoraContext
there = fresh config 40

abbrev hello : List ℕ
hello = 10 ∷ 20 ∷ 30 ∷ []

empty-IsRing : IsRing there.queue
empty-IsRing = record { tail_in = omega arith; count_fits = omega arith; head_follows = refl }

there-IsListening : IsListening there
there-IsListening = record { on = refl; waits = refl; ring = empty-IsRing }

here-IsIdle : IsIdle here
here-IsIdle = record {
  listening = record { on = refl; waits = refl; ring = empty-IsRing };
  no_wait = refl;
}

hello-IsSendable : IsSendable type_data flag_ack_required hello
hello-IsSendable = record { has_kind = omega arith; known_flags = refl; fits = omega arith }

hello-IsNew : IsNew type_data flag_ack_required 7 hello there
unfolding is_duplicate
hello-IsNew = refl

exchange_lem_example :
    let bytes = encode_frame type_data flag_ack_required 7 hello in
    let acks = encode_frame type_ack 0 7 [] in
    let sent = send tape here [] type_data hello true 5 in
    let got = feed tape there [] bytes in
    let done = feed tape sent.context sent.world acks in
    let frame = frame_seen type_data flag_ack_required 7 hello there in
    (sent.world ≡ [] ++ bytes)
    × (contents got.0 ≡ contents there ++ (frame ∷ []))
    × (frame.kind ≡ type_data)
    × (frame.sequence ≡ 7)
    × (list_of frame.payload 0 frame.length ≡ hello)
    × (got.1 ≡ [] ++ acks)
    × (done.0.pending.awaiting_ack ≡ false)
    × (done.0.last_tx_status ≡ ok)
unfolding tape-IsReliable
exchange_lem_example =
    exchange_lem tape tape-IsReliable here there [] [] type_data 5 hello here-IsIdle
      there-IsListening (omega arith) hello-IsSendable (omega arith) hello-IsNew

delivered_once_example :
    contents (feed tape there [] (copies type_data flag_ack_required 7 hello 3)).0
    ≡ contents there ++ (frame_seen type_data flag_ack_required 7 hello there ∷ [])
delivered_once_example =
    delivered_once tape type_data flag_ack_required 7 hello hello-IsSendable (omega arith) 2 there
      [] there-IsListening (omega arith) hello-IsNew

queue_refines_example :
    (let (c', status) = queue_parsed_frame there in
      IsRing c'.queue × ((contents c', status) ≡ enqueue (contents there) there.parser.frame))
    × (let (c', frame) = read_frame there in
        IsRing c'.queue × ((contents c', frame) ≡ dequeue (contents there)))
queue_refines_example = queue_refines there refl empty-IsRing

-- A sender that waits since 5 for an acknowledgement that does not come.
abbrev alone : LoraContext
alone = record here {
  pending = record {
    awaiting_ack = true;
    sequence = 7;
    retry_count = 0;
    since_ms = 5;
    encoded_length = 0;
    encoded = [];
  };
}

abbrev timer : List ℕ
timer = 105 ∷ 230 ∷ 330 ∷ []

retries_end_example :
    let c' = (poll tape alone [] timer).0 in
    (c'.pending.awaiting_ack ≡ false) × (c'.last_tx_status ≡ timeout)
retries_end_example =
    retries_end tape 2 alone [] timer refl refl (omega arith) refl refl
      (ground arith, (ground arith, (ground arith, tt)))

fresh-IsParsing : IsParsing there.parser
fresh-IsParsing = record {
  header_in = λ e. absurd (ground arith);
  payload_in = λ e. absurd (ground arith);
  payload_fits = λ e. absurd (ground arith);
}

process_byte-IsParsing_example :
    IsParsing (process_byte tape there [] 0xA5).context.parser
    × IsRing (process_byte tape there [] 0xA5).context.queue
process_byte-IsParsing_example =
    process_byte-IsParsing tape there [] 0xA5 fresh-IsParsing empty-IsRing
