-- ===== src/Controller/Lora/Send.antt =====
-- gugaPI/app/lora_protocol.cpp: setting up, sending and retrying.
use guga_pi.Controller.Lora.State.{
  LoraContext, LoraConfig, Radio, parse_sof_0, LoraFrame, flag_ack_required, type_ack,
  max_payload_length,
}
use guga_pi.Controller.Lora.Frame.{encode_frame}
use guga_pi.Controller.Lora.Receive.{Outcome, plain, write_encoded, tally, up}
use guga_pi.Controller.DriverStatus.{DriverStatus, ok, invalid_arg, not_initialized, busy, timeout}
use guga_pi.Common.{
  ℕ, Bool, true, if◌then◌else◌, List, take, ◌&&◌, false, not, u8, ◌!=◌, [], ◌||◌, ◌+◌, ◌==◌, ltb,
  length, sub32, leb,
}
use guga_pi.Controller.Ina219Protection.{is_ok}

unfoldable pub config_is_valid : LoraConfig → Bool
config_is_valid config = config.has_write && config.acknowledgment_timeout_ms != 0

abbrev no_frame : LoraFrame
no_frame = record { kind = 0; flags = 0; sequence = 0; length = 0; payload = λ i. 0 }

-- The context after `memset` and the stores of `LoraProtocol_Init`.
abbrev pub fresh : LoraConfig → ℕ → LoraContext
fresh config initial_sequence = record {
  config = config;
  initialized = true;
  next_tx_sequence = initial_sequence;
  last_tx_status = ok;
  pending = record {
    awaiting_ack = false;
    sequence = 0;
    retry_count = 0;
    since_ms = 0;
    encoded_length = 0;
    encoded = [];
  };
  parser = record {
    state = parse_sof_0;
    header_index = 0;
    payload_index = 0;
    expected_length = 0;
    crc = 0xFFFF;
    received_crc = 0;
    frame = record { kind = 0; flags = 0; sequence = 0; length = 0; payload = λ i. 0 };
  };
  last_rx = record { is_set = false; sequence = 0; crc = 0 };
  queue = record { slots = λ i. no_frame; head = 0; tail = 0; count = 0 };
  statistics = record {
    rx_valid_frames = 0;
    rx_delivered_frames = 0;
    rx_crc_errors = 0;
    rx_format_errors = 0;
    rx_length_errors = 0;
    rx_duplicates = 0;
    rx_queue_drops = 0;
    rx_ack_frames = 0;
    rx_unexpected_acks = 0;
    tx_frames = 0;
    tx_ack_frames = 0;
    tx_retries = 0;
    tx_errors = 0;
    tx_retry_exhausted = 0;
  };
}

unfoldable pub init : LoraContext → LoraConfig → ℕ → LoraContext × DriverStatus
init c config initial_sequence =
    if not (config_is_valid config) then (c, invalid_arg) else (fresh config initial_sequence, ok)

unfoldable pub reset : LoraContext → ℕ → LoraContext × DriverStatus
reset c initial_sequence =
    if not c.initialized || not (config_is_valid c.config)
    then (c, not_initialized)
    else init c c.config initial_sequence

module _ (r : Radio) where
  -- What `LoraProtocol_Send` does once the frame is on its way.
  unfoldable pub note_sent : LoraContext → List ℕ → Bool → ℕ → LoraContext
  note_sent c encoded acknowledgment_required now_ms =
      let c1 =
        tally (λ s. record s { tx_frames = up s.tx_frames })
          (record c { next_tx_sequence = u8 (c.next_tx_sequence + 1) }) in
      if acknowledgment_required
      then record c1 {
        pending = record {
          awaiting_ack = true;
          sequence = c.next_tx_sequence;
          retry_count = 0;
          since_ms = now_ms;
          encoded_length = length encoded;
          encoded = encoded;
        };
      }
      else c1

  abbrev sent : List ℕ → Bool → ℕ → Outcome r → Outcome r
  sent encoded required now_ms o = elim o.status [
    | ok ↦ record o {
      context = note_sent (record o.context { last_tx_status = ok }) encoded required now_ms;
    }
    | status ↦ record o { context = record o.context { last_tx_status = status } }
  ]

  -- `payload` is the bytes of the pointer and the length.
  unfoldable pub send : LoraContext → r.World → ℕ → List ℕ → Bool → ℕ → Outcome r
  send c w kind payload acknowledgment_required now_ms =
      let flags = if acknowledgment_required then flag_ack_required else 0 in
      let encoded = encode_frame kind flags c.next_tx_sequence payload in
      if not c.initialized
      then plain r c w not_initialized
      else if kind == 0 || kind == type_ack || ltb max_payload_length (length payload)
      then plain r c w invalid_arg
      else if c.pending.awaiting_ack
      then plain r c w busy
      else sent encoded acknowledgment_required now_ms (write_encoded r c w encoded)

  -- The last branch of `LoraProtocol_ProcessTimeouts`.
  unfoldable pub retry : LoraContext → r.World → ℕ → Outcome r
  retry c w now_ms =
      let o = write_encoded r c w (take c.pending.encoded_length c.pending.encoded) in
      let c1 = record o.context {
        pending = record c.pending {
          retry_count = u8 (c.pending.retry_count + 1);
          since_ms = now_ms;
        };
        last_tx_status = o.status;
      } in
      record o {
        context =
            if is_ok o.status
            then tally (λ s. record s { tx_retries = up s.tx_retries }) c1
            else c1;
      }

  unfoldable pub process_timeouts : LoraContext → r.World → ℕ → Outcome r
  process_timeouts c w now_ms =
      if not c.initialized
      then plain r c w not_initialized
      else if not c.pending.awaiting_ack
      then plain r c w ok
      else if ltb (sub32 now_ms c.pending.since_ms) c.config.acknowledgment_timeout_ms
      then plain r c w ok
      else if leb c.config.max_retries c.pending.retry_count
      then plain r
          (tally (λ s. record s { tx_retry_exhausted = up s.tx_retry_exhausted })
            (record c {
              pending = record c.pending { awaiting_ack = false; encoded_length = 0 };
              last_tx_status = timeout;
            }))
          w timeout
      else retry c w now_ms
