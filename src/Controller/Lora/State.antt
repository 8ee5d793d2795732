-- ===== src/Controller/Lora/State.antt =====
-- gugaPI/app/lora_protocol.h: the constants and the context. A context and its write function are
-- never null; a write function that is not set is `has_write = false`.
use guga_pi.Controller.DriverStatus.{DriverStatus}
use guga_pi.Common.{ℕ, Bool, Array, List}

abbrev pub sof_0 : ℕ
sof_0 = 0xA5

abbrev pub sof_1 : ℕ
sof_1 = 0x5A

abbrev pub version : ℕ
version = 1

abbrev pub max_payload_length : ℕ
max_payload_length = 128

abbrev pub rx_queue_depth : ℕ
rx_queue_depth = 4

abbrev pub type_data : ℕ
type_data = 1

abbrev pub type_ack : ℕ
type_ack = 2

abbrev pub flag_ack_required : ℕ
flag_ack_required = 1

pub record LoraConfig : Type 0 where
  pub has_write : Bool
  pub acknowledgment_timeout_ms : ℕ
  pub max_retries : ℕ

-- `LoraProtocolFrame`; `kind` is its type.
pub record LoraFrame : Type 0 where
  pub kind : ℕ
  pub flags : ℕ
  pub sequence : ℕ
  pub length : ℕ
  pub payload : Array

pub record Statistics : Type 0 where
  pub rx_valid_frames : ℕ
  pub rx_delivered_frames : ℕ
  pub rx_crc_errors : ℕ
  pub rx_format_errors : ℕ
  pub rx_length_errors : ℕ
  pub rx_duplicates : ℕ
  pub rx_queue_drops : ℕ
  pub rx_ack_frames : ℕ
  pub rx_unexpected_acks : ℕ
  pub tx_frames : ℕ
  pub tx_ack_frames : ℕ
  pub tx_retries : ℕ
  pub tx_errors : ℕ
  pub tx_retry_exhausted : ℕ

pub data ParserState : Type 0 where
  parse_sof_0 parse_sof_1 parse_header parse_payload parse_crc_0 parse_crc_1 : ParserState

-- The fields `parser_*` of the context.
pub record Parser : Type 0 where
  pub state : ParserState
  pub header_index : ℕ
  pub payload_index : ℕ
  pub expected_length : ℕ
  pub crc : ℕ
  pub received_crc : ℕ
  pub frame : LoraFrame

-- The fields `awaiting_ack` and `pending_*`; `encoded` is the buffer.
pub record Pending : Type 0 where
  pub awaiting_ack : Bool
  pub sequence : ℕ
  pub retry_count : ℕ
  pub since_ms : ℕ
  pub encoded_length : ℕ
  pub encoded : List ℕ

-- The fields `has_last_rx_signature` and `last_rx_*`.
pub record Signature : Type 0 where
  pub is_set : Bool
  pub sequence : ℕ
  pub crc : ℕ

-- The fields `rx_queue*`.
pub record RxQueue : Type 0 where
  pub slots : ℕ → LoraFrame
  pub head : ℕ
  pub tail : ℕ
  pub count : ℕ

pub record LoraContext : Type 0 where
  pub config : LoraConfig
  pub initialized : Bool
  pub next_tx_sequence : ℕ
  pub last_tx_status : DriverStatus
  pub pending : Pending
  pub parser : Parser
  pub last_rx : Signature
  pub queue : RxQueue
  pub statistics : Statistics

-- The write function of the configuration with its context: what it is given, and its status.
pub record Radio : Type 1 where
  pub World : Type 0
  pub write : World → List ℕ → World × DriverStatus
