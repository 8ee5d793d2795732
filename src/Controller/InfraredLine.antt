-- ===== src/Controller/InfraredLine.antt =====
-- gugaPI/drivers/infrared_line/infrared_line_protocol.cpp: the frames of the infrared line sensor.
-- The pointers that the functions take are not null.
pub mod Headers
mod Examples
use guga_pi.Common.{
  ℕ, Array, Option, none, some, zero, suc, true, false, u16, u32, if◌then◌else◌, Bool, ◌+◌, ◌-◌,
  bit_xor, update, bit_or, ◌/◌, ◌!=◌, ◌==◌, ltb, bit_and, leb, ◌<<◌, ◌*◌, sub32, ◌||◌, ◌>>◌, ◌&&◌,
  not, ◌^◌,
}

abbrev pub frame_size : ℕ
frame_size = 15

abbrev pub address : ℕ
address = 0x20

abbrev pub function : ℕ
function = 3

abbrev pub payload_length : ℕ
payload_length = 10

-- `offset` is the pattern of the int16_t.
pub record Frame : Type 0 where
  pub offset : ℕ
  pub all_black : ℕ
  pub adc_0 : ℕ
  pub adc_1 : ℕ
  pub adc_2 : ℕ
  pub sequence : ℕ
  pub received_ms : ℕ
  pub received_us : ℕ

pub record Stats : Type 0 where
  pub bytes_received : ℕ
  pub valid_frames : ℕ
  pub header_errors : ℕ
  pub crc_errors : ℕ
  pub payload_errors : ℕ
  pub resync_bytes : ℕ
  pub last_period_ms : ℕ
  pub average_period_ms : ℕ
  pub minimum_period_ms : ℕ
  pub maximum_period_ms : ℕ
  pub last_period_us : ℕ
  pub average_period_us : ℕ
  pub period_samples : ℕ
  pub consecutive_invalid_frames : ℕ

pub record Parser : Type 0 where
  pub buffer : Array
  pub length : ℕ
  pub last_frame_ms : ℕ
  pub last_frame_us : ℕ
  pub sequence : ℕ
  pub stats : Stats

abbrev pub read_u16 : Array → ℕ → ℕ
read_u16 a i = u16 (bit_or (a i) (u16 (a (i + 1) << 8)))

-- The part of `UpdatePeriod` under its test.
abbrev note_period : Stats → ℕ → Stats
note_period s period_us =
    let period = u32 (period_us + 500) / 1000 in
    let average_us =
      if s.average_period_us == 0
      then period_us
      else u32 (u32 (s.average_period_us * 7) + period_us + 4) / 8 in
    record s {
      last_period_us = period_us;
      last_period_ms = period;
      minimum_period_ms =
          if s.minimum_period_ms == 0 || ltb period s.minimum_period_ms
          then period
          else s.minimum_period_ms;
      maximum_period_ms = if ltb s.maximum_period_ms period then period else s.maximum_period_ms;
      average_period_us = average_us;
      average_period_ms =
          if s.average_period_us == 0 then period else u32 (average_us + 500) / 1000;
      period_samples =
          if s.period_samples == 2 ^ 32 - 1 then s.period_samples else s.period_samples + 1;
    }

unfoldable pub update_period : Parser → ℕ → ℕ → Parser
update_period p now_ms now_us = record p {
  stats =
      if p.last_frame_us != 0 then note_period p.stats (sub32 now_us p.last_frame_us) else p.stats;
  last_frame_ms = now_ms;
  last_frame_us = now_us;
}

abbrev keep_possible_header : Parser → ℕ → Parser
keep_possible_header p byte =
    if byte == address
    then record p { buffer = update p.buffer 0 byte; length = 1 }
    else record p { length = 0 }

-- Whether the `n` bytes from index `i` on can be the start of a frame.
abbrev pub starts_header : Array → ℕ → ℕ → Bool
starts_header a i n =
    (n == 0 || a i == address)
    && (ltb n 2 || a (i + 1) == function)
    && (ltb n 3 || a (i + 2) == payload_length)

-- The loop of `ResyncAfterBadFrame` over the starts from `start` on, `n` of them left.
unfoldable pub find_start : Array → ℕ → ℕ → Option ℕ
find_start a start zero = none
find_start a start (suc n) = elim (starts_header a start (suc n)) [
  | true ↦ some start
  | false ↦ find_start a (start + 1) n
]

unfoldable pub resync_after_bad_frame : Parser → Parser
resync_after_bad_frame p = elim (find_start p.buffer 1 (p.length - 1)) [
  | none ↦ record p {
    stats = record p.stats { resync_bytes = u32 (p.stats.resync_bytes + p.length) };
    length = 0;
  }
  | some start ↦ record p {
    buffer = λ j. if ltb j (p.length - start) then p.buffer (start + j) else p.buffer j;
    length = p.length - start;
    stats = record p.stats { resync_bytes = u32 (p.stats.resync_bytes + start) };
  }
]

abbrev record_invalid_frame : Stats → Stats
record_invalid_frame s =
    if s.consecutive_invalid_frames != 255
    then record s { consecutive_invalid_frames = s.consecutive_invalid_frames + 1 }
    else s

abbrev crc16_round : ℕ → ℕ
crc16_round crc = if bit_and crc 1 != 0 then u16 (bit_xor (crc >> 1) 0xA001) else u16 (crc >> 1)

unfoldable pub crc16_rounds : ℕ → ℕ → ℕ
crc16_rounds zero crc = crc
crc16_rounds (suc n) crc = crc16_rounds n (crc16_round crc)

-- The loop of `InfraredLine_ModbusCrc16` over the bytes from index `i` on, `n` of them left.
unfoldable pub crc16_over : ℕ → Array → ℕ → ℕ → ℕ
crc16_over crc a i zero = crc
crc16_over crc a i (suc n) = crc16_over (crc16_rounds 8 (bit_xor crc (a i))) a (i + 1) n

unfoldable pub modbus_crc16 : Array → ℕ → ℕ
modbus_crc16 a n = crc16_over 0xFFFF a 0 n

abbrev no_stats : Stats
no_stats = record {
  bytes_received = 0;
  valid_frames = 0;
  header_errors = 0;
  crc_errors = 0;
  payload_errors = 0;
  resync_bytes = 0;
  last_period_ms = 0;
  average_period_ms = 0;
  minimum_period_ms = 0;
  maximum_period_ms = 0;
  last_period_us = 0;
  average_period_us = 0;
  period_samples = 0;
  consecutive_invalid_frames = 0;
}

abbrev pub init : Parser
init = record {
  buffer = λ i. 0;
  length = 0;
  last_frame_ms = 0;
  last_frame_us = 0;
  sequence = 0;
  stats = no_stats;
}

unfoldable pub clear_stats : Parser → Parser
clear_stats p = record p { stats = no_stats; last_frame_ms = 0; last_frame_us = 0 }

unfoldable pub reset_stream : Parser → Parser
reset_stream p = record p { length = 0 }

abbrev header_error : Parser → Parser
header_error p = record p {
  stats = record p.stats { header_errors = u32 (p.stats.header_errors + 1) };
}

abbrev append : Parser → ℕ → Parser
append p byte = record p { buffer = update p.buffer p.length byte; length = p.length + 1 }

abbrev frame_in : Parser → ℕ → ℕ → Frame
frame_in p now_ms now_us = record {
  offset = read_u16 p.buffer 3;
  all_black = read_u16 p.buffer 5;
  adc_0 = read_u16 p.buffer 7;
  adc_1 = read_u16 p.buffer 9;
  adc_2 = read_u16 p.buffer 11;
  sequence = u32 (p.sequence + 1);
  received_ms = now_ms;
  received_us = now_us;
}

-- A frame that is complete and valid.
unfoldable pub accept_frame : Parser → ℕ → ℕ → Parser × Option Frame
accept_frame p now_ms now_us =
    let counted = record p {
      sequence = u32 (p.sequence + 1);
      stats = record p.stats {
        valid_frames = u32 (p.stats.valid_frames + 1);
        consecutive_invalid_frames = 0;
      };
    } in
    (record (update_period counted now_ms now_us) { length = 0 }, some (frame_in p now_ms now_us))

abbrev payload_is_valid : Array → Bool
payload_is_valid a =
    leb (read_u16 a 5) 1
    && leb (read_u16 a 7) 4095
    && leb (read_u16 a 9) 4095
    && leb (read_u16 a 11) 4095

unfoldable pub complete_frame : Parser → ℕ → ℕ → Parser × Option Frame
complete_frame p now_ms now_us =
    if read_u16 p.buffer 13 != modbus_crc16 p.buffer 13
    then (
      resync_after_bad_frame (record p {
        stats = record_invalid_frame (record p.stats { crc_errors = u32 (p.stats.crc_errors + 1) });
      }),
      none,
    )
    else if not (payload_is_valid p.buffer)
    then (
      resync_after_bad_frame (record p {
        stats =
            record_invalid_frame
              (record p.stats { payload_errors = u32 (p.stats.payload_errors + 1) });
      }),
      none,
    )
    else accept_frame p now_ms now_us

unfoldable pub feed_byte : Parser → ℕ → ℕ → ℕ → Parser × Option Frame
feed_byte p byte now_ms now_us =
    let q = record p {
      stats = record p.stats { bytes_received = u32 (p.stats.bytes_received + 1) };
    } in
    if p.length == 0
    then (
      if byte == address
          then record q { buffer = update p.buffer 0 byte; length = 1 }
          else header_error q,
      none,
    )
    else if p.length == 1 && byte != function || p.length == 2 && byte != payload_length
    then (keep_possible_header (header_error q) byte, none)
    else if ltb (p.length + 1) frame_size
    then (append q byte, none)
    else complete_frame (append q byte) now_ms now_us
