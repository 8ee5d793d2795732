-- ===== src/MotorDriver/Serial.antt =====
-- MotorDriver/protocol/serial_protocol.cpp: the frame parser of the UART link. The pointers that
-- `ProcessByte` takes and `registers_` are not null, as everywhere in MotorDriver/app/motor_app.cpp.
pub mod Invariant
pub mod Frames
pub mod Requests
pub mod Commands
use guga_pi.Common.{
  ℕ, zero, suc, ◌+◌, ◌*◌, Bool, true, false, ◌&&◌, Option, none, some, List, [], ◌∷◌, ◌++◌, Array,
  update, length, u8, ◌<<◌, ltb, leb, ◌==◌, ◌!=◌, bit_and, bit_or, bit_xor, if◌then◌else◌,
}
use guga_pi.MotorDriver.Flag
use guga_pi.MotorDriver.RegisterMap.State.{RegisterMap}
use guga_pi.MotorDriver.RegisterMap.Write.{read_block, commit_write}

pub data ParserState : Type 0 where
  wait_sof command register length_byte payload crc_byte : ParserState

-- The private fields but `registers_`; `data_` is `bytes`.
pub record Parser : Type 0 where
  pub state : ParserState
  pub crc : ℕ
  pub cmd : ℕ
  pub reg : ℕ
  pub len : ℕ
  pub data_index : ℕ
  pub bytes : Array

-- What a call leaves behind: the object, the register map, `response->bytes[0 .. length)`, the two
-- flags, and the value returned.
pub record Outcome : Type 0 where
  pub parser : Parser
  pub registers : RegisterMap
  pub response : List ℕ
  pub write_committed : Bool
  pub keepalive_received : Bool
  pub ready : Bool

-- One round of the loop of `Crc8Update`.
abbrev pub crc8_round : ℕ → ℕ
crc8_round crc = if bit_and crc 0x80 != 0 then u8 (bit_xor (crc << 1) 0x07) else u8 (crc << 1)

unfoldable pub crc8_rounds : ℕ → ℕ → ℕ
crc8_rounds zero crc = crc
crc8_rounds (suc n) crc = crc8_rounds n (crc8_round crc)

unfoldable pub crc8_update : ℕ → ℕ → ℕ
crc8_update crc value = crc8_rounds 8 (u8 (bit_xor crc value))

-- The loops over a buffer in `BuildResponse` and `SerialCrc8`.
unfoldable pub crc8_over : ℕ → List ℕ → ℕ
crc8_over crc [] = crc
crc8_over crc (x ∷ xs) = crc8_over (crc8_update crc x) xs

unfoldable pub serial_crc8 : List ℕ → ℕ
serial_crc8 bytes = crc8_over 0 bytes

unfoldable pub reset_parser : Parser → Parser
reset_parser p = record p { state = wait_sof; crc = 0; cmd = 0; reg = 0; len = 0; data_index = 0 }

unfoldable pub build_response : ℕ → ℕ → List ℕ → List ℕ
build_response request_cmd reg bytes =
    let header =
      Flag.serial_sof
      ∷ u8 (bit_or request_cmd Flag.serial_response_flag)
      ∷ reg
      ∷ length bytes
      ∷ [] in
    header ++ (bytes ++ (crc8_over (crc8_over 0 header) bytes ∷ []))

unfoldable pub build_status_response : ℕ → ℕ → ℕ → List ℕ
build_status_response request_cmd reg status = build_response request_cmd reg (status ∷ [])

-- The result of `HandleFrame`, which returns true.
abbrev handled : Parser → RegisterMap → List ℕ → Bool → Bool → Outcome
handled p registers response write_committed keepalive_received = record {
  parser = p;
  registers = registers;
  response = response;
  write_committed = write_committed;
  keepalive_received = keepalive_received;
  ready = true;
}

abbrev pub answer_read : Parser → RegisterMap → Outcome
answer_read p s =
    let error = build_status_response p.cmd p.reg Flag.serial_status_error in
    if ltb 0 p.len
    then (elim (read_block s p.reg p.len) [
      | none ↦ handled p s error false false
      | some bytes ↦ handled p s (build_response p.cmd p.reg bytes) false false
    ])
    else handled p s error false false

abbrev pub write_answer : Parser → RegisterMap × Option Bool → Outcome
write_answer p (s, none) =
    handled p s (build_status_response p.cmd p.reg Flag.serial_status_error) false false
write_answer p (s, some changed) =
    handled p s (build_status_response p.cmd p.reg Flag.serial_status_ok) true false

abbrev pub answer_write : Parser → RegisterMap → Outcome
answer_write p s =
    if ltb 0 p.len
    then write_answer p (commit_write s p.reg p.bytes p.len)
    else write_answer p (s, none)

unfoldable pub handle_frame : Parser → RegisterMap → Outcome
handle_frame p s =
    if p.cmd == Flag.serial_cmd_heartbeat
    then (if p.len == 0
        then handled p s (build_status_response p.cmd p.reg Flag.serial_status_ok) false true
        else handled p s (build_status_response p.cmd p.reg Flag.serial_status_error) false false)
    else if p.cmd == Flag.serial_cmd_read
    then answer_read p s
    else if p.cmd == Flag.serial_cmd_write
    then answer_write p s
    else handled p s (build_status_response p.cmd p.reg Flag.serial_status_error) false false

-- A byte that completes nothing.
abbrev pub quiet : Parser → RegisterMap → Outcome
quiet p s = record {
  parser = p;
  registers = s;
  response = [];
  write_committed = false;
  keepalive_received = false;
  ready = false;
}

abbrev pub take_length : Parser → RegisterMap → ℕ → Outcome
take_length p s value =
    let p1 = record p { len = value; data_index = 0; crc = crc8_update p.crc value } in
    if ltb Flag.max_payload_length value
    then handled (reset_parser p1) s (build_status_response p.cmd p.reg Flag.serial_status_error)
        false false
    else if p.cmd == Flag.serial_cmd_write && ltb 0 value
    then quiet (record p1 { state = payload }) s
    else quiet (record p1 { state = crc_byte }) s

abbrev pub take_data : Parser → RegisterMap → ℕ → Outcome
take_data p s value =
    let p1 = record p {
      bytes = update p.bytes p.data_index value;
      data_index = u8 (p.data_index + 1);
      crc = crc8_update p.crc value;
    } in
    quiet (if leb p.len p1.data_index then record p1 { state = crc_byte } else p1) s

abbrev pub take_crc : Parser → RegisterMap → ℕ → Outcome
take_crc p s value =
    if p.crc != value
    then quiet (reset_parser p) s
    else (let o = handle_frame p s in record o { parser = reset_parser p })

-- The `switch` of `ProcessByte`.
abbrev pub dispatch : ParserState → Parser → RegisterMap → ℕ → Outcome
dispatch wait_sof p s value =
    quiet
      (if value == Flag.serial_sof
        then record p { crc = crc8_update 0 value; state = command }
        else p)
      s
dispatch command p s value =
    quiet (record p { cmd = value; crc = crc8_update p.crc value; state = register }) s
dispatch register p s value =
    quiet (record p { reg = value; crc = crc8_update p.crc value; state = length_byte }) s
dispatch length_byte p s value = take_length p s value
dispatch payload p s value = take_data p s value
dispatch crc_byte p s value = take_crc p s value

unfoldable pub process_byte : Parser → RegisterMap → ℕ → Outcome
unfolding reset_parser
process_byte p s value = dispatch p.state p s value

-- `Init`, for a parser object with anything in it.
unfoldable pub init : Parser → Parser
unfolding reset_parser
init p = reset_parser p
