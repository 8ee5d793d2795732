-- ===== src/MotorDriver/Serial/Invariant.antt =====
-- MotorDriver/protocol/serial_protocol.cpp: no byte makes the parser leave its buffers.
use guga_pi.Common.{
  ℕ, ◌+◌, ◌≤◌, ◌<◌, ◌≡◌, arith, length, List, suc, length-append, ◌∷◌, ap, [], zero, refl, Option,
  Bool, some, none,
}
use guga_pi.MotorDriver.Flag
use guga_pi.MotorDriver.RegisterMap.State.{RegisterMap}
use guga_pi.MotorDriver.Serial.{
  Parser, payload, crc_byte, process_byte, build_response, handle_frame, build_status_response,
  write_answer,
}
use guga_pi.MotorDriver.RegisterMap.Write.{read_from, read_block, commit_write}
use guga_pi.MotorDriver.RegisterMap.Safety.{commit_write_timeout}

-- `data_` has room for the rest of the payload, and a complete one has the announced length.
pub record IsValid (p : Parser) : Type 0 where
  pub index_in : p.state ≡ payload → p.data_index < p.len
  pub payload_fits : p.state ≡ payload → p.len ≤ Flag.max_payload_length
  pub length_fits : p.state ≡ crc_byte → p.len ≤ Flag.max_payload_length

abbrev pub max_frame_length : ℕ
max_frame_length = 4 + Flag.max_payload_length + 1

-- Every byte keeps the index into `data_` and the announced length in range.
pub process_byte-IsValid :
    (p : Parser) (s : RegisterMap) (value : ℕ) → IsValid p → IsValid (process_byte p s value).parser
unfolding process_byte
process_byte-IsValid p s value v = ground arith

-- The parser writes `data_` below its 32 bytes only: whatever lies behind the array is unchanged.
pub process_byte_in_bounds :
    (p : Parser) (s : RegisterMap) (value j : ℕ)
    → IsValid p
    → Flag.max_payload_length ≤ j
    → (process_byte p s value).parser.bytes j ≡ p.bytes j
unfolding process_byte
process_byte_in_bounds p s value j v h = ground arith

pub length-read_from :
    (s : RegisterMap) (start_reg index n : ℕ) → length (read_from s start_reg index n) ≡ n
unfolding read_from
length-read_from s start_reg index zero = refl
length-read_from s start_reg index (suc n) = ap suc (length-read_from s start_reg (index + 1) n)

length-build_response :
    (cmd reg : ℕ) (bytes : List ℕ) → length (build_response cmd reg bytes) ≡ length bytes + 5
unfolding build_response
length-build_response cmd reg bytes = omega (arith, length-append {0} bytes)

handle_frame_fits :
    (p : Parser) (s : RegisterMap)
    → p.len ≤ Flag.max_payload_length
    → length (handle_frame p s).response ≤ max_frame_length
unfolding handle_frame build_status_response read_block
handle_frame_fits p s h = ground (
  arith,
  length-build_response p.cmd p.reg (Flag.serial_status_ok ∷ []),
  length-build_response p.cmd p.reg (Flag.serial_status_error ∷ []),
  length-build_response p.cmd p.reg (read_from s p.reg 0 p.len),
  length-read_from s p.reg 0 p.len,
)

-- A response never leaves `SerialResponse::bytes`: it has at most 37 bytes, whatever is received.
pub process_byte_response_fits :
    (p : Parser) (s : RegisterMap) (value : ℕ)
    → IsValid p
    → length (process_byte p s value).response ≤ max_frame_length
unfolding process_byte build_status_response
process_byte_response_fits p s value v = ground (
  arith,
  handle_frame_fits p s,
  length-build_response p.cmd p.reg (Flag.serial_status_error ∷ []),
)

write_answer_timeout :
    (p : Parser) (s : RegisterMap) (c : RegisterMap × Option Bool)
    → c.0.timeout_active ≡ s.timeout_active
    → (write_answer p c).registers.timeout_active ≡ s.timeout_active
write_answer_timeout p s (s', none) e = e
write_answer_timeout p s (s', some changed) e = e

handle_frame_timeout :
    (p : Parser) (s : RegisterMap) → (handle_frame p s).registers.timeout_active ≡ s.timeout_active
unfolding handle_frame
handle_frame_timeout p s = ground (
  arith,
  write_answer_timeout p s (commit_write s p.reg p.bytes p.len)
      (commit_write_timeout s p.reg p.bytes p.len),
)

-- No byte touches the timeout flag.
pub process_byte_timeout :
    (p : Parser) (s : RegisterMap) (value : ℕ)
    → (process_byte p s value).registers.timeout_active ≡ s.timeout_active
unfolding process_byte
process_byte_timeout p s value = ground (arith, handle_frame_timeout p s)
