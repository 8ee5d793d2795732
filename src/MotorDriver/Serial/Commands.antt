-- ===== src/MotorDriver/Serial/Commands.antt =====
-- MotorDriver/protocol/: a target position on its way from the wire to the control loop.
use guga_pi.MotorDriver.Reg
use guga_pi.MotorDriver.Flag
use guga_pi.MotorDriver.RegisterMap.State.{RegisterMap, m1_target_position}
use guga_pi.MotorDriver.RegisterMap.Stores.{commit_write-stores}
use guga_pi.MotorDriver.RegisterMap.Words.{load_uint32-bytes}
use guga_pi.MotorDriver.Serial.Requests.{write_frame_lem, frame, frame_crc}
use guga_pi.MotorDriver.Serial.Frames.{feed}
use guga_pi.Common.{
  array_of, ℕ, Array, List, ◌<◌, ◌%◌, ◌+◌, ◌≡◌, ◌∷◌, ap, ◌/◌, Option, ◌^◌, [], Bool, some, arith,
  true, ◌∙◌, refl,
}
use guga_pi.MotorDriver.RegisterMap.Write.{
  commit_write, apply_from, apply_write_to, is_control_register, is_plain_register,
}
use guga_pi.MotorDriver.Serial.{Parser, wait_sof}

abbrev position_bytes : ℕ → List ℕ
position_bytes target =
    (target % 256) ∷ (target / 256 % 256) ∷ (target / 65536 % 256) ∷ (target / 16777216) ∷ []

-- The four registers take any bytes.
position_write_accepted :
    (s : RegisterMap) (bytes : Array)
    → (commit_write s Reg.m1_target_position_0 bytes 4).1 ≡ some true
unfolding commit_write apply_from apply_write_to is_control_register is_plain_register
position_write_accepted s bytes = refl

position_write_stored :
    (s : RegisterMap) (bytes : Array) (i : ℕ)
    → i < 4
    → (commit_write s Reg.m1_target_position_0 bytes 4).0.registers (Reg.m1_target_position_0 + i)
      ≡ bytes i
position_write_stored s bytes i lt =
    let r = Reg.m1_target_position_0 + i in
    let c = commit_write s Reg.m1_target_position_0 bytes 4 in
    commit_write-stores s Reg.m1_target_position_0 bytes 4 r
      (ap (λ (o : Option Bool). (c.0, o)) (position_write_accepted s bytes)) (ground arith)
    ∙ ground arith

-- A write frame with the four bytes of a 32-bit target position, lowest first, makes that position
-- the target of motor 1, whatever the registers were; the parser waits again.
pub position_frame_lem :
    (p : Parser) (s : RegisterMap) (target : ℕ)
    → p.state ≡ wait_sof
    → target < 2 ^ 32
    → let bytes = position_bytes target in
      let after = feed p s (
        frame Flag.serial_cmd_write Reg.m1_target_position_0 4 bytes
          (frame_crc Flag.serial_cmd_write Reg.m1_target_position_0 4 bytes)) in
      (after.0.state ≡ wait_sof) × (m1_target_position after.1 ≡ target)
position_frame_lem p s target waits fits =
    let bytes = array_of (position_bytes target) in
    let c = commit_write s Reg.m1_target_position_0 bytes 4 in
    let (idle, same, answered) =
      write_frame_lem p s Reg.m1_target_position_0 (target % 256)
        ((target / 256 % 256) ∷ (target / 65536 % 256) ∷ (target / 16777216) ∷ []) waits
        (omega arith) in
    let b0 = position_write_stored s bytes 0 (omega arith) in
    let b1 = position_write_stored s bytes 1 (omega arith) in
    let b2 = position_write_stored s bytes 2 (omega arith) in
    let b3 = position_write_stored s bytes 3 (omega arith) in
    let t = c.0.registers in
    (
      idle,
      ap m1_target_position same
          ∙ load_uint32-bytes t Reg.m1_target_position_0 (omega arith) (omega (arith, b0))
              (omega (arith, b1)) (omega (arith, b2)) (omega (arith, b3))
          ∙ omega (arith, b0, b1, b2, b3),
    )
