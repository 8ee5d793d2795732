-- ===== src/Controller/MotorClient/Codec.antt =====
-- gugaPI/app/motor_driver_client.h: the values in a register block, low byte first.
use guga_pi.Common.{ℕ, List, get_or, u16, u32, u8, ◌+◌, bit_or, bit_and, ◌*◌, ◌<<◌, ◌∷◌, ◌>>◌, []}

abbrev pub at : List ℕ → ℕ → ℕ
at bytes i = get_or bytes i 0

unfoldable pub decode_uint16_le : List ℕ → ℕ → ℕ
decode_uint16_le bytes i = u16 (bit_or (u16 (at bytes i)) (u16 (at bytes (i + 1)) << 8))

-- The pattern of the int16_t.
abbrev pub decode_int16_le : List ℕ → ℕ → ℕ
decode_int16_le bytes i = decode_uint16_le bytes i

unfoldable pub decode_uint32_le : List ℕ → ℕ → ℕ
decode_uint32_le bytes i = u32 (
    bit_or (bit_or (bit_or (at bytes i) (at bytes (i + 1) << 8)) (at bytes (i + 2) << 16))
      (at bytes (i + 3) << 24))

-- The pattern of the int32_t.
abbrev pub decode_int32_le : List ℕ → ℕ → ℕ
decode_int32_le bytes i = decode_uint32_le bytes i

unfoldable pub encode_uint16_le : ℕ → List ℕ
encode_uint16_le value = u8 (bit_and value 0xFF) ∷ u8 (bit_and (value >> 8) 0xFF) ∷ []

unfoldable pub encode_uint32_le : ℕ → List ℕ
encode_uint32_le value =
    u8 (bit_and value 0xFF)
    ∷ u8 (bit_and (value >> 8) 0xFF)
    ∷ u8 (bit_and (value >> 16) 0xFF)
    ∷ u8 (bit_and (value >> 24) 0xFF)
    ∷ []

-- `EncodeInt32Le` on the pattern.
abbrev pub encode_int32_le : ℕ → List ℕ
encode_int32_le value = encode_uint32_le (u32 value)

pub record DeviceInfo : Type 0 where
  pub device_id : ℕ
  pub firmware_version : ℕ
  pub status : ℕ
  pub fault_flags : ℕ
  pub control_flags : ℕ
  pub i2c_address : ℕ

pub record EncoderData : Type 0 where
  pub count : ℕ
  pub counts_per_second : ℕ
  pub state : ℕ

pub record RpmData : Type 0 where
  pub target_m1 : ℕ
  pub target_m2 : ℕ
  pub actual_m1 : ℕ
  pub actual_m2 : ℕ

pub record CountsPerRev : Type 0 where
  pub m1 : ℕ
  pub m2 : ℕ

pub record InvertConfig : Type 0 where
  pub output_flags : ℕ
  pub encoder_flags : ℕ

pub record SpeedPid : Type 0 where
  pub kp_q4_4 : ℕ
  pub ki_q4_4 : ℕ
  pub kd_q4_4 : ℕ
  pub max_duty : ℕ
  pub min_duty : ℕ

pub record SpeedControlTelemetry : Type 0 where
  pub control_m1 : ℕ
  pub control_m2 : ℕ
  pub error_m1 : ℕ
  pub error_m2 : ℕ
  pub integral_m1_q4 : ℕ
  pub integral_m2_q4 : ℕ
  pub duty_m1 : ℕ
  pub duty_m2 : ℕ

pub record SpeedRamp : Type 0 where
  pub accel_rpm_per_s : ℕ
  pub decel_rpm_per_s : ℕ

pub record PositionPid : Type 0 where
  pub kp_q4_4 : ℕ
  pub ki_q4_4 : ℕ
  pub kd_q4_4 : ℕ
  pub max_rpm : ℕ
  pub tolerance_counts : ℕ

pub record PositionControl : Type 0 where
  pub min_duty : ℕ
  pub max_duty : ℕ
  pub exit_tolerance_counts : ℕ
  pub settle_ms : ℕ

pub record PositionData : Type 0 where
  pub m1_target_count : ℕ
  pub m2_target_count : ℕ
  pub m1_error_count : ℕ
  pub m2_error_count : ℕ
  pub pid : PositionPid
  pub status : ℕ
  pub control : PositionControl

unfoldable pub decode_position_pid : List ℕ → ℕ → PositionPid
decode_position_pid bytes i = record {
  kp_q4_4 = at bytes i;
  ki_q4_4 = at bytes (i + 1);
  kd_q4_4 = at bytes (i + 2);
  max_rpm = decode_uint16_le bytes (i + 3);
  tolerance_counts = decode_uint16_le bytes (i + 5);
}

unfoldable pub decode_position_control : List ℕ → ℕ → PositionControl
decode_position_control bytes i = record {
  min_duty = at bytes i;
  max_duty = at bytes (i + 1);
  exit_tolerance_counts = decode_uint16_le bytes (i + 2);
  settle_ms = u16 (at bytes (i + 4) * 10);
}
