-- ===== src/Controller/MotorClient/Reads.antt =====
-- gugaPI/app/motor_driver_client.h: the reads of the driver's registers.
use guga_pi.Controller.MotorClient.Codec.{
  at, decode_uint16_le, decode_int16_le, decode_uint32_le, decode_int32_le, DeviceInfo, EncoderData,
  RpmData, CountsPerRev, InvertConfig, SpeedPid, SpeedControlTelemetry, SpeedRamp, PositionPid,
  PositionControl, PositionData, decode_position_pid, decode_position_control,
}
use guga_pi.Controller.MotorClient.Link.{Link, Client}
use guga_pi.Controller.Action.{Act, ◌>>=◌, ◌>>◌, done, refuse_if}
use guga_pi.Controller.MotorClient.Registers.{read_registers}
use guga_pi.Controller.DriverStatus.{error, unsupported}
use guga_pi.Common.{ℕ, List, Bool, ltb, u8, length, if◌then◌else◌, bit_and, ◌!=◌}

module _ (l : Link) (fuel : ℕ) (c : Client) where
  -- The read at the head of each function: a response of another length is an error.
  unfoldable pub read_exact : ℕ → ℕ → Act l.World (List ℕ)
  read_exact reg len = do
    frame ← read_registers l fuel c reg len
    refuse_if (length frame.bytes != len) error
    (λ w. (w, done frame.bytes))

  unfoldable pub read_info : Act l.World DeviceInfo
  read_info = do
    b ← read_exact 0x00 6
    (λ w. (
      w,
      done (record {
        device_id = at b 0;
        firmware_version = at b 1;
        status = at b 2;
        fault_flags = at b 3;
        control_flags = at b 4;
        i2c_address = at b 5;
      }),
    ))

  unfoldable pub read_encoder : Bool → Act l.World EncoderData
  read_encoder motor1 = do
    b ← read_exact (if motor1 then 0x14 else 0x24) 9
    (λ w. (
      w,
      done (record {
        count = decode_int32_le b 0;
        counts_per_second = decode_int32_le b 4;
        state = at b 8;
      }),
    ))

  unfoldable pub read_rpm : Act l.World RpmData
  read_rpm = do
    b ← read_exact 0x32 8
    (λ w. (
      w,
      done (record {
        target_m1 = decode_uint16_le b 0;
        target_m2 = decode_uint16_le b 2;
        actual_m1 = decode_int16_le b 4;
        actual_m2 = decode_int16_le b 6;
      }),
    ))

  -- Firmware before version 2 has no telemetry and no ramp.
  abbrev pub require_telemetry : Act l.World (Unit {0})
  require_telemetry = do info ← read_info; refuse_if (ltb info.firmware_version 2) unsupported

  unfoldable pub read_speed_control_telemetry : Act l.World SpeedControlTelemetry
  read_speed_control_telemetry = do
    require_telemetry
    b ← read_exact 0x6D 14
    (λ w. (
      w,
      done (record {
        control_m1 = decode_uint16_le b 0;
        control_m2 = decode_uint16_le b 2;
        error_m1 = decode_int16_le b 4;
        error_m2 = decode_int16_le b 6;
        integral_m1_q4 = decode_int16_le b 8;
        integral_m2_q4 = decode_int16_le b 10;
        duty_m1 = at b 12;
        duty_m2 = at b 13;
      }),
    ))

  unfoldable pub read_speed_ramp : Act l.World SpeedRamp
  read_speed_ramp = do
    require_telemetry
    b ← read_exact 0x7B 4
    (λ w. (
      w,
      done (record {
        accel_rpm_per_s = decode_uint16_le b 0;
        decel_rpm_per_s = decode_uint16_le b 2;
      }),
    ))

  unfoldable pub read_counts_per_rev : Act l.World CountsPerRev
  read_counts_per_rev = do
    b ← read_exact 0x40 8
    (λ w. (w, done (record { m1 = decode_uint32_le b 0; m2 = decode_uint32_le b 4 })))

  unfoldable pub read_invert_config : Act l.World InvertConfig
  read_invert_config = do
    b ← read_exact 0x06 2
    (λ w. (
      w,
      done (record {
        output_flags = u8 (bit_and (at b 0) 3);
        encoder_flags = u8 (bit_and (at b 1) 3);
      }),
    ))

  unfoldable pub read_pid : Act l.World SpeedPid
  read_pid = do
    b ← read_exact 0x3A 5
    (λ w. (
      w,
      done (record {
        kp_q4_4 = at b 0;
        ki_q4_4 = at b 1;
        kd_q4_4 = at b 2;
        max_duty = at b 3;
        min_duty = at b 4;
      }),
    ))

  unfoldable pub read_position : Act l.World PositionData
  read_position = do
    b ← read_exact 0x50 29
    (λ w. (
      w,
      done (record {
        m1_target_count = decode_int32_le b 0;
        m2_target_count = decode_int32_le b 4;
        m1_error_count = decode_int32_le b 8;
        m2_error_count = decode_int32_le b 12;
        pid = decode_position_pid b 16;
        status = at b 23;
        control = decode_position_control b 24;
      }),
    ))

  unfoldable pub read_position_pid : Act l.World PositionPid
  read_position_pid = do b ← read_exact 0x60 7; (λ w. (w, done (decode_position_pid b 0)))

  unfoldable pub read_position_control : Act l.World PositionControl
  read_position_control = do b ← read_exact 0x68 5; (λ w. (w, done (decode_position_control b 0)))
