-- ===== src/Controller/MotorClient/Writes.antt =====
-- gugaPI/app/motor_driver_client.h: the writes of the driver's registers.
use guga_pi.Controller.MotorClient.Link.{Link, Client}
use guga_pi.Controller.Action.{Act, ◌>>=◌, ◌>>◌, refuse_if}
use guga_pi.Controller.MotorClient.Registers.{
  write_registers, write_registers_checked, status_ok_response,
}
use guga_pi.Controller.MotorClient.Codec.{
  SpeedRamp, InvertConfig, encode_uint16_le, encode_uint32_le, encode_int32_le,
}
use guga_pi.Controller.DriverStatus.{error}
use guga_pi.Common.{ℕ, List, ◌∷◌, ◌++◌, u8, Bool, [], bit_and, if◌then◌else◌, not}
use guga_pi.Controller.MotorClient.Reads.{require_telemetry}

module _ (l : Link) (fuel : ℕ) (c : Client) where
  -- A write that is not read back, as the resets and the lease refreshes make it.
  unfoldable pub write_acknowledged : ℕ → List ℕ → Act l.World (Unit {0})
  write_acknowledged reg payload = do
    frame ← write_registers l fuel c reg payload
    refuse_if (not (status_ok_response frame)) error

  unfoldable pub reset_encoders : Act l.World (Unit {0})
  reset_encoders = write_acknowledged 0x31 (3 ∷ [])

  unfoldable pub set_speed_ramp : SpeedRamp → Act l.World (Unit {0})
  set_speed_ramp ramp = do
    require_telemetry l fuel c
    write_registers_checked l fuel c 0x7B
        (encode_uint16_le ramp.accel_rpm_per_s ++ encode_uint16_le ramp.decel_rpm_per_s)

  unfoldable pub set_counts_per_rev : ℕ → ℕ → Act l.World (Unit {0})
  set_counts_per_rev m1_counts_per_rev m2_counts_per_rev =
      write_registers_checked l fuel c 0x40
        (encode_uint32_le m1_counts_per_rev ++ encode_uint32_le m2_counts_per_rev)

  unfoldable pub set_invert_config : InvertConfig → Act l.World (Unit {0})
  set_invert_config config =
      write_registers_checked l fuel c 0x06
        (u8 (bit_and config.output_flags 3) ∷ u8 (bit_and config.encoder_flags 3) ∷ [])

  unfoldable pub set_pid : List ℕ → Act l.World (Unit {0})
  set_pid pid_bytes = write_registers_checked l fuel c 0x3A pid_bytes

  unfoldable pub set_position_pid : List ℕ → Act l.World (Unit {0})
  set_position_pid pid_bytes = write_registers_checked l fuel c 0x60 pid_bytes

  unfoldable pub set_position_control : List ℕ → Act l.World (Unit {0})
  set_position_control control_bytes = write_registers_checked l fuel c 0x68 control_bytes

  -- In these four, `ack` is whether the call is done.
  unfoldable pub write_mode : Bool → List ℕ → Act l.World (Unit {0})
  write_mode motor1 payload =
      write_registers_checked l fuel c (if motor1 then 0x10 else 0x20) payload

  unfoldable pub write_target_rpm : Bool → ℕ → Act l.World (Unit {0})
  write_target_rpm motor1 rpm =
      write_registers_checked l fuel c (if motor1 then 0x32 else 0x34) (encode_uint16_le rpm)

  unfoldable pub write_target_rpm_pair : ℕ → ℕ → Act l.World (Unit {0})
  write_target_rpm_pair m1_rpm m2_rpm =
      write_registers_checked l fuel c 0x32 (encode_uint16_le m1_rpm ++ encode_uint16_le m2_rpm)

  unfoldable pub write_target_position : Bool → ℕ → Act l.World (Unit {0})
  write_target_position motor1 target_count =
      write_registers_checked l fuel c (if motor1 then 0x50 else 0x54)
        (encode_int32_le target_count)

  unfoldable pub refresh_target_rpm_lease : Bool → ℕ → Act l.World (Unit {0})
  refresh_target_rpm_lease motor1 rpm =
      write_acknowledged (if motor1 then 0x32 else 0x34) (encode_uint16_le rpm)

  unfoldable pub refresh_target_rpm_lease_pair : ℕ → ℕ → Act l.World (Unit {0})
  refresh_target_rpm_lease_pair m1_rpm m2_rpm =
      write_acknowledged 0x32 (encode_uint16_le m1_rpm ++ encode_uint16_le m2_rpm)

  unfoldable pub refresh_target_position_lease : Bool → ℕ → Act l.World (Unit {0})
  refresh_target_position_lease motor1 target_count =
      write_acknowledged (if motor1 then 0x50 else 0x54) (encode_int32_le target_count)
