-- ===== src/MotorDriver/Flag.antt =====
-- MotorDriver/protocol/motor_registers.h: the constants and the values of the small enumerations
-- (`MOTOR_MODE_RUN` is `Flag.motor_mode_run`).
use Prim.Native.Nat.{ℕ}

abbrev pub device_id : ℕ
device_id = 0xA5

abbrev pub firmware_version : ℕ
firmware_version = 0x03

abbrev pub register_count : ℕ
register_count = 0x7F

abbrev pub max_payload_length : ℕ
max_payload_length = 32

abbrev pub default_i2c_address : ℕ
default_i2c_address = 0x20

abbrev pub serial_sof : ℕ
serial_sof = 0xAA

abbrev pub serial_cmd_read : ℕ
serial_cmd_read = 0x01

abbrev pub serial_cmd_write : ℕ
serial_cmd_write = 0x02

abbrev pub serial_cmd_heartbeat : ℕ
serial_cmd_heartbeat = 0x03

abbrev pub serial_response_flag : ℕ
serial_response_flag = 0x80

abbrev pub serial_status_ok : ℕ
serial_status_ok = 0x00

abbrev pub serial_status_error : ℕ
serial_status_error = 0x01

abbrev pub motor_mode_coast : ℕ
motor_mode_coast = 0

abbrev pub motor_mode_run : ℕ
motor_mode_run = 1

abbrev pub motor_mode_brake : ℕ
motor_mode_brake = 2

abbrev pub motor_mode_speed : ℕ
motor_mode_speed = 3

abbrev pub motor_mode_position : ℕ
motor_mode_position = 4

abbrev pub motor_direction_forward : ℕ
motor_direction_forward = 0

abbrev pub motor_direction_reverse : ℕ
motor_direction_reverse = 1

abbrev pub status_ready : ℕ
status_ready = 0x01

abbrev pub status_enabled : ℕ
status_enabled = 0x02

abbrev pub status_active : ℕ
status_active = 0x04

abbrev pub status_timeout : ℕ
status_timeout = 0x08

abbrev pub fault_watchdog_timeout : ℕ
fault_watchdog_timeout = 0x01

abbrev pub control_enable : ℕ
control_enable = 0x01

abbrev pub invert_m1 : ℕ
invert_m1 = 0x01

abbrev pub invert_m2 : ℕ
invert_m2 = 0x02

abbrev pub motor_status_active : ℕ
motor_status_active = 0x01

abbrev pub motor_status_reverse : ℕ
motor_status_reverse = 0x02

abbrev pub motor_status_at_target : ℕ
motor_status_at_target = 0x04

abbrev pub position_status_m1_at_target : ℕ
position_status_m1_at_target = 0x01

abbrev pub position_status_m2_at_target : ℕ
position_status_m2_at_target = 0x02

abbrev pub encoder_control_reset_m1 : ℕ
encoder_control_reset_m1 = 0x01

abbrev pub encoder_control_reset_m2 : ℕ
encoder_control_reset_m2 = 0x02

abbrev pub invert_valid_mask : ℕ
invert_valid_mask = 3
