-- ===== src/MotorDriver/RegisterMap/State.antt =====
-- MotorDriver/protocol/register_map.cpp: the object, its loads and stores, and the getters.
use guga_pi.Common.{
  ℕ, ◌+◌, ◌*◌, Bool, Array, update, u8, u16, u32, ◌<<◌, ◌>>◌, ◌!=◌, bit_and, bit_or, if◌then◌else◌,
}
use guga_pi.MotorDriver.Reg
use guga_pi.MotorDriver.Flag

-- `registers_[kRegisterCount]` and `timeout_active_`.
pub record RegisterMap : Type 0 where
  pub registers : Array
  pub timeout_active : Bool

-- registers_[reg] = value
abbrev pub put : RegisterMap → ℕ → ℕ → RegisterMap
put s reg value = record s { registers = update s.registers reg value }

unfoldable pub load_uint16 : Array → ℕ → ℕ
load_uint16 t reg = u16 (bit_or (t reg) (t (u8 (reg + 1)) << 8))

unfoldable pub load_uint32 : Array → ℕ → ℕ
load_uint32 t reg = u32 (
    bit_or (bit_or (bit_or (t reg) (t (u8 (reg + 1)) << 8)) (t (u8 (reg + 2)) << 16))
      (t (u8 (reg + 3)) << 24))

-- The pattern of the int32_t.
abbrev pub load_int32 : Array → ℕ → ℕ
load_int32 t reg = load_uint32 t reg

unfoldable pub store_uint16 : RegisterMap → ℕ → ℕ → RegisterMap
store_uint16 s reg value =
    put (put s reg (bit_and value 0xff)) (u8 (reg + 1)) (bit_and (value >> 8) 0xff)

-- `value` is the pattern of the int16_t.
unfoldable pub store_int16 : RegisterMap → ℕ → ℕ → RegisterMap
store_int16 s reg value =
    let encoded = u16 value in
    put (put s reg (bit_and encoded 0xff)) (u8 (reg + 1)) (bit_and (encoded >> 8) 0xff)

-- `value` is the pattern of the int32_t.
unfoldable pub store_int32 : RegisterMap → ℕ → ℕ → RegisterMap
store_int32 s reg value =
    let encoded = u32 value in
    let s1 = put s reg (bit_and encoded 0xff) in
    let s2 = put s1 (u8 (reg + 1)) (bit_and (encoded >> 8) 0xff) in
    let s3 = put s2 (u8 (reg + 2)) (bit_and (encoded >> 16) 0xff) in
    put s3 (u8 (reg + 3)) (bit_and (encoded >> 24) 0xff)

unfoldable pub is_enabled : RegisterMap → Bool
is_enabled s = bit_and (s.registers Reg.control_flags) Flag.control_enable != 0

unfoldable pub encoder_control : RegisterMap → ℕ
encoder_control s = s.registers Reg.encoder_control

unfoldable pub watchdog_timeout_10ms : RegisterMap → ℕ
watchdog_timeout_10ms s = s.registers Reg.watchdog_timeout

abbrev pub m1_target_rpm : RegisterMap → ℕ
m1_target_rpm s = load_uint16 s.registers Reg.m1_target_rpm_0

abbrev pub m2_target_rpm : RegisterMap → ℕ
m2_target_rpm s = load_uint16 s.registers Reg.m2_target_rpm_0

abbrev pub speed_kp_q4_4 : RegisterMap → ℕ
speed_kp_q4_4 s = s.registers Reg.speed_kp_q4_4

abbrev pub speed_ki_q4_4 : RegisterMap → ℕ
speed_ki_q4_4 s = s.registers Reg.speed_ki_q4_4

abbrev pub speed_kd_q4_4 : RegisterMap → ℕ
speed_kd_q4_4 s = s.registers Reg.speed_kd_q4_4

abbrev pub speed_max_duty : RegisterMap → ℕ
speed_max_duty s = s.registers Reg.speed_max_duty

abbrev pub speed_min_duty : RegisterMap → ℕ
speed_min_duty s = s.registers Reg.speed_min_duty

abbrev pub speed_accel_rpm_per_second : RegisterMap → ℕ
speed_accel_rpm_per_second s = load_uint16 s.registers Reg.speed_accel_rpm_per_s_0

abbrev pub speed_decel_rpm_per_second : RegisterMap → ℕ
speed_decel_rpm_per_second s = load_uint16 s.registers Reg.speed_decel_rpm_per_s_0

abbrev pub m1_counts_per_rev : RegisterMap → ℕ
m1_counts_per_rev s = load_uint32 s.registers Reg.m1_counts_per_rev_0

abbrev pub m2_counts_per_rev : RegisterMap → ℕ
m2_counts_per_rev s = load_uint32 s.registers Reg.m2_counts_per_rev_0

abbrev pub m1_target_position : RegisterMap → ℕ
m1_target_position s = load_int32 s.registers Reg.m1_target_position_0

abbrev pub m2_target_position : RegisterMap → ℕ
m2_target_position s = load_int32 s.registers Reg.m2_target_position_0

abbrev pub position_kp_q4_4 : RegisterMap → ℕ
position_kp_q4_4 s = s.registers Reg.position_kp_q4_4

abbrev pub position_ki_q4_4 : RegisterMap → ℕ
position_ki_q4_4 s = s.registers Reg.position_ki_q4_4

abbrev pub position_kd_q4_4 : RegisterMap → ℕ
position_kd_q4_4 s = s.registers Reg.position_kd_q4_4

abbrev pub position_max_rpm : RegisterMap → ℕ
position_max_rpm s = load_uint16 s.registers Reg.position_max_rpm_0

abbrev pub position_tolerance : RegisterMap → ℕ
position_tolerance s = load_uint16 s.registers Reg.position_tolerance_0

abbrev pub position_min_duty : RegisterMap → ℕ
position_min_duty s = s.registers Reg.position_min_duty

abbrev pub position_max_duty : RegisterMap → ℕ
position_max_duty s = s.registers Reg.position_max_duty

abbrev pub position_exit_tolerance : RegisterMap → ℕ
position_exit_tolerance s = load_uint16 s.registers Reg.position_exit_tolerance_0

abbrev pub position_settle_ms : RegisterMap → ℕ
position_settle_ms s = u16 (s.registers Reg.position_settle_10ms * 10)

abbrev pub motor_output_inverted : RegisterMap → Bool → Bool
motor_output_inverted s motor1 =
    let mask = if motor1 then Flag.invert_m1 else Flag.invert_m2 in
    bit_and (s.registers Reg.output_invert_flags) mask != 0

abbrev pub encoder_inverted : RegisterMap → Bool → Bool
encoder_inverted s motor1 =
    let mask = if motor1 then Flag.invert_m1 else Flag.invert_m2 in
    bit_and (s.registers Reg.encoder_invert_flags) mask != 0
