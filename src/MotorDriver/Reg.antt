-- ===== src/MotorDriver/Reg.antt =====
-- MotorDriver/protocol/motor_registers.h: the register addresses (`REG_M1_MODE` is `Reg.m1_mode`).
use Prim.Native.Nat.{ℕ}

abbrev pub device_id : ℕ
device_id = 0x00

abbrev pub fw_version : ℕ
fw_version = 0x01

abbrev pub status : ℕ
status = 0x02

abbrev pub fault_flags : ℕ
fault_flags = 0x03

abbrev pub control_flags : ℕ
control_flags = 0x04

abbrev pub i2c_address : ℕ
i2c_address = 0x05

abbrev pub output_invert_flags : ℕ
output_invert_flags = 0x06

abbrev pub encoder_invert_flags : ℕ
encoder_invert_flags = 0x07

abbrev pub m1_mode : ℕ
m1_mode = 0x10

abbrev pub m1_duty : ℕ
m1_duty = 0x11

abbrev pub m1_direction : ℕ
m1_direction = 0x12

abbrev pub m1_status : ℕ
m1_status = 0x13

abbrev pub m1_encoder_count_0 : ℕ
m1_encoder_count_0 = 0x14

abbrev pub m1_encoder_cps_0 : ℕ
m1_encoder_cps_0 = 0x18

abbrev pub m1_encoder_state : ℕ
m1_encoder_state = 0x1C

abbrev pub m2_mode : ℕ
m2_mode = 0x20

abbrev pub m2_duty : ℕ
m2_duty = 0x21

abbrev pub m2_direction : ℕ
m2_direction = 0x22

abbrev pub m2_status : ℕ
m2_status = 0x23

abbrev pub m2_encoder_count_0 : ℕ
m2_encoder_count_0 = 0x24

abbrev pub m2_encoder_cps_0 : ℕ
m2_encoder_cps_0 = 0x28

abbrev pub m2_encoder_state : ℕ
m2_encoder_state = 0x2C

abbrev pub watchdog_timeout : ℕ
watchdog_timeout = 0x30

abbrev pub encoder_control : ℕ
encoder_control = 0x31

abbrev pub m1_target_rpm_0 : ℕ
m1_target_rpm_0 = 0x32

abbrev pub m1_target_rpm_1 : ℕ
m1_target_rpm_1 = 0x33

abbrev pub m2_target_rpm_0 : ℕ
m2_target_rpm_0 = 0x34

abbrev pub m2_target_rpm_1 : ℕ
m2_target_rpm_1 = 0x35

abbrev pub m1_measured_rpm_0 : ℕ
m1_measured_rpm_0 = 0x36

abbrev pub m2_measured_rpm_0 : ℕ
m2_measured_rpm_0 = 0x38

abbrev pub speed_kp_q4_4 : ℕ
speed_kp_q4_4 = 0x3A

abbrev pub speed_ki_q4_4 : ℕ
speed_ki_q4_4 = 0x3B

abbrev pub speed_kd_q4_4 : ℕ
speed_kd_q4_4 = 0x3C

abbrev pub speed_max_duty : ℕ
speed_max_duty = 0x3D

abbrev pub speed_min_duty : ℕ
speed_min_duty = 0x3E

abbrev pub m1_counts_per_rev_0 : ℕ
m1_counts_per_rev_0 = 0x40

abbrev pub m1_counts_per_rev_1 : ℕ
m1_counts_per_rev_1 = 0x41

abbrev pub m1_counts_per_rev_2 : ℕ
m1_counts_per_rev_2 = 0x42

abbrev pub m1_counts_per_rev_3 : ℕ
m1_counts_per_rev_3 = 0x43

abbrev pub m2_counts_per_rev_0 : ℕ
m2_counts_per_rev_0 = 0x44

abbrev pub m2_counts_per_rev_1 : ℕ
m2_counts_per_rev_1 = 0x45

abbrev pub m2_counts_per_rev_2 : ℕ
m2_counts_per_rev_2 = 0x46

abbrev pub m2_counts_per_rev_3 : ℕ
m2_counts_per_rev_3 = 0x47

abbrev pub m1_hold_count_0 : ℕ
m1_hold_count_0 = 0x48

abbrev pub m2_hold_count_0 : ℕ
m2_hold_count_0 = 0x4C

abbrev pub m1_target_position_0 : ℕ
m1_target_position_0 = 0x50

abbrev pub m1_target_position_1 : ℕ
m1_target_position_1 = 0x51

abbrev pub m1_target_position_2 : ℕ
m1_target_position_2 = 0x52

abbrev pub m1_target_position_3 : ℕ
m1_target_position_3 = 0x53

abbrev pub m2_target_position_0 : ℕ
m2_target_position_0 = 0x54

abbrev pub m2_target_position_1 : ℕ
m2_target_position_1 = 0x55

abbrev pub m2_target_position_2 : ℕ
m2_target_position_2 = 0x56

abbrev pub m2_target_position_3 : ℕ
m2_target_position_3 = 0x57

abbrev pub m1_position_error_0 : ℕ
m1_position_error_0 = 0x58

abbrev pub m2_position_error_0 : ℕ
m2_position_error_0 = 0x5C

abbrev pub position_kp_q4_4 : ℕ
position_kp_q4_4 = 0x60

abbrev pub position_ki_q4_4 : ℕ
position_ki_q4_4 = 0x61

abbrev pub position_kd_q4_4 : ℕ
position_kd_q4_4 = 0x62

abbrev pub position_max_rpm_0 : ℕ
position_max_rpm_0 = 0x63

abbrev pub position_max_rpm_1 : ℕ
position_max_rpm_1 = 0x64

abbrev pub position_tolerance_0 : ℕ
position_tolerance_0 = 0x65

abbrev pub position_tolerance_1 : ℕ
position_tolerance_1 = 0x66

abbrev pub position_status : ℕ
position_status = 0x67

abbrev pub position_min_duty : ℕ
position_min_duty = 0x68

abbrev pub position_max_duty : ℕ
position_max_duty = 0x69

abbrev pub position_exit_tolerance_0 : ℕ
position_exit_tolerance_0 = 0x6A

abbrev pub position_exit_tolerance_1 : ℕ
position_exit_tolerance_1 = 0x6B

abbrev pub position_settle_10ms : ℕ
position_settle_10ms = 0x6C

abbrev pub m1_control_rpm_0 : ℕ
m1_control_rpm_0 = 0x6D

abbrev pub m2_control_rpm_0 : ℕ
m2_control_rpm_0 = 0x6F

abbrev pub m1_speed_error_0 : ℕ
m1_speed_error_0 = 0x71

abbrev pub m2_speed_error_0 : ℕ
m2_speed_error_0 = 0x73

abbrev pub m1_speed_integral_0 : ℕ
m1_speed_integral_0 = 0x75

abbrev pub m2_speed_integral_0 : ℕ
m2_speed_integral_0 = 0x77

abbrev pub m1_control_duty : ℕ
m1_control_duty = 0x79

abbrev pub m2_control_duty : ℕ
m2_control_duty = 0x7A

abbrev pub speed_accel_rpm_per_s_0 : ℕ
speed_accel_rpm_per_s_0 = 0x7B

abbrev pub speed_accel_rpm_per_s_1 : ℕ
speed_accel_rpm_per_s_1 = 0x7C

abbrev pub speed_decel_rpm_per_s_0 : ℕ
speed_decel_rpm_per_s_0 = 0x7D

abbrev pub speed_decel_rpm_per_s_1 : ℕ
speed_decel_rpm_per_s_1 = 0x7E
