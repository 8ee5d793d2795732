-- ===== src/Controller/ConfigStore/Field.antt =====
-- gugaPI/app/config_store.h: the fields of `ConfigStoreParams`, numbered in their order; the two
-- arrays of eight take eight numbers each, from that of their first element on.
use Prim.Native.Nat.{ℕ}

abbrev pub left_counts_per_rev : ℕ
left_counts_per_rev = 0

abbrev pub right_counts_per_rev : ℕ
right_counts_per_rev = 1

abbrev pub wheel_radius_um : ℕ
wheel_radius_um = 2

abbrev pub wheel_radius_mm : ℕ
wheel_radius_mm = 3

abbrev pub wheel_track_mm : ℕ
wheel_track_mm = 4

abbrev pub max_wheel_rpm : ℕ
max_wheel_rpm = 5

abbrev pub motor_output_invert_flags : ℕ
motor_output_invert_flags = 6

abbrev pub motor_encoder_invert_flags : ℕ
motor_encoder_invert_flags = 7

abbrev pub speed_kp_q4_4 : ℕ
speed_kp_q4_4 = 8

abbrev pub speed_ki_q4_4 : ℕ
speed_ki_q4_4 = 9

abbrev pub speed_kd_q4_4 : ℕ
speed_kd_q4_4 = 10

abbrev pub speed_max_duty : ℕ
speed_max_duty = 11

abbrev pub speed_min_duty : ℕ
speed_min_duty = 12

abbrev pub speed_accel_rpm_s : ℕ
speed_accel_rpm_s = 13

abbrev pub speed_decel_rpm_s : ℕ
speed_decel_rpm_s = 14

abbrev pub position_kp_q4_4 : ℕ
position_kp_q4_4 = 15

abbrev pub position_ki_q4_4 : ℕ
position_ki_q4_4 = 16

abbrev pub position_kd_q4_4 : ℕ
position_kd_q4_4 = 17

abbrev pub position_max_rpm : ℕ
position_max_rpm = 18

abbrev pub position_tolerance_counts : ℕ
position_tolerance_counts = 19

abbrev pub gy931_roll_zero_mdeg : ℕ
gy931_roll_zero_mdeg = 20

abbrev pub gy931_pitch_zero_mdeg : ℕ
gy931_pitch_zero_mdeg = 21

abbrev pub gy931_yaw_zero_mdeg : ℕ
gy931_yaw_zero_mdeg = 22

abbrev pub imu_accel_bias_x_mg : ℕ
imu_accel_bias_x_mg = 23

abbrev pub imu_accel_bias_y_mg : ℕ
imu_accel_bias_y_mg = 24

abbrev pub imu_accel_bias_z_mg : ℕ
imu_accel_bias_z_mg = 25

abbrev pub imu_gyro_bias_x_mdps : ℕ
imu_gyro_bias_x_mdps = 26

abbrev pub imu_gyro_bias_y_mdps : ℕ
imu_gyro_bias_y_mdps = 27

abbrev pub imu_gyro_bias_z_mdps : ℕ
imu_gyro_bias_z_mdps = 28

abbrev pub heading_kp : ℕ
heading_kp = 29

abbrev pub heading_max_correction_rpm : ℕ
heading_max_correction_rpm = 30

abbrev pub heading_turn_max_rpm : ℕ
heading_turn_max_rpm = 31

abbrev pub heading_turn_min_rpm : ℕ
heading_turn_min_rpm = 32

abbrev pub heading_tolerance_mdeg : ℕ
heading_tolerance_mdeg = 33

abbrev pub heading_settle_ms : ℕ
heading_settle_ms = 34

abbrev pub heading_turn_brake_ms : ℕ
heading_turn_brake_ms = 35

abbrev pub heading_turn_brake_margin_mdeg : ℕ
heading_turn_brake_margin_mdeg = 36

abbrev pub heading_turn_settle_rate_mdps : ℕ
heading_turn_settle_rate_mdps = 37

abbrev pub heading_turn_settle_rpm : ℕ
heading_turn_settle_rpm = 38

abbrev pub distance_speed_mode : ℕ
distance_speed_mode = 39

abbrev pub distance_accel_rpm_s : ℕ
distance_accel_rpm_s = 40

abbrev pub distance_decel_rpm_s : ℕ
distance_decel_rpm_s = 41

abbrev pub distance_creep_rpm : ℕ
distance_creep_rpm = 42

abbrev pub distance_stop_latency_ms : ℕ
distance_stop_latency_ms = 43

abbrev pub distance_brake_margin_mm : ℕ
distance_brake_margin_mm = 44

abbrev pub distance_settle_rpm : ℕ
distance_settle_rpm = 45

abbrev pub distance_tolerance_mm : ℕ
distance_tolerance_mm = 46

abbrev pub ina219_undervoltage_trip_mv : ℕ
ina219_undervoltage_trip_mv = 47

abbrev pub ina219_undervoltage_release_mv : ℕ
ina219_undervoltage_release_mv = 48

abbrev pub ina219_overcurrent_trip_ma : ℕ
ina219_overcurrent_trip_ma = 49

abbrev pub ina219_overcurrent_release_ma : ℕ
ina219_overcurrent_release_ma = 50

abbrev pub ina219_trip_samples : ℕ
ina219_trip_samples = 51

abbrev pub ina219_release_samples : ℕ
ina219_release_samples = 52

abbrev pub ina219_comm_fail_samples : ℕ
ina219_comm_fail_samples = 53

abbrev pub ina219_latch_faults : ℕ
ina219_latch_faults = 54

abbrev pub ina219_motion_inhibit_enable : ℕ
ina219_motion_inhibit_enable = 55

abbrev pub grayscale_white : ℕ
grayscale_white = 56

abbrev pub grayscale_black : ℕ
grayscale_black = 64

abbrev pub grayscale_threshold : ℕ
grayscale_threshold = 72

abbrev pub grayscale_hysteresis : ℕ
grayscale_hysteresis = 73

abbrev pub grayscale_position_floor : ℕ
grayscale_position_floor = 74

abbrev pub grayscale_min_line_strength : ℕ
grayscale_min_line_strength = 75

abbrev pub grayscale_track_mask : ℕ
grayscale_track_mask = 76

abbrev pub linefollow_kp : ℕ
linefollow_kp = 77

abbrev pub linefollow_kd : ℕ
linefollow_kd = 78

abbrev pub linefollow_max_correction_rpm : ℕ
linefollow_max_correction_rpm = 79

abbrev pub linefollow_lost_hold_ms : ℕ
linefollow_lost_hold_ms = 80

abbrev pub linefollow_lost_stop_ms : ℕ
linefollow_lost_stop_ms = 81

abbrev pub linefollow_correction_slew_permille_per_second : ℕ
linefollow_correction_slew_permille_per_second = 82

abbrev pub heading_lock_kp : ℕ
heading_lock_kp = 83

abbrev pub heading_lock_kd : ℕ
heading_lock_kd = 84

abbrev pub heading_lock_wake_mdeg : ℕ
heading_lock_wake_mdeg = 85

abbrev pub heading_lock_settle_mdeg : ℕ
heading_lock_settle_mdeg = 86

abbrev pub heading_lock_min_rpm : ℕ
heading_lock_min_rpm = 87

abbrev pub heading_lock_max_rpm : ℕ
heading_lock_max_rpm = 88

abbrev pub heading_lock_settle_rate_mdps : ℕ
heading_lock_settle_rate_mdps = 89

abbrev pub heading_lock_settle_rpm : ℕ
heading_lock_settle_rpm = 90

abbrev pub heading_lock_settle_ms : ℕ
heading_lock_settle_ms = 91

abbrev pub heading_lock_timeout_ms : ℕ
heading_lock_timeout_ms = 92

abbrev pub road_align_distance_mm : ℕ
road_align_distance_mm = 93

abbrev pub road_align_rpm : ℕ
road_align_rpm = 94

abbrev pub road_turn_outer_max_rpm : ℕ
road_turn_outer_max_rpm = 95

abbrev pub road_turn_inner_reverse_max_rpm : ℕ
road_turn_inner_reverse_max_rpm = 96

abbrev pub line_sensor_source : ℕ
line_sensor_source = 97

abbrev pub infrared_position_invert : ℕ
infrared_position_invert = 98

abbrev pub infrared_position_span_raw : ℕ
infrared_position_span_raw = 99

abbrev pub infrared_adc_threshold : ℕ
infrared_adc_threshold = 100

abbrev pub infrared_adc_hysteresis : ℕ
infrared_adc_hysteresis = 101

abbrev pub infrared_linefollow_kp : ℕ
infrared_linefollow_kp = 102

abbrev pub infrared_linefollow_kd : ℕ
infrared_linefollow_kd = 103

abbrev pub infrared_linefollow_max_correction_rpm : ℕ
infrared_linefollow_max_correction_rpm = 104

abbrev pub infrared_linefollow_correction_slew_permille_per_second : ℕ
infrared_linefollow_correction_slew_permille_per_second = 105

abbrev pub dm_position_kp_milli : ℕ
dm_position_kp_milli = 106

abbrev pub dm_position_kd_milli : ℕ
dm_position_kd_milli = 107

abbrev pub dm_speed_kd_milli : ℕ
dm_speed_kd_milli = 108

abbrev pub dm_max_velocity_mrad_s : ℕ
dm_max_velocity_mrad_s = 109

abbrev pub dm_max_tracking_error_mrad : ℕ
dm_max_tracking_error_mrad = 110

abbrev pub dm_speed_slew_mrad_s2 : ℕ
dm_speed_slew_mrad_s2 = 111

abbrev pub dm_position_tolerance_mrad : ℕ
dm_position_tolerance_mrad = 112

abbrev pub dm_velocity_tolerance_mrad_s : ℕ
dm_velocity_tolerance_mrad_s = 113

abbrev pub dm_settle_ms : ℕ
dm_settle_ms = 114

abbrev pub dm_feedback_timeout_ms : ℕ
dm_feedback_timeout_ms = 115
