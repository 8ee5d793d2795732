-- ===== src/MotorDriver/RegisterMap/Ranges.antt =====
-- MotorDriver/protocol/register_map.cpp: each method keeps the ranges of the registers.
use guga_pi.MotorDriver.Reg
use guga_pi.MotorDriver.RegisterMap.State.{RegisterMap, put, store_uint16, store_int16, store_int32}
use guga_pi.MotorDriver.RegisterMap.Limits.{
  IsWithin, AreBytes, limit, update-IsWithin, apply_from-IsWithin, clear_motor_motion-or-zero,
  normalize-IsWithin,
}
use guga_pi.Common.{
  ℕ, ◌<◌, Array, ◌≤◌, Bool, bit_and, ◌≡◌, arith, u8, true, bit_and_byte, ◌+◌, false, ◌>>◌, u16, u32,
  Option, refl, some, Option-cases, inl, inr, ap, bit_or, suc, zero,
}
use guga_pi.MotorDriver.RegisterMap.Write.{commit_write, is_plain_register}
use guga_pi.MotorDriver.RegisterMap.Status.{
  motor_status, refresh_status, force_coast_on_timeout, clear_motor_motion,
}
use guga_pi.MotorDriver.RegisterMap.Update.{
  update_encoder_snapshot, update_measured_rpm, update_speed_control_telemetry,
  set_motor_output_from_control, update_target_rpm_from_control, update_hold_target,
  update_position_error,
}
use guga_pi.MotorDriver.RegisterMap.Stores.{
  commit_write_range, commit_write_accepted, commit_write_refused,
}

motor_status-le :
    (s : RegisterMap) (motor1 : Bool) (mode duty direction : ℕ)
    → motor_status s motor1 mode duty direction ≤ 7
unfolding motor_status
motor_status-le s motor1 mode duty direction = ground arith

pub refresh_status-IsWithin :
    (s : RegisterMap) → IsWithin s.registers → IsWithin (refresh_status s).registers
unfolding refresh_status limit is_plain_register
refresh_status-IsWithin s w =
    update-IsWithin _ Reg.status _
      (update-IsWithin _ Reg.position_status _
        (update-IsWithin _ Reg.m2_status _
          (update-IsWithin _ Reg.m1_status _ w (
            omega
              (arith, motor_status-le s true (r Reg.m1_mode) (r Reg.m1_duty) (r Reg.m1_direction))))
          (omega
            (arith, motor_status-le s false (r Reg.m2_mode) (r Reg.m2_duty) (r Reg.m2_direction))))
        (omega arith))
      (ground arith)
  where
    open s use {registers as r}

low_byte : (v : ℕ) → bit_and v 0xff ≤ 255
low_byte v = omega (arith, bit_and_byte v)

store_uint16-IsWithin :
    (s : RegisterMap) (reg v : ℕ)
    → limit reg ≡ 255
    → limit (u8 (reg + 1)) ≡ 255
    → IsWithin s.registers
    → IsWithin (store_uint16 s reg v).registers
unfolding store_uint16
store_uint16-IsWithin s reg v e f w =
    update-IsWithin _ (u8 (reg + 1)) _ (update-IsWithin _ reg _ w (rw e (low_byte v)))
      (rw f (low_byte (v >> 8)))

store_int16-IsWithin :
    (s : RegisterMap) (reg v : ℕ)
    → limit reg ≡ 255
    → limit (u8 (reg + 1)) ≡ 255
    → IsWithin s.registers
    → IsWithin (store_int16 s reg v).registers
unfolding store_int16
store_int16-IsWithin s reg v e f w =
    update-IsWithin _ (u8 (reg + 1)) _ (update-IsWithin _ reg _ w (rw e (low_byte (u16 v))))
      (rw f (low_byte (u16 v >> 8)))

store_int32-IsWithin :
    (s : RegisterMap) (reg v : ℕ)
    → limit reg ≡ 255
    → limit (u8 (reg + 1)) ≡ 255
    → limit (u8 (reg + 2)) ≡ 255
    → limit (u8 (reg + 3)) ≡ 255
    → IsWithin s.registers
    → IsWithin (store_int32 s reg v).registers
unfolding store_int32
store_int32-IsWithin s reg v e f g h w =
    update-IsWithin _ (u8 (reg + 3)) _
      (update-IsWithin _ (u8 (reg + 2)) _
        (update-IsWithin _ (u8 (reg + 1)) _ (update-IsWithin _ reg _ w (rw e (low_byte (u32 v))))
          (rw f (low_byte (u32 v >> 8))))
        (rw g (low_byte (u32 v >> 16))))
      (rw h (low_byte (u32 v >> 24)))

pub commit_write-IsWithin :
    (s : RegisterMap) (start_reg : ℕ) (bytes : Array) (length : ℕ)
    → AreBytes bytes length
    → IsWithin s.registers
    → IsWithin (commit_write s start_reg bytes length).0.registers
commit_write-IsWithin s start_reg bytes length b w = elim (Option-cases c.1) [
  | inl e ↦ rw (commit_write_refused s start_reg bytes length e) w
  | inr (changed, e) ↦ accepted changed (ap (λ (o : Option Bool). (c.0, o)) e)
]
  where
    c : RegisterMap × Option Bool
    c = commit_write s start_reg bytes length

    accepted : (changed : Bool) → c ≡ (c.0, some changed) → IsWithin c.0.registers
    accepted changed h =
        let (pos, le) = commit_write_range s start_reg bytes length h in
        let (next, e, final) = commit_write_accepted s start_reg bytes length h in
        let stored =
          apply_from-IsWithin start_reg bytes length 0 s.registers false (omega arith)
            (λ i lt. b i (omega arith)) w e in
        rw final (refresh_status-IsWithin _ (normalize-IsWithin next start_reg length stored))

set_flag : (t : ℕ) → t ≤ 1 → u8 (bit_or t 1) ≤ 1
set_flag zero h = omega arith
set_flag (suc zero) h = omega arith
set_flag (suc (suc t)) h = absurd (omega arith)

pub force_coast-IsWithin :
    (s : RegisterMap) → IsWithin s.registers → IsWithin (force_coast_on_timeout s).registers
unfolding force_coast_on_timeout limit
force_coast-IsWithin s w = refresh_status-IsWithin _ (
    update-IsWithin _ Reg.fault_flags _ coasting
      (set_flag _ (coasting Reg.fault_flags (omega arith))))
  where
    coasting : IsWithin (clear_motor_motion (clear_motor_motion s.registers true) false)
    coasting r lt = ground (
      arith,
      w r lt,
      clear_motor_motion-or-zero s.registers true r,
      clear_motor_motion-or-zero (clear_motor_motion s.registers true) false r,
    )

pub output-IsWithin :
    (s : RegisterMap) (motor1 : Bool) (duty direction : ℕ)
    → IsWithin s.registers
    → IsWithin (set_motor_output_from_control s motor1 duty direction).registers
unfolding set_motor_output_from_control limit
output-IsWithin s true duty direction w = refresh_status-IsWithin _ (
    update-IsWithin _ Reg.m1_direction _ (update-IsWithin _ Reg.m1_duty _ w (ground arith))
      (ground arith))
output-IsWithin s false duty direction w = refresh_status-IsWithin _ (
    update-IsWithin _ Reg.m2_direction _ (update-IsWithin _ Reg.m2_duty _ w (ground arith))
      (ground arith))

pub snapshot-IsWithin :
    (s : RegisterMap) (c1 v1 e1 c2 v2 e2 : ℕ)
    → IsWithin s.registers
    → IsWithin (update_encoder_snapshot s c1 v1 e1 c2 v2 e2).registers
unfolding update_encoder_snapshot limit is_plain_register
snapshot-IsWithin s c1 v1 e1 c2 v2 e2 w =
    let w1 = store_int32-IsWithin s Reg.m1_encoder_count_0 c1 refl refl refl refl w in
    let w2 = store_int32-IsWithin _ Reg.m1_encoder_cps_0 v1 refl refl refl refl w1 in
    let s2 = store_int32 (store_int32 s Reg.m1_encoder_count_0 c1) Reg.m1_encoder_cps_0 v1 in
    let s3 = put s2 Reg.m1_encoder_state (u8 (bit_and e1 0x03)) in
    let w3 =
      update-IsWithin s2.registers Reg.m1_encoder_state (u8 (bit_and e1 0x03)) w2 (omega arith) in
    let w4 = store_int32-IsWithin s3 Reg.m2_encoder_count_0 c2 refl refl refl refl w3 in
    let s4 = store_int32 s3 Reg.m2_encoder_count_0 c2 in
    let w5 = store_int32-IsWithin s4 Reg.m2_encoder_cps_0 v2 refl refl refl refl w4 in
    update-IsWithin (store_int32 s4 Reg.m2_encoder_cps_0 v2).registers Reg.m2_encoder_state
      (u8 (bit_and e2 0x03)) w5 (omega arith)

pub reports-IsWithin :
    (s : RegisterMap) (motor1 : Bool) (rpm error integral duty : ℕ)
    → duty < 256
    → IsWithin s.registers
    → IsWithin (update_speed_control_telemetry s motor1 rpm error integral duty).registers
unfolding update_speed_control_telemetry limit is_plain_register
reports-IsWithin s true rpm error integral duty lt w =
    let w1 = store_uint16-IsWithin s Reg.m1_control_rpm_0 rpm refl refl w in
    let w2 = store_int16-IsWithin _ Reg.m1_speed_error_0 error refl refl w1 in
    let w3 = store_int16-IsWithin _ Reg.m1_speed_integral_0 integral refl refl w2 in
    update-IsWithin _ Reg.m1_control_duty duty w3 (omega arith)
reports-IsWithin s false rpm error integral duty lt w =
    let w1 = store_uint16-IsWithin s Reg.m2_control_rpm_0 rpm refl refl w in
    let w2 = store_int16-IsWithin _ Reg.m2_speed_error_0 error refl refl w1 in
    let w3 = store_int16-IsWithin _ Reg.m2_speed_integral_0 integral refl refl w2 in
    update-IsWithin _ Reg.m2_control_duty duty w3 (omega arith)

pub rpm-IsWithin :
    (s : RegisterMap) (motor1 : Bool) (rpm : ℕ)
    → IsWithin s.registers
    → IsWithin (update_target_rpm_from_control s motor1 rpm).registers
unfolding update_target_rpm_from_control limit is_plain_register
rpm-IsWithin s true rpm w =
    refresh_status-IsWithin _ (store_uint16-IsWithin s Reg.m1_target_rpm_0 rpm refl refl w)
rpm-IsWithin s false rpm w =
    refresh_status-IsWithin _ (store_uint16-IsWithin s Reg.m2_target_rpm_0 rpm refl refl w)

pub hold-IsWithin :
    (s : RegisterMap) (motor1 : Bool) (count : ℕ)
    → IsWithin s.registers
    → IsWithin (update_hold_target s motor1 count).registers
unfolding update_hold_target limit is_plain_register
hold-IsWithin s true count w =
    store_int32-IsWithin s Reg.m1_hold_count_0 count refl refl refl refl w
hold-IsWithin s false count w =
    store_int32-IsWithin s Reg.m2_hold_count_0 count refl refl refl refl w

pub error-IsWithin :
    (s : RegisterMap) (motor1 : Bool) (error : ℕ)
    → IsWithin s.registers
    → IsWithin (update_position_error s motor1 error).registers
unfolding update_position_error limit is_plain_register
error-IsWithin s true error w =
    refresh_status-IsWithin _
      (store_int32-IsWithin s Reg.m1_position_error_0 error refl refl refl refl w)
error-IsWithin s false error w =
    refresh_status-IsWithin _
      (store_int32-IsWithin s Reg.m2_position_error_0 error refl refl refl refl w)

pub measured-IsWithin :
    (s : RegisterMap) (m1 m2 : ℕ)
    → IsWithin s.registers
    → IsWithin (update_measured_rpm s m1 m2).registers
unfolding update_measured_rpm limit is_plain_register
measured-IsWithin s m1 m2 w =
    store_int16-IsWithin _ Reg.m2_measured_rpm_0 m2 refl refl
      (store_int16-IsWithin s Reg.m1_measured_rpm_0 m1 refl refl w)
