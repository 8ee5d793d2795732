-- ===== src/MotorDriver/RegisterMap/Calls.antt =====
-- MotorDriver/protocol/register_map.cpp: the methods that change the object, in any order.
use guga_pi.MotorDriver.Reg
use guga_pi.MotorDriver.Flag
use guga_pi.MotorDriver.RegisterMap.State.{
  RegisterMap, store_uint16, store_int16, store_int32, is_enabled, load_uint32, load_uint16,
}
use guga_pi.MotorDriver.RegisterMap.Limits.{IsWithin, AreBytes, limit, update-IsWithin}
use guga_pi.Common.{
  ℕ, ◌<◌, List, Array, ◌≤◌, ◌∷◌, Bool, ◌≡◌, [], arith, true, false, Option, refl, some,
  Option-cases, inl, inr, ap, All, all_below, leb→le, all_below_sound, leb, ◌∙◌,
}
use guga_pi.MotorDriver.RegisterMap.Write.{
  commit_write, is_plain_register, normalize_control_state, normalize_motor,
}
use guga_pi.MotorDriver.RegisterMap.Status.{
  motor_status, refresh_status, set_timeout_active, force_coast_on_timeout, clear_motor_motion,
  position_at_target,
}
use guga_pi.MotorDriver.RegisterMap.Update.{
  clear_encoder_control, update_encoder_snapshot, update_measured_rpm,
  update_speed_control_telemetry, set_motor_duty_from_control, set_motor_output_from_control,
  update_target_rpm_from_control, update_hold_target, update_position_error, set_i2c_address, init,
}
use guga_pi.MotorDriver.RegisterMap.Stores.{
  commit_write_range, commit_write_accepted, commit_write_refused, apply_from-expected,
}
use guga_pi.MotorDriver.RegisterMap.Ranges.{
  commit_write-IsWithin, refresh_status-IsWithin, force_coast-IsWithin, snapshot-IsWithin,
  measured-IsWithin, reports-IsWithin, output-IsWithin, rpm-IsWithin, hold-IsWithin, error-IsWithin,
}

-- A call of a method that changes the object, with its arguments.
pub data Call : Type 0 where
  commits : ℕ → Array → ℕ → Call
  sets_timeout : Bool → Call
  forces_coast refreshes clears_encoder_control : Call
  snapshots : ℕ → ℕ → ℕ → ℕ → ℕ → ℕ → Call
  measures : ℕ → ℕ → Call
  reports : Bool → ℕ → ℕ → ℕ → ℕ → Call
  sets_duty : Bool → ℕ → Call
  sets_output : Bool → ℕ → ℕ → Call
  sets_rpm holds errs : Bool → ℕ → Call
  sets_address : ℕ → Call

unfoldable pub step : RegisterMap → Call → RegisterMap
step s (commits start_reg bytes length) = (commit_write s start_reg bytes length).0
step s (sets_timeout active) = set_timeout_active s active
step s forces_coast = force_coast_on_timeout s
step s refreshes = refresh_status s
step s clears_encoder_control = clear_encoder_control s
step s (snapshots c1 v1 e1 c2 v2 e2) = update_encoder_snapshot s c1 v1 e1 c2 v2 e2
step s (measures m1 m2) = update_measured_rpm s m1 m2
step s (reports motor1 rpm error integral duty) =
    update_speed_control_telemetry s motor1 rpm error integral duty
step s (sets_duty motor1 duty) = set_motor_duty_from_control s motor1 duty
step s (sets_output motor1 duty direction) = set_motor_output_from_control s motor1 duty direction
step s (sets_rpm motor1 rpm) = update_target_rpm_from_control s motor1 rpm
step s (holds motor1 count) = update_hold_target s motor1 count
step s (errs motor1 error) = update_position_error s motor1 error
step s (sets_address address) = set_i2c_address s address

-- The arguments have the ranges of their types, and an address is one that `ApplyWriteTo` accepts.
abbrev pub IsArgument : Call → Type 0
IsArgument (commits start_reg bytes length) = AreBytes bytes length
IsArgument (reports motor1 rpm error integral duty) = duty < 256
IsArgument (sets_address address) = address ≤ 0x77
IsArgument _ = Unit {0}

unfoldable pub run : RegisterMap → List Call → RegisterMap
run s [] = s
run s (c ∷ cs) = run (step s c) cs

-- Every method keeps every register in its range, whatever a write from the bus contains.
pub step-IsWithin :
    (s : RegisterMap) (c : Call)
    → IsArgument c
    → IsWithin s.registers
    → IsWithin (step s c).registers
unfolding step set_timeout_active set_motor_duty_from_control set_i2c_address clear_encoder_control
    limit
step-IsWithin s (commits start_reg bytes length) a w =
    commit_write-IsWithin s start_reg bytes length a w
step-IsWithin s (sets_timeout active) a w = refresh_status-IsWithin _ w
step-IsWithin s forces_coast a w = force_coast-IsWithin s w
step-IsWithin s refreshes a w = refresh_status-IsWithin s w
step-IsWithin s clears_encoder_control a w =
    update-IsWithin s.registers Reg.encoder_control 0 w (omega arith)
step-IsWithin s (snapshots c1 v1 e1 c2 v2 e2) a w = snapshot-IsWithin s c1 v1 e1 c2 v2 e2 w
step-IsWithin s (measures m1 m2) a w = measured-IsWithin s m1 m2 w
step-IsWithin s (reports motor1 rpm error integral duty) a w =
    reports-IsWithin s motor1 rpm error integral duty a w
step-IsWithin s (sets_duty motor1 duty) a w = output-IsWithin s motor1 duty _ w
step-IsWithin s (sets_output motor1 duty direction) a w = output-IsWithin s motor1 duty direction w
step-IsWithin s (sets_rpm motor1 rpm) a w = rpm-IsWithin s motor1 rpm w
step-IsWithin s (holds motor1 count) a w = hold-IsWithin s motor1 count w
step-IsWithin s (errs motor1 error) a w = error-IsWithin s motor1 error w
step-IsWithin s (sets_address address) a w = update-IsWithin s.registers Reg.i2c_address address w a

init_table : all_below 127 (λ r. leb (init.registers r) (limit r)) ≡ true
unfolding init all_below limit is_plain_register store_uint16 store_int32 refresh_status
    motor_status position_at_target is_enabled load_uint32 load_uint16
init_table = refl

pub init-IsWithin : IsWithin init.registers
init-IsWithin r lt =
    leb→le _ _ (all_below_sound 127 (λ r. leb (init.registers r) (limit r)) r init_table lt)

run-IsWithin :
    (s : RegisterMap) (cs : List Call)
    → All IsArgument cs
    → IsWithin s.registers
    → IsWithin (run s cs).registers
unfolding run
run-IsWithin s [] a w = w
run-IsWithin s (c ∷ cs) a w = run-IsWithin (step s c) cs a.1 (step-IsWithin s c a.0 w)

-- After `Init` and any calls whose arguments have the ranges of their types (and an address the
-- bus's), every register holds a value in its range.
pub run-init-IsWithin : (cs : List Call) → All IsArgument cs → IsWithin (run init cs).registers
run-init-IsWithin cs a = run-IsWithin init cs a init-IsWithin

refresh_past :
    (s : RegisterMap) (r : ℕ)
    → Flag.register_count ≤ r
    → (refresh_status s).registers r ≡ s.registers r
unfolding refresh_status
refresh_past s r h = ground arith

normalize_past :
    (t : Array) (start_reg length r : ℕ)
    → Flag.register_count ≤ r
    → normalize_control_state t start_reg length r ≡ t r
unfolding normalize_control_state normalize_motor clear_motor_motion
normalize_past t start_reg length r h = ground arith

commit_past :
    (s : RegisterMap) (start_reg : ℕ) (bytes : Array) (length r : ℕ)
    → Flag.register_count ≤ r
    → (commit_write s start_reg bytes length).0.registers r ≡ s.registers r
commit_past s start_reg bytes length r h = elim (Option-cases c.1) [
  | inl e ↦ rw (commit_write_refused s start_reg bytes length e)
  | inr (changed, e) ↦ accepted changed (ap (λ (o : Option Bool). (c.0, o)) e)
]
  where
    c : RegisterMap × Option Bool
    c = commit_write s start_reg bytes length

    accepted : (changed : Bool) → c ≡ (c.0, some changed) → c.0.registers r ≡ s.registers r
    accepted changed e =
        let (pos, le) = commit_write_range s start_reg bytes length e in
        let (next, loop, final) = commit_write_accepted s start_reg bytes length e in
        ap (λ (x : RegisterMap). x.registers r) final
        ∙ refresh_past _ r h
        ∙ normalize_past next start_reg length r h
        ∙ apply_from-expected start_reg bytes length 0 s.registers false r (omega arith) loop
        ∙ ground arith

-- No method writes outside the array of 127 registers, whatever range a write asks for.
pub step_in_bounds :
    (s : RegisterMap) (c : Call) (r : ℕ)
    → Flag.register_count ≤ r
    → (step s c).registers r ≡ s.registers r
unfolding step
step_in_bounds s (commits start_reg bytes length) r h = commit_past s start_reg bytes length r h
step_in_bounds s (sets_timeout active) r h = unfold set_timeout_active in refresh_past _ r h
step_in_bounds s forces_coast r h =
    unfold force_coast_on_timeout clear_motor_motion in (refresh_past _ r h ∙ ground arith)
step_in_bounds s refreshes r h = refresh_past s r h
step_in_bounds s clears_encoder_control r h = unfold clear_encoder_control in ground arith
step_in_bounds s (snapshots c1 v1 e1 c2 v2 e2) r h =
    unfold update_encoder_snapshot store_int32 in ground arith
step_in_bounds s (measures m1 m2) r h = unfold update_measured_rpm store_int16 in ground arith
step_in_bounds s (reports motor1 rpm error integral duty) r h =
    unfold update_speed_control_telemetry store_uint16 store_int16 in ground arith
step_in_bounds s (sets_duty motor1 duty) r h =
    unfold set_motor_duty_from_control set_motor_output_from_control in
    (refresh_past _ r h ∙ ground arith)
step_in_bounds s (sets_output motor1 duty direction) r h =
    unfold set_motor_output_from_control in (refresh_past _ r h ∙ ground arith)
step_in_bounds s (sets_rpm motor1 rpm) r h =
    unfold update_target_rpm_from_control store_uint16 in (refresh_past _ r h ∙ ground arith)
step_in_bounds s (holds motor1 count) r h = unfold update_hold_target store_int32 in ground arith
step_in_bounds s (errs motor1 error) r h =
    unfold update_position_error store_int32 in (refresh_past _ r h ∙ ground arith)
step_in_bounds s (sets_address address) r h = unfold set_i2c_address in ground arith
