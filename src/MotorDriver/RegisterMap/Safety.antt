-- ===== src/MotorDriver/RegisterMap/Safety.antt =====
-- MotorDriver/protocol/register_map.cpp: when the motors may run.
use guga_pi.MotorDriver.Reg
use guga_pi.MotorDriver.Flag
use guga_pi.MotorDriver.RegisterMap.State.{RegisterMap, is_enabled}
use guga_pi.MotorDriver.RegisterMap.Stores.{
  apply_from-expected, refresh_status-other, commit_write_range, commit_write_accepted,
}
use guga_pi.Common.{
  Bool, Array, ℕ, if◌then◌else◌, ◌≡◌, arith, true, bit_and, false, some, ◌%◌, ◌≤◌, ◌<◌, ◌+◌, ◌-◌,
  update, refl, u8, bit_or, bit_or_digit, ◌∙◌,
}
use guga_pi.MotorDriver.RegisterMap.Status.{
  refresh_status, clear_motor_motion, force_coast_on_timeout, has_active_command, motor_status,
}
use guga_pi.MotorDriver.RegisterMap.Write.{commit_write, normalize_control_state}

abbrev pub flag_if : Bool → ℕ → ℕ
flag_if on flag = if on then flag else 0

-- After a refresh the status byte says what the registers say: its bits are the ready bit, the
-- enable bit, the active bit exactly when there is an active command, and the timeout bit.
pub refresh_status_agrees :
    (s : RegisterMap)
    → let s' = refresh_status s in
      let status = s'.registers Reg.status in
      (bit_and status Flag.status_ready ≡ Flag.status_ready)
      × (bit_and status Flag.status_enabled ≡ flag_if (is_enabled s') Flag.status_enabled)
      × (bit_and status Flag.status_active ≡ flag_if (has_active_command s') Flag.status_active)
      × (bit_and status Flag.status_timeout ≡ flag_if s'.timeout_active Flag.status_timeout)
unfolding refresh_status motor_status has_active_command is_enabled
refresh_status_agrees s = ground arith

-- Both motors coast: no mode, no duty, no target speed.
pub record IsCoasting (t : Array) : Type 0 where
  pub m1_mode : t Reg.m1_mode ≡ Flag.motor_mode_coast
  pub m2_mode : t Reg.m2_mode ≡ Flag.motor_mode_coast
  pub m1_duty : t Reg.m1_duty ≡ 0
  pub m2_duty : t Reg.m2_duty ≡ 0
  pub m1_target_0 : t Reg.m1_target_rpm_0 ≡ 0
  pub m1_target_1 : t Reg.m1_target_rpm_1 ≡ 0
  pub m2_target_0 : t Reg.m2_target_rpm_0 ≡ 0
  pub m2_target_1 : t Reg.m2_target_rpm_1 ≡ 0

refresh_status-IsCoasting :
    (s : RegisterMap) → IsCoasting s.registers → IsCoasting (refresh_status s).registers
unfolding refresh_status
refresh_status-IsCoasting s c = ground arith

clear_both-IsCoasting :
    (t : Array) → IsCoasting (clear_motor_motion (clear_motor_motion t true) false)
unfolding clear_motor_motion
clear_both-IsCoasting t = ground arith

coasting_idle : (s : RegisterMap) → IsCoasting s.registers → has_active_command s ≡ false
unfolding has_active_command
coasting_idle s c = ground arith

update_faults-IsCoasting :
    (t : Array) (faults : ℕ) → IsCoasting t → IsCoasting (update t Reg.fault_flags faults)
update_faults-IsCoasting t faults c = ground arith

pub timeout_active-refresh_status :
    (s : RegisterMap) → (refresh_status s).timeout_active ≡ s.timeout_active
unfolding refresh_status
timeout_active-refresh_status s = refl

-- The stop after a timeout: both motors coast, no command is active, the fault is recorded and the
-- timeout is on.
pub force_coast_on_timeout_lem :
    (s : RegisterMap)
    → let s' = force_coast_on_timeout s in
      IsCoasting s'.registers
      × (has_active_command s' ≡ false)
      × (s'.registers Reg.fault_flags % 2 ≡ 1)
      × (s'.timeout_active ≡ true)
unfolding force_coast_on_timeout
force_coast_on_timeout_lem s =
    let t = clear_motor_motion (clear_motor_motion s.registers true) false in
    let faults = u8 (bit_or (t Reg.fault_flags) Flag.fault_watchdog_timeout) in
    let stopped : RegisterMap = record {
      registers = update t Reg.fault_flags faults;
      timeout_active = true;
    } in
    let coasts =
      refresh_status-IsCoasting stopped
        (update_faults-IsCoasting t faults (clear_both-IsCoasting s.registers)) in
    let kept = refresh_status-other stopped Reg.fault_flags refl in
    (
      coasts,
      coasting_idle (refresh_status stopped) coasts,
      omega (arith, kept, bit_or_digit (t Reg.fault_flags) 1),
      timeout_active-refresh_status stopped,
    )

-- While the timeout is on, no register contents make a command active.
pub timeout_inhibits : (s : RegisterMap) → s.timeout_active ≡ true → has_active_command s ≡ false
unfolding has_active_command
timeout_inhibits s h = ground arith

normalize-disabled :
    (t : Array) (start_reg length : ℕ)
    → start_reg ≤ Reg.control_flags
    → Reg.control_flags < start_reg + length
    → bit_and (t Reg.control_flags) Flag.control_enable ≡ 0
    → normalize_control_state t start_reg length
      ≡ clear_motor_motion (clear_motor_motion t true) false
unfolding normalize_control_state
normalize-disabled t start_reg length lo hi off = ground arith

-- A write that is accepted, addresses CONTROL_FLAGS and leaves its enable bit clear makes both
-- motors coast, whatever modes and speeds the same write asked for, and no command is active.
pub disable_coasts :
    (s : RegisterMap) (start_reg : ℕ) (bytes : Array) (length : ℕ) {s' : RegisterMap}
    {changed : Bool}
    → commit_write s start_reg bytes length ≡ (s', some changed)
    → start_reg ≤ Reg.control_flags
    → Reg.control_flags < start_reg + length
    → bit_and (bytes (Reg.control_flags - start_reg)) Flag.control_enable ≡ 0
    → IsCoasting s'.registers × (has_active_command s' ≡ false)
disable_coasts s start_reg bytes length h lo hi off =
    let (pos, le) = commit_write_range s start_reg bytes length h in
    let (next, e, final) = commit_write_accepted s start_reg bytes length h in
    let written : next Reg.control_flags ≡ bytes (Reg.control_flags - start_reg) =
      apply_from-expected start_reg bytes length 0 s.registers false Reg.control_flags (omega arith)
        e
      ∙ ground arith in
    let t = normalize_control_state next start_reg length in
    let cleared = normalize-disabled next start_reg length lo hi (rw written off) in
    let coasts =
      refresh_status-IsCoasting (record s { registers = t })
        (rw cleared (clear_both-IsCoasting next)) in
    rw final (coasts, coasting_idle _ coasts)

-- No write from the bus touches the timeout flag.
pub commit_write_timeout :
    (s : RegisterMap) (start_reg : ℕ) (bytes : Array) (length : ℕ)
    → (commit_write s start_reg bytes length).0.timeout_active ≡ s.timeout_active
unfolding commit_write refresh_status
commit_write_timeout s start_reg bytes length = ground arith
