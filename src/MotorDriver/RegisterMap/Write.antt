-- ===== src/MotorDriver/RegisterMap/Write.antt =====
-- MotorDriver/protocol/register_map.cpp: reads and writes from the bus.
use guga_pi.Common.{
  ℕ, zero, suc, ◌+◌, ◌-◌, Bool, true, false, not, ◌&&◌, ◌||◌, Option, none, some, List, [], ◌∷◌,
  Array, update, one_of, u8, ltb, leb, ◌==◌, ◌!=◌, bit_and, bit_or, if◌then◌else◌,
}
use guga_pi.MotorDriver.Reg
use guga_pi.MotorDriver.Flag
use guga_pi.MotorDriver.RegisterMap.State.{RegisterMap}
use guga_pi.MotorDriver.RegisterMap.Status.{refresh_status, clear_motor_motion}

unfoldable pub read : RegisterMap → ℕ → ℕ
read s reg = if leb Flag.register_count reg then 0 else s.registers reg

unfoldable pub is_readable_range : ℕ → ℕ → Bool
is_readable_range start_reg length =
    if length == 0 || ltb Flag.register_count (start_reg + length) then false else true

-- The loop of `ReadBlock`, from `index` on: what it stores in `out`.
unfoldable pub read_from : RegisterMap → ℕ → ℕ → ℕ → List ℕ
read_from s start_reg index zero = []
read_from s start_reg index (suc n) =
    read s (u8 (start_reg + index)) ∷ read_from s start_reg (index + 1) n

-- `none` is the return of false. The callers pass an array as `out`, never a null pointer.
unfoldable pub read_block : RegisterMap → ℕ → ℕ → Option (List ℕ)
read_block s start_reg length =
    if not (is_readable_range start_reg length) then none else some (read_from s start_reg 0 length)

-- The labels of `ApplyWriteTo` that store any value.
abbrev pub plain_registers : List ℕ
plain_registers =
    Reg.m1_target_rpm_0 ∷ Reg.m1_target_rpm_1 ∷ Reg.m2_target_rpm_0 ∷ Reg.m2_target_rpm_1
    ∷ Reg.speed_kp_q4_4 ∷ Reg.speed_ki_q4_4 ∷ Reg.speed_kd_q4_4 ∷ Reg.m1_counts_per_rev_0
    ∷ Reg.m1_counts_per_rev_1 ∷ Reg.m1_counts_per_rev_2 ∷ Reg.m1_counts_per_rev_3
    ∷ Reg.m2_counts_per_rev_0 ∷ Reg.m2_counts_per_rev_1 ∷ Reg.m2_counts_per_rev_2
    ∷ Reg.m2_counts_per_rev_3 ∷ Reg.m1_target_position_0 ∷ Reg.m1_target_position_1
    ∷ Reg.m1_target_position_2 ∷ Reg.m1_target_position_3 ∷ Reg.m2_target_position_0
    ∷ Reg.m2_target_position_1 ∷ Reg.m2_target_position_2 ∷ Reg.m2_target_position_3
    ∷ Reg.position_kp_q4_4 ∷ Reg.position_ki_q4_4 ∷ Reg.position_kd_q4_4 ∷ Reg.position_max_rpm_0
    ∷ Reg.position_max_rpm_1 ∷ Reg.position_tolerance_0 ∷ Reg.position_tolerance_1
    ∷ Reg.position_exit_tolerance_0 ∷ Reg.position_exit_tolerance_1 ∷ Reg.position_settle_10ms
    ∷ Reg.speed_accel_rpm_per_s_0 ∷ Reg.speed_accel_rpm_per_s_1 ∷ Reg.speed_decel_rpm_per_s_0
    ∷ Reg.speed_decel_rpm_per_s_1 ∷ []

unfoldable pub is_plain_register : ℕ → Bool
is_plain_register reg = one_of reg plain_registers

abbrev one_of2 : ℕ → ℕ → ℕ → Bool
one_of2 reg a b = reg == a || reg == b

-- Stores `value` if `ok`, and otherwise returns false (`none`).
abbrev store_if : Bool → Array → ℕ → ℕ → Option Array
store_if ok target reg value = if ok then some (update target reg value) else none

-- The `switch` of `ApplyWriteTo`; `none` is the return of false. `~x` of a byte is `255 - x`.
unfoldable pub apply_write_to : Array → ℕ → ℕ → Option Array
apply_write_to target reg value =
    if reg == Reg.fault_flags
    then (if bit_and value (255 - Flag.fault_watchdog_timeout) != 0
        then none
        else some (update target reg (u8 (bit_and (target reg) (255 - value)))))
    else if reg == Reg.control_flags
    then store_if (not (bit_and value (255 - Flag.control_enable) != 0)) target reg value
    else if one_of2 reg Reg.output_invert_flags Reg.encoder_invert_flags
    then store_if (not (bit_and value (255 - Flag.invert_valid_mask) != 0)) target reg value
    else if reg == Reg.i2c_address
    then store_if (not (ltb value 0x08 || ltb 0x77 value)) target reg value
    else if one_of2 reg Reg.m1_mode Reg.m2_mode
    then store_if (not (ltb Flag.motor_mode_position value)) target reg value
    else if one_of2 reg Reg.m1_duty Reg.m2_duty
    then store_if (not (ltb 100 value)) target reg value
    else if one_of2 reg Reg.m1_direction Reg.m2_direction
    then store_if (not (ltb Flag.motor_direction_reverse value)) target reg value
    else if reg == Reg.watchdog_timeout
    then some (update target reg value)
    else if reg == Reg.encoder_control
    then store_if
        (not (
          bit_and value (255 - (bit_or Flag.encoder_control_reset_m1 Flag.encoder_control_reset_m2))
          != 0))
        target reg value
    else if is_plain_register reg
    then some (update target reg value)
    else if one_of2 reg Reg.speed_max_duty Reg.speed_min_duty
        || one_of2 reg Reg.position_min_duty Reg.position_max_duty
    then store_if (not (ltb 100 value)) target reg value
    else none

-- The labels of `IsControlRegister`: beside the plain ones, flags, outputs and duty limits.
unfoldable pub is_control_register : ℕ → Bool
is_control_register reg = one_of reg (
    Reg.control_flags ∷ Reg.output_invert_flags ∷ Reg.encoder_invert_flags ∷ Reg.m1_mode
    ∷ Reg.m1_duty ∷ Reg.m1_direction ∷ Reg.m2_mode ∷ Reg.m2_duty ∷ Reg.m2_direction
    ∷ Reg.speed_max_duty ∷ Reg.speed_min_duty ∷ Reg.position_min_duty ∷ Reg.position_max_duty
    ∷ plain_registers)

-- The chain of tests on one motor's mode in `NormalizeControlState`.
unfoldable pub normalize_motor : Array → Bool → Bool → Array
normalize_motor target motor1 written =
    let mode = target (if motor1 then Reg.m1_mode else Reg.m2_mode) in
    let no_duty = update target (if motor1 then Reg.m1_duty else Reg.m2_duty) 0 in
    let no_rpm = λ (t : Array).
      update (update t (if motor1 then Reg.m1_target_rpm_0 else Reg.m2_target_rpm_0) 0)
        (if motor1 then Reg.m1_target_rpm_1 else Reg.m2_target_rpm_1) 0 in
    if written && mode == Flag.motor_mode_coast
    then clear_motor_motion target motor1
    else if written && mode == Flag.motor_mode_brake
    then no_rpm no_duty
    else if written && mode == Flag.motor_mode_run
    then no_rpm target
    else if written && mode == Flag.motor_mode_position
    then no_rpm no_duty
    else target

abbrev pub is_written : ℕ → ℕ → ℕ → Bool
is_written start_reg length reg = leb start_reg reg && ltb reg (start_reg + length)

unfoldable pub normalize_control_state : Array → ℕ → ℕ → Array
normalize_control_state target start_reg length =
    let written = is_written start_reg length in
    if written Reg.control_flags && bit_and (target Reg.control_flags) Flag.control_enable == 0
    then clear_motor_motion (clear_motor_motion target true) false
    else normalize_motor (normalize_motor target true (written Reg.m1_mode)) false
        (written Reg.m2_mode)

-- The loop of `CommitWrite` over the copy `next`, from `index` on; `none` is its early return.
unfoldable pub apply_from : ℕ → Array → ℕ → ℕ → Array → Bool → Option (Array × Bool)
apply_from start_reg bytes index zero next changed = some (next, changed)
apply_from start_reg bytes index (suc n) next changed =
    let reg = u8 (start_reg + index) in
    elim (apply_write_to next reg (bytes index)) [
      | none ↦ none
      | some next' ↦
          apply_from start_reg bytes (index + 1) n next'
            (if is_control_register reg then true else changed)
    ]

-- The option is what goes through `control_changed`; `none` is the return of false. The callers
-- pass arrays, never null pointers.
unfoldable pub commit_write : RegisterMap → ℕ → Array → ℕ → RegisterMap × Option Bool
commit_write s start_reg bytes length =
    if length == 0 || ltb Flag.register_count (start_reg + length)
    then (s, none)
    else elim (apply_from start_reg bytes 0 length s.registers false) [
      | none ↦ (s, none)
      | some (next, changed) ↦ (
        refresh_status (record s { registers = normalize_control_state next start_reg length }),
        some changed,
      )
    ]
