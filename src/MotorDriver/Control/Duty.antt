-- ===== src/MotorDriver/Control/Duty.antt =====
-- MotorDriver/control/motor_control.cpp: the duty that a position command asks for.
use native.Mathlib.Nat.{mul-le-mul_right, suc-mul, mul-add, mul_comm, div-lt_iff_lt-mul}
use guga_pi.Common.{
  ℕ, if◌then◌else◌, ◌≤◌, ◌<◌, ltb, ◌==◌, ◌*◌, ◌^◌, ◌||◌, ◌+◌, ◌≢◌, leb, ◌/◌, u8, ◌≡◌, u16, u32, ◌-◌,
  arith, suc,
}

abbrev pub capped : ℕ → ℕ → ℕ
capped top value = if ltb top value then top else value

unfoldable pub position_duty_from_command : ℕ → ℕ → ℕ → ℕ → ℕ
position_duty_from_command command_rpm max_rpm min_duty max_duty =
    let high = capped 100 max_duty in
    let low = capped high (capped 100 min_duty) in
    if command_rpm == 0 || max_rpm == 0 || high == 0
    then 0
    else if leb max_rpm command_rpm
    then high
    else u8 (low + u16 (u32 (command_rpm * u16 (high - low) + max_rpm / 2) / max_rpm))

-- The rounded share of the span does not wrap and does not leave the span.
share_fits :
    (command span rpm : ℕ)
    → command < rpm
    → span ≤ 100
    → rpm < 2 ^ 16
    → u16 (u32 (command * u16 span + rpm / 2) / rpm) ≤ span
share_fits command span rpm h s r =
    let top : command * span ≤ 65536 * span = mul-le-mul_right span (omega arith) in
    let next : suc command * span ≤ rpm * span = mul-le-mul_right span h in
    let one_more : suc command * span ≡ command * span + span = suc-mul command span in
    let wide : rpm * (span + 1) ≡ rpm * span + rpm * 1 = mul-add rpm span 1 in
    let swap : (span + 1) * rpm ≡ rpm * (span + 1) = mul_comm (span + 1) rpm in
    let pos : 0 < rpm = omega arith in
    let small : u16 span ≡ span = omega arith in
    let exact : u32 (command * span + rpm / 2) ≡ command * span + rpm / 2 = omega arith in
    let below : (command * span + rpm / 2) / rpm < span + 1 =
      (div-lt_iff_lt-mul pos).1 (omega (arith, next, one_more, wide, swap)) in
    rw (small, exact) (omega (arith, below))

-- The duty of a position command is at most the upper limit and at most 100 percent; a command that
-- asks for a speed gets at least the lower limit, cut to the upper one, and no speed gets no duty.
pub position_duty-between :
    (command_rpm max_rpm min_duty max_duty : ℕ)
    → max_rpm < 2 ^ 16
    → let duty = position_duty_from_command command_rpm max_rpm min_duty max_duty in
      (duty ≤ max_duty)
      × (duty ≤ 100)
      × (command_rpm ≢ 0 → max_rpm ≢ 0 → capped (capped 100 max_duty) (capped 100 min_duty) ≤ duty)
      × (command_rpm ≡ 0 → duty ≡ 0)
unfolding position_duty_from_command
position_duty-between command_rpm max_rpm min_duty max_duty k =
    let high = capped 100 max_duty in
    let low = capped high (capped 100 min_duty) in
    ground (
      arith,
      λ (h : command_rpm < max_rpm). share_fits command_rpm (high - low) max_rpm h (ground arith) k,
    )
