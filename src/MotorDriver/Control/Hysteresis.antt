-- ===== src/MotorDriver/Control/Hysteresis.antt =====
-- MotorDriver/control/motor_control.cpp: when the position loop drives the motor and when it rests.
use guga_pi.MotorDriver.RegisterMap.State.{
  RegisterMap, position_tolerance, position_exit_tolerance, position_max_rpm, position_max_duty,
  position_min_duty, position_settle_ms,
}
use guga_pi.MotorDriver.Control.{SpeedPidState, ℕ, ℤ}
use guga_pi.MotorDriver.Control.Position.{
  update_at_target, position_drive, position_command_q4, next_position_integral, has_position_gain,
  position_command_rpm, sign_changed,
}
use guga_pi.MotorDriver.Control.Pid.{command_rpm_from_q4, time_before, sign_of_int32}
use guga_pi.Common.{
  ℕ, ◌≡◌, if◌then◌else◌, true, false, ltb, nat_abs, ◌<◌, ◌≤◌, arith, ◌^◌, Bool, ◌+◌, signed, pos,
  ◌⊎◌, ltb_ℤ, ◌-◌, leb, ◌%◌, Bool-cases, ◌&&◌, suc, inl, ◌||◌, negsuc, inr, zero, refl,
}
use guga_pi.MotorDriver.Control.Duty.{capped, position_duty-between}

-- The tolerance for leaving the target, which is not below the one for reaching it.
abbrev pub leaving_tolerance : RegisterMap → ℕ
leaving_tolerance r =
    if ltb (position_exit_tolerance r) (position_tolerance r)
    then position_tolerance r
    else position_exit_tolerance r

-- Whether the errors are on the two sides of the target.
abbrev pub crosses : ℤ → ℤ → Bool
crosses previous error =
    ltb_ℤ previous (pos 0) && ltb_ℤ (pos 0) error || ltb_ℤ (pos 0) previous && ltb_ℤ error (pos 0)

sign_changed-crosses : (previous error : ℤ) → sign_changed previous error ≡ crosses previous error
unfolding sign_changed sign_of_int32
sign_changed-crosses (pos zero) error = ground arith
sign_changed-crosses (pos (suc a)) (pos zero) = ground arith
sign_changed-crosses (pos (suc a)) (pos (suc b)) = ground arith
sign_changed-crosses (pos (suc a)) (negsuc b) = ground arith
sign_changed-crosses (negsuc a) (pos zero) = ground arith
sign_changed-crosses (negsuc a) (pos (suc b)) = ground arith
sign_changed-crosses (negsuc a) (negsuc b) = ground arith

-- The time since a deadline on the clock of 32 bits; the upper half of the range is before it.
abbrev pub time_since : ℕ → ℕ → ℕ
time_since now deadline = (now + 2 ^ 32 - deadline) % 2 ^ 32

time_before_lem :
    (now deadline : ℕ) → time_before now deadline ≡ leb (2 ^ 31) (time_since now deadline)
unfolding time_before signed
time_before_lem now deadline = ground arith

-- A motor that has just reached its target: its integral is gone and its settling time begins.
abbrev pub reached : RegisterMap → SpeedPidState → ℕ → SpeedPidState
reached r s now = record s {
  position_at_target = true;
  position_integral_q4 = pos 0;
  position_settle_until_ms = (now + position_settle_ms r) % 2 ^ 32;
}

-- What a round of the position loop makes of the state, for an error at a time.
pub data Change (r : RegisterMap) (s : SpeedPidState) (error : ℤ) (now : ℕ)
    : SpeedPidState → Type 0 where
  stays_off :
      s.position_at_target ≡ false
      → crosses s.previous_position_error error ≡ false
      → position_tolerance r < nat_abs error
      → Change r s error now s
  arrives :
      s.position_at_target ≡ false
      → nat_abs error ≤ position_tolerance r
      → Change r s error now (reached r s now)
  passes :
      s.position_at_target ≡ false
      → crosses s.previous_position_error error ≡ true
      → (0 < position_settle_ms r) ⊎ (nat_abs error ≤ leaving_tolerance r)
      → Change r s error now (reached r s now)
  overshoots :
      s.position_at_target ≡ false
      → crosses s.previous_position_error error ≡ true
      → position_settle_ms r ≡ 0
      → leaving_tolerance r < nat_abs error
      → Change r s error now (record (reached r s now) { position_at_target = false })
  rests :
      s.position_at_target ≡ true
      → (2 ^ 31 ≤ time_since now s.position_settle_until_ms) ⊎ (nat_abs error ≤ leaving_tolerance r)
      → Change r s error now s
  leaves :
      s.position_at_target ≡ true
      → time_since now s.position_settle_until_ms < 2 ^ 31
      → leaving_tolerance r < nat_abs error
      → Change r s error now (record s { position_at_target = false })

at_target-Change :
    (r : RegisterMap) (s : SpeedPidState) (error : ℤ) (now : ℕ)
    → s.position_at_target ≡ true
    → Change r s error now (update_at_target r s error now)
unfolding update_at_target
at_target-Change r s error now on =
    let since = time_since now s.position_settle_until_ms in
    let waits = time_before_lem now s.position_settle_until_ms in
    elim (Bool-cases (leb (2 ^ 31) since || leb (nat_abs error) (leaving_tolerance r))) [
      | inl stay ↦
          let e : update_at_target r s error now ≡ s = ground (arith, on, stay, waits) in
          rw e (rests on (ground (arith, stay)))
      | inr go ↦
          let gone : SpeedPidState = record s { position_at_target = false } in
          let e : update_at_target r s error now ≡ gone = ground (arith, on, go, waits) in
          rw e (leaves on (ground (arith, go)) (ground (arith, go)))
    ]

-- A settling time that begins is over at once when it is zero.
settling_begins :
    (r : RegisterMap) (now : ℕ)
    → now < 2 ^ 32
    → time_before now ((now + position_settle_ms r) % 2 ^ 32) ≡ ltb 0 (position_settle_ms r)
unfolding time_before signed
settling_begins r now h = ground arith

off_target-Change :
    (r : RegisterMap) (s : SpeedPidState) (error : ℤ) (now : ℕ)
    → now < 2 ^ 32
    → s.position_at_target ≡ false
    → Change r s error now (update_at_target r s error now)
unfolding update_at_target
off_target-Change r s error now h off =
    let s' = update_at_target r s error now in
    let begins = settling_begins r now h in
    let side = crosses s.previous_position_error error in
    let crossing = sign_changed-crosses s.previous_position_error error in
    let kept = ltb 0 (position_settle_ms r) || leb (nat_abs error) (leaving_tolerance r) in
    elim (Bool-cases (leb (nat_abs error) (position_tolerance r))) [
      | inl near ↦
          let e : s' ≡ reached r s now = ground (arith, off, near, begins) in
          rw e (arrives off (ground (arith, near)))
      | inr far ↦ elim (Bool-cases side) [
        | inr same ↦
            let e : s' ≡ s = ground (arith, off, far, same, crossing) in
            rw e (stays_off off same (ground (arith, far)))
        | inl other ↦ elim (Bool-cases kept) [
          | inl held ↦
              let e : s' ≡ reached r s now =
                ground (arith, off, far, other, crossing, begins, held) in
              rw e (passes off other (ground (arith, held)))
          | inr lost ↦
              let gone : SpeedPidState = record (reached r s now) { position_at_target = false } in
              let e : s' ≡ gone = ground (arith, off, far, other, crossing, begins, lost) in
              rw e (overshoots off other (ground (arith, lost)) (ground (arith, lost)))
        ]
      ]
    ]

change_lem :
    (r : RegisterMap) (s : SpeedPidState) (error : ℤ) (now : ℕ)
    → now < 2 ^ 32
    → Change r s error now (update_at_target r s error now)
change_lem r s error now h = elim (Bool-cases s.position_at_target) [
  | inl on ↦ at_target-Change r s error now on
  | inr off ↦ off_target-Change r s error now h off
]

-- The hysteresis of the position loop, on a clock of 32 bits. A motor off its target stays so
-- unless its error comes within the tolerance or changes its side; then it counts as at its target,
-- its integral is cleared and its settling time begins, but one that passes the target without a
-- settling time and beyond the tolerance for leaving is off it again at once. A motor at its target
-- stays so, its state unchanged, while the settling time runs or the error is within the tolerance
-- for leaving, and is off it otherwise. And a motor that is at its target afterwards is given no
-- duty and no speed.
pub at_target_hysteresis :
    (r : RegisterMap) (s : SpeedPidState) (error previous : ℤ) (per now : ℕ)
    → now < 2 ^ 32
    → let s' = update_at_target r s error now in
      let d = position_drive r s' error previous per in
      Change r s error now s'
      × ((s'.position_at_target ≡ false) ⊎ ((d.output_duty ≡ 0) × (d.command_rpm ≡ 0)))
unfolding position_drive
at_target_hysteresis r s error previous per now h = (
  change_lem r s error now h,
  elim (Bool-cases (update_at_target r s error now).position_at_target) [
    | inl on ↦ rw on (inr (refl, refl))
    | inr off ↦ inl off
  ],
)

abbrev command : RegisterMap → SpeedPidState → ℤ → ℤ → ℕ → ℤ
command r s error previous per =
    position_command_q4 r error previous (next_position_integral r s error per) per

command-positive :
    (r : RegisterMap) (command_q4 error : ℤ)
    → position_tolerance r < nat_abs error
    → 0 < position_max_rpm r
    → position_max_rpm r < 2 ^ 16
    → has_position_gain r ≡ true
    → (0 < position_command_rpm r command_q4 error)
      × (position_command_rpm r command_q4 error ≤ position_max_rpm r)
unfolding command_rpm_from_q4
command-positive r command_q4 error far top fits gain = ground arith

-- A motor off its target is driven: with some gain, a speed limit and a duty limit set and an error
-- beyond the tolerance, the position loop asks for a speed of at least one revolution per minute,
-- within the speed limit, and for at least the lower duty limit, whatever its integral and the last
-- error are.
pub off_target_drives :
    (r : RegisterMap) (s : SpeedPidState) (error previous : ℤ) (per : ℕ)
    → s.position_at_target ≡ false
    → position_tolerance r < nat_abs error
    → 0 < position_max_rpm r
    → position_max_rpm r < 2 ^ 16
    → has_position_gain r ≡ true
    → let d = position_drive r s error previous per in
      (0 < d.command_rpm)
      × (d.command_rpm ≤ position_max_rpm r)
      × (capped (capped 100 (position_max_duty r)) (capped 100 (position_min_duty r))
          ≤ d.output_duty)
unfolding position_drive
off_target_drives r s error previous per off far top fits gain =
    let rpm = position_command_rpm r (command r s error previous per) error in
    let (low, high) = command-positive r (command r s error previous per) error far top fits gain in
    let least =
      (position_duty-between rpm (position_max_rpm r) (position_min_duty r) (position_max_duty r)
        fits).2 in
    rw off (low, high, least (omega (arith, low)) (omega arith))
