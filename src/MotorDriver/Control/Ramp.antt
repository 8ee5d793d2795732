-- ===== src/MotorDriver/Control/Ramp.antt =====
-- MotorDriver/control/motor_control.cpp: how the speed target approaches the requested speed.
use guga_pi.MotorDriver.Control.{SpeedPidState, advance_control_target, take_step}
use guga_pi.Common.{ℕ, ◌<◌, List, ◌*◌, ◌^◌, ◌∷◌, ◌+◌, ◌≤◌, [], ◌≡◌, arith, ◌≢◌, ◌∙◌}

-- The ramp never overshoots and never turns back: the new target lies between the old one and the
-- requested speed, for any rates and any elapsed time.
pub advance-between :
    (s : SpeedPidState) (requested accel decel elapsed : ℕ)
    → s.control_target_rpm < 2 ^ 16
    → requested < 2 ^ 16
    → let new = (advance_control_target s requested accel decel elapsed).control_target_rpm in
      (s.control_target_rpm ≤ requested → (s.control_target_rpm ≤ new) × (new ≤ requested))
      × (requested ≤ s.control_target_rpm → (requested ≤ new) × (new ≤ s.control_target_rpm))
unfolding advance_control_target take_step
advance-between s requested accel decel elapsed h k = ground arith

-- The way that a ramp makes, in thousandths of a revolution per minute.
abbrev pub travel : ℕ → List ℕ → ℕ
travel rate [] = 0
travel rate (elapsed ∷ es) = rate * elapsed + travel rate es

-- The control loop's calls, one for each elapsed time.
unfoldable pub ramp : SpeedPidState → ℕ → ℕ → ℕ → List ℕ → SpeedPidState
ramp s requested accel decel [] = s
ramp s requested accel decel (elapsed ∷ es) =
    ramp (advance_control_target s requested accel decel elapsed) requested accel decel es

-- Where the ramp is, the remainder included.
abbrev pub progress : SpeedPidState → ℕ
progress s = s.control_target_rpm * 1000 + s.ramp_remainder

advance-progress :
    (s : SpeedPidState) (requested accel decel elapsed : ℕ)
    → requested < 2 ^ 16
    → s.ramp_direction ≡ 1
    → accel ≢ 0
    → progress s + accel * elapsed < requested * 1000
    → let s' = advance_control_target s requested accel decel elapsed in
      (progress s' ≡ progress s + accel * elapsed) × (s'.ramp_direction ≡ 1)
unfolding advance_control_target take_step
advance-progress s requested accel decel elapsed h d a le = ground arith

-- A ramp that accelerates loses no fraction: as long as it has not arrived, its place after any
-- calls is its first one and the rate times the elapsed times, to a thousandth, however the time is
-- cut into calls.
pub ramp-progress :
    (s : SpeedPidState) (requested accel decel : ℕ) (es : List ℕ)
    → requested < 2 ^ 16
    → s.ramp_direction ≡ 1
    → accel ≢ 0
    → progress s + travel accel es < requested * 1000
    → progress (ramp s requested accel decel es) ≡ progress s + travel accel es
unfolding ramp
ramp-progress s requested accel decel [] h d a le = omega arith
ramp-progress s requested accel decel (elapsed ∷ es) h d a le =
    let s' = advance_control_target s requested accel decel elapsed in
    let (moved, up) = advance-progress s requested accel decel elapsed h d a (omega arith) in
    ramp-progress s' requested accel decel es h up a (omega (arith, moved)) ∙ omega (arith, moved)
