-- ===== src/Controller/MotorClient/Motion.antt =====
-- gugaPI/app/motor_driver_client.h: the motions, and the stop of both wheels. The results that they
-- fill are not null.
use guga_pi.Controller.MotorClient.Link.{Link, Client}
use guga_pi.Controller.Action.{Act, Result, done, failed, unfinished}
use guga_pi.Controller.MotorClient.Writes.{write_mode, write_target_rpm, write_target_position}
use guga_pi.Controller.MotorClient.Reads.{read_encoder, read_counts_per_rev}
use guga_pi.Controller.DriverStatus.{invalid_arg}
use guga_pi.Common.{
  ℕ, some, none, true, false, Bool, Option, if◌then◌else◌, leb, u32, List, ◌∷◌, ◌^◌, ◌+◌, [], ◌-◌,
  ltb, ◌*◌, ◌||◌, ◌/◌, ◌==◌,
}

abbrev Status : Type 0
Status = Result (Unit {0})

-- `MotionResult`; DRIVER_OK is `done tt`.
pub record MotionResult : Type 0 where
  pub read_status : Status
  pub config_status : Status
  pub target_status : Status
  pub mode_status : Status
  pub target_ack : Bool
  pub mode_ack : Bool
  pub range_error : Bool

abbrev pub init_motion_result : MotionResult
init_motion_result = record {
  read_status = done tt;
  config_status = done tt;
  target_status = done tt;
  mode_status = done tt;
  target_ack = true;
  mode_ack = true;
  range_error = false;
}

abbrev pub is_done : {A : Type 0} → Result A → Bool
is_done (done a) = true
is_done _ = false

-- The status of a call, without its result.
abbrev pub status_of : {A : Type 0} → Result A → Status
status_of (done a) = done tt
status_of (failed status) = failed status
status_of unfinished = unfinished

-- Sign and magnitude of an int32_t pattern times an unsigned factor, rounded to a 360th; `none` is
-- the return of false. Half a count rounds away from zero.
unfoldable pub degrees_to_counts : ℕ → ℕ → Option ℕ
degrees_to_counts degrees counts_per_rev =
    let negative = leb (2 ^ 31) degrees in
    let magnitude = if negative then 2 ^ 32 - degrees else degrees in
    let value = (magnitude * counts_per_rev + 180) / 360 in
    if counts_per_rev == 0
    then none
    else if ltb (if negative then 2 ^ 31 else 2 ^ 31 - 1) value
    then none
    else some (if negative then u32 (2 ^ 32 - value) else value)

-- The sum of two int32_t patterns, if it is an int32_t: both are read with an offset of 2^31.
unfoldable pub add_int32 : ℕ → ℕ → Option ℕ
add_int32 a b =
    let sum = u32 (a + 2 ^ 31) + u32 (b + 2 ^ 31) in
    if ltb sum (2 ^ 31) || leb (2 ^ 31 + 2 ^ 32) sum then none else some (u32 (a + b))

abbrev Moved : Type 0 → Type 0
Moved W = W × (Status × MotionResult)

module _ (l : Link) (fuel : ℕ) (c : Client) where
  -- The write of the mode that ends every motion.
  unfoldable pub end_motion : Bool → List ℕ → MotionResult → l.World → Moved l.World
  end_motion motor1 mode result w =
      let (w', r) = write_mode l fuel c motor1 mode w in
      (w', (r, record result { mode_status = r; mode_ack = is_done r }))

  unfoldable pub set_run : Bool → ℕ → Bool → l.World → Moved l.World
  set_run motor1 duty reverse =
      end_motion motor1 (1 ∷ duty ∷ (if reverse then 1 else 0) ∷ []) init_motion_result

  unfoldable pub set_coast : Bool → l.World → Moved l.World
  set_coast motor1 = end_motion motor1 (0 ∷ 0 ∷ []) init_motion_result

  unfoldable pub set_brake : Bool → l.World → Moved l.World
  set_brake motor1 = end_motion motor1 (2 ∷ 0 ∷ []) init_motion_result

  -- The mode after a target that was written; a target that was not ends the motion.
  unfoldable pub after_target : Bool → List ℕ → MotionResult → l.World × Status → Moved l.World
  after_target motor1 mode result (w, r) =
      let result' = record result { target_status = r; target_ack = is_done r } in
      if is_done r then end_motion motor1 mode result' w else (w, (r, result'))

  unfoldable pub set_speed : Bool → ℕ → Bool → l.World → Moved l.World
  set_speed motor1 rpm reverse w =
      after_target motor1 (3 ∷ 0 ∷ (if reverse then 1 else 0) ∷ []) init_motion_result
        (write_target_rpm l fuel c motor1 rpm w)

  unfoldable pub set_speed_mode : Bool → Bool → Act l.World (Unit {0})
  set_speed_mode motor1 reverse =
      write_mode l fuel c motor1 (3 ∷ 0 ∷ (if reverse then 1 else 0) ∷ [])

  -- `SetPositionCounts` sets up the result again.
  unfoldable pub set_position_counts : Bool → ℕ → l.World → Moved l.World
  set_position_counts motor1 target_count w =
      after_target motor1 (4 ∷ 0 ∷ 0 ∷ []) init_motion_result
        (write_target_position l fuel c motor1 target_count w)

  unfoldable pub hold : Bool → l.World → Moved l.World
  hold motor1 w =
      let (w1, r) = read_encoder l fuel c motor1 w in
      let result = record init_motion_result { read_status = status_of r } in
      elim r [
        | done encoder ↦ set_position_counts motor1 encoder.count w1
        | failed status ↦ (w1, (failed status, result))
        | unfinished ↦ (w1, (unfinished, result))
      ]

  abbrev out_of_range : MotionResult
  out_of_range = record init_motion_result { range_error = true }

  unfoldable pub set_position : Bool → ℕ → l.World → Moved l.World
  set_position motor1 degrees w =
      let (w1, r) = read_counts_per_rev l fuel c w in
      let result = record init_motion_result { config_status = status_of r } in
      elim r [
        | failed status ↦ (w1, (failed status, result))
        | unfinished ↦ (w1, (unfinished, result))
        | done counts ↦ elim (degrees_to_counts degrees (if motor1 then counts.m1 else counts.m2)) [
          | none ↦ (w1, (failed invalid_arg, out_of_range))
          | some target ↦ set_position_counts motor1 target w1
        ]
      ]

  -- From the read of the encoder on.
  unfoldable pub move_by : Bool → ℕ → l.World → Moved l.World
  move_by motor1 delta w =
      let (w1, r) = read_encoder l fuel c motor1 w in
      let result = record init_motion_result { read_status = status_of r } in
      elim r [
        | failed status ↦ (w1, (failed status, result))
        | unfinished ↦ (w1, (unfinished, result))
        | done encoder ↦ elim (add_int32 encoder.count delta) [
          | none ↦ (w1, (failed invalid_arg, out_of_range))
          | some target ↦ set_position_counts motor1 target w1
        ]
      ]

  unfoldable pub set_position_relative : Bool → ℕ → l.World → Moved l.World
  set_position_relative motor1 degrees w =
      let (w1, r) = read_counts_per_rev l fuel c w in
      let result = record init_motion_result { config_status = status_of r } in
      elim r [
        | failed status ↦ (w1, (failed status, result))
        | unfinished ↦ (w1, (unfinished, result))
        | done counts ↦ elim (degrees_to_counts degrees (if motor1 then counts.m1 else counts.m2)) [
          | none ↦ (w1, (failed invalid_arg, out_of_range))
          | some delta ↦ move_by motor1 delta w1
        ]
      ]

  -- One wheel: a second try after a failure.
  unfoldable pub coast_twice : Bool → l.World → l.World × Status
  coast_twice motor1 w =
      let (w1, first) = set_coast motor1 w in
      let (w2, second) = set_coast motor1 w1 in
      if is_done first.0 then (w1, first.0) else (w2, second.0)

  -- `Stop`: the two statuses of `StopResult` and the status returned.
  unfoldable pub stop : l.World → l.World × (Status × Status × Status)
  stop w =
      let (w1, m1_status) = coast_twice true w in
      let (w2, m2_status) = coast_twice false w1 in
      (w2, (m1_status, m2_status, if is_done m1_status then m2_status else m1_status))
