-- ===== src/MotorDriver/RegisterMap/Limits.antt =====
-- MotorDriver/protocol/register_map.cpp: the range of each register, which every method keeps.
use guga_pi.MotorDriver.Reg
use guga_pi.MotorDriver.Flag
use guga_pi.MotorDriver.RegisterMap.Stores.{stored, apply_write_to-stored}
use guga_pi.Common.{
  ℕ, Array, all_below, Bool, if◌then◌else◌, ◌<◌, ◌≤◌, bit_and, ◌==◌, update, ◌!=◌, ◌≡◌, u8, ◌||◌,
  Bool-cases, arith, ◌-◌, some, inl, leb, all_below_sound, inr, ◌&&◌, true, refl, none, leb→le, ◌+◌,
  ◌⊎◌, false, subst, suc, Option-cases, zero,
}
use guga_pi.MotorDriver.RegisterMap.Write.{
  apply_write_to, is_plain_register, apply_from, normalize_motor, normalize_control_state,
  is_written,
}
use guga_pi.MotorDriver.RegisterMap.Status.{clear_motor_motion}

abbrev either : ℕ → ℕ → ℕ → Bool
either r a b = r == a || r == b

-- The largest value that a register may hold.
unfoldable pub limit : ℕ → ℕ
limit r =
    if r == Reg.fault_flags
    then 1
    else if r == Reg.control_flags
    then 1
    else if either r Reg.output_invert_flags Reg.encoder_invert_flags
    then 3
    else if r == Reg.i2c_address
    then 0x77
    else if either r Reg.m1_mode Reg.m2_mode
    then Flag.motor_mode_position
    else if either r Reg.m1_duty Reg.m2_duty
    then 100
    else if either r Reg.m1_direction Reg.m2_direction
    then Flag.motor_direction_reverse
    else if r == Reg.watchdog_timeout
    then 255
    else if r == Reg.encoder_control
    then 3
    else if is_plain_register r
    then 255
    else if either r Reg.speed_max_duty Reg.speed_min_duty
        || either r Reg.position_min_duty Reg.position_max_duty
    then 100
    else 255

-- Every register holds a byte in its range.
abbrev pub IsWithin : Array → Type 0
IsWithin t = (r : ℕ) → r < Flag.register_count → t r ≤ limit r

abbrev pub AreBytes : Array → ℕ → Type 0
AreBytes a n = (i : ℕ) → i < n → a i < 256

pub update-IsWithin : (t : Array) (i v : ℕ) → IsWithin t → v ≤ limit i → IsWithin (update t i v)
update-IsWithin t i v h le r lt = elim (Bool-cases (r == i)) [
  | inl e ↦ let same : r ≡ i = ground arith in rw (e, same) le
  | inr e ↦ rw e (h r lt)
]

no_result : {a : Array × Bool} → none ≡ some a → ⊥
no_result p = cc

mask_table :
    all_below 256 (λ v. (bit_and v 254 != 0 || leb v 1) && (bit_and v 252 != 0 || leb v 3)) ≡ true
unfolding all_below
mask_table = refl

masks : (v : ℕ) → v < 256 → ((bit_and v 254 ≡ 0) → v ≤ 1) × ((bit_and v 252 ≡ 0) → v ≤ 3)
masks v h = ground (
  arith,
  all_below_sound 256 (λ v. (bit_and v 254 != 0 || leb v 1) && (bit_and v 252 != 0 || leb v 3)) v
      mask_table h,
)

flag_table : all_below 2 (λ t. all_below 2 (λ v. leb (u8 (bit_and t (255 - v))) 1)) ≡ true
unfolding all_below
flag_table = refl

clear_flag : (t v : ℕ) → t ≤ 1 → v ≤ 1 → u8 (bit_and t (255 - v)) ≤ 1
clear_flag t v h k = leb→le _ _ (
    all_below_sound 2 (λ v. leb (u8 (bit_and t (255 - v))) 1) v
      (all_below_sound 2 (λ t. all_below 2 (λ v. leb (u8 (bit_and t (255 - v))) 1)) t flag_table
        (omega arith))
      (omega arith))

apply_write_to-limit :
    (t : Array) (reg value : ℕ) {t' : Array}
    → value < 256
    → t reg ≤ limit reg
    → apply_write_to t reg value ≡ some t'
    → stored t reg value ≤ limit reg
unfolding apply_write_to limit
apply_write_to-limit t reg value lt h e = ground (arith, masks value lt, clear_flag (t reg) value)

-- The loop of an accepted write keeps the ranges.
pub apply_from-IsWithin :
    (start_reg : ℕ) (bytes : Array) (n index : ℕ) (next : Array) (changed : Bool) {next' : Array}
    {changed' : Bool}
    → start_reg + index + n ≤ Flag.register_count
    → ((i : ℕ) → i < index + n → bytes i < 256)
    → IsWithin next
    → apply_from start_reg bytes index n next changed ≡ some (next', changed')
    → IsWithin next'
unfolding apply_from
apply_from-IsWithin start_reg bytes zero index next changed {next' = next'} le b w h =
    let e : next ≡ next' = ground arith in subst IsWithin e w
apply_from-IsWithin start_reg bytes (suc n) index next changed le b w h =
    elim (Option-cases (apply_write_to next (u8 (start_reg + index)) (bytes index))) [
      | inl e ↦ absurd (no_result (rw (e, apply_from) at h))
      | inr (t, e) ↦
          apply_from-IsWithin start_reg bytes n (index + 1) t _ (omega arith)
            (λ i lt. b i (omega arith)) (kept t e) (rw (e, apply_from) at h)
    ]
  where
    reg : ℕ
    reg = u8 (start_reg + index)

    kept : (t : Array) → apply_write_to next reg (bytes index) ≡ some t → IsWithin t
    kept t e =
        let small = b index (omega arith) in
        rw (apply_write_to-stored next reg (bytes index) e) (
          update-IsWithin next reg _ w
            (apply_write_to-limit next reg (bytes index) small (w reg (omega arith)) e))

pub clear_motor_motion-or-zero :
    (t : Array) (motor1 : Bool) (r : ℕ)
    → (clear_motor_motion t motor1 r ≡ t r) ⊎ (clear_motor_motion t motor1 r ≡ 0)
unfolding clear_motor_motion
clear_motor_motion-or-zero t motor1 r = ground arith

normalize_motor-or-zero :
    (t : Array) (motor1 written : Bool) (r : ℕ)
    → (normalize_motor t motor1 written r ≡ t r) ⊎ (normalize_motor t motor1 written r ≡ 0)
unfolding normalize_motor
normalize_motor-or-zero t motor1 written r = ground (arith, clear_motor_motion-or-zero t motor1 r)

pub normalize-IsWithin :
    (t : Array) (start_reg length : ℕ)
    → IsWithin t
    → IsWithin (normalize_control_state t start_reg length)
unfolding normalize_control_state
normalize-IsWithin t start_reg length w r lt =
    let once = normalize_motor t true (is_written start_reg length Reg.m1_mode) in
    ground (
      arith,
      w r lt,
      clear_motor_motion-or-zero t true r,
      clear_motor_motion-or-zero (clear_motor_motion t true) false r,
      normalize_motor-or-zero t true (is_written start_reg length Reg.m1_mode) r,
      normalize_motor-or-zero once false (is_written start_reg length Reg.m2_mode) r,
    )
