-- ===== src/MotorDriver/RegisterMap/ReadOnly.antt =====
-- MotorDriver/protocol/register_map.cpp: the registers that a write from the bus may not address.
use guga_pi.MotorDriver.Reg
use guga_pi.MotorDriver.Flag
use guga_pi.MotorDriver.RegisterMap.State.{RegisterMap}
use guga_pi.Common.{
  Array, ℕ, ◌≡◌, ◌==◌, some, leb, Bool, u8, ◌+◌, arith, ◌&&◌, ◌≤◌, suc, none, Option-cases, inl,
  inr, true, zero, false, ◌||◌, all_below, all_below_sound, ◌<◌, not, ◌∙◌, refl, Bool-cases, sym,
}
use guga_pi.MotorDriver.RegisterMap.Write.{
  apply_write_to, apply_from, commit_write, is_plain_register,
}

-- The registers that no write may address: the identification, the status bytes, the measurements,
-- the telemetry and the addresses without a register.
unfoldable pub is_read_only : ℕ → Bool
is_read_only r =
    leb r 0x02
    || (leb 0x08 r && leb r 0x0F)
    || (leb 0x13 r && leb r 0x1F)
    || (leb 0x23 r && leb r 0x2F)
    || (leb 0x36 r && leb r 0x39)
    || r == 0x3F
    || (leb 0x48 r && leb r 0x4F)
    || (leb 0x58 r && leb r 0x5F)
    || r == 0x67
    || (leb 0x6D r && leb r 0x7A)

-- The labels of the `switch` of `ApplyWriteTo`.
is_label : ℕ → Bool
is_label r =
    r == Reg.fault_flags
    || r == Reg.control_flags
    || r == Reg.output_invert_flags
    || r == Reg.encoder_invert_flags
    || r == Reg.i2c_address
    || r == Reg.m1_mode
    || r == Reg.m2_mode
    || r == Reg.m1_duty
    || r == Reg.m2_duty
    || r == Reg.m1_direction
    || r == Reg.m2_direction
    || r == Reg.watchdog_timeout
    || r == Reg.encoder_control
    || is_plain_register r
    || r == Reg.speed_max_duty
    || r == Reg.speed_min_duty
    || r == Reg.position_min_duty
    || r == Reg.position_max_duty

label_table : all_below 127 (λ r. not (is_read_only r && is_label r)) ≡ true
unfolding all_below is_plain_register is_label is_read_only
label_table = refl

apply_write_to-other :
    (t : Array) (reg value : ℕ) → is_label reg ≡ false → apply_write_to t reg value ≡ none
unfolding apply_write_to is_label
apply_write_to-other t reg value h = ground arith

apply_write_to-read_only :
    (t : Array) (reg value : ℕ)
    → reg < 127
    → is_read_only reg ≡ true
    → apply_write_to t reg value ≡ none
apply_write_to-read_only t reg value lt h = apply_write_to-other t reg value (
    ground
      (arith, all_below_sound 127 (λ r. not (is_read_only r && is_label r)) reg label_table lt))

some_ne_none : {a : Array} → some a ≡ none → ⊥
some_ne_none p = cc

module _ (start_reg : ℕ) (bytes : Array) where
  apply_from-read_only :
      (n index : ℕ) (next : Array) (changed : Bool) (r : ℕ)
      → start_reg + index + n ≤ Flag.register_count
      → start_reg + index ≤ r
      → r < start_reg + index + n
      → is_read_only r ≡ true
      → apply_from start_reg bytes index n next changed ≡ none
  unfolding apply_from
  apply_from-read_only zero index next changed r le lo hi h = absurd (omega arith)
  apply_from-read_only (suc n) index next changed r le lo hi h =
      elim (Option-cases (apply_write_to next (u8 (start_reg + index)) (bytes index))) [
        | inl e ↦ rw (e, apply_from)
        | inr (t, e) ↦
            rw (e, apply_from)
              (apply_from-read_only n (index + 1) t _ r (omega arith) (above t e) (omega arith) h)
      ]
    where
      above :
          (t : Array)
          → apply_write_to next (u8 (start_reg + index)) (bytes index) ≡ some t
          → start_reg + (index + 1) ≤ r
      above t e = elim (Bool-cases (start_reg + index == r)) [
        | inl same ↦
            let here : u8 (start_reg + index) ≡ r = ground arith in
            let refused = apply_write_to-read_only next r (bytes index) (omega arith) h in
            absurd (some_ne_none (sym e ∙ rw here refused))
        | inr other ↦ ground arith
      ]

-- A write that addresses a read-only register anywhere in its range is refused whole: no register
-- changes, the writable ones before it included.
pub commit_write-read_only :
    (s : RegisterMap) (start_reg : ℕ) (bytes : Array) (length r : ℕ)
    → start_reg ≤ r
    → r < start_reg + length
    → is_read_only r ≡ true
    → commit_write s start_reg bytes length ≡ (s, none)
unfolding commit_write
commit_write-read_only s start_reg bytes length r lo hi h =
    ground (arith, apply_from-read_only start_reg bytes length 0 s.registers false r)
