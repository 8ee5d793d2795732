-- ===== src/MotorDriver/RegisterMap/Stores.antt =====
-- MotorDriver/protocol/register_map.cpp: which registers a write from the bus changes, and to what.
use guga_pi.MotorDriver.Reg
use guga_pi.MotorDriver.Flag
use guga_pi.MotorDriver.RegisterMap.State.{RegisterMap}
use guga_pi.Common.{
  Array, ℕ, if◌then◌else◌, ◌≡◌, ◌==◌, some, leb, Bool, u8, update, ◌+◌, bit_and, arith, ◌&&◌, ◌≤◌,
  ◌-◌, ltb, suc, none, Option-cases, inl, inr, true, zero, one_of, ◌∷◌, false, [], ◌<◌, ap, ◌∙◌,
}
use guga_pi.MotorDriver.RegisterMap.Write.{
  apply_write_to, apply_from, is_control_register, normalize_control_state, normalize_motor,
  commit_write,
}
use guga_pi.MotorDriver.RegisterMap.Status.{refresh_status, clear_motor_motion}

-- What an accepted byte leaves in a register: the fault flags are cleared by ones.
abbrev pub stored : Array → ℕ → ℕ → ℕ
stored t reg value = if reg == Reg.fault_flags then u8 (bit_and (t reg) (255 - value)) else value

pub apply_write_to-stored :
    (t : Array) (reg value : ℕ) {t' : Array}
    → apply_write_to t reg value ≡ some t'
    → t' ≡ update t reg (stored t reg value)
unfolding apply_write_to
apply_write_to-stored t reg value h = ground arith

module _ (start_reg : ℕ) (bytes : Array) where
  -- What the loop leaves in a register, started at `index` with `n` bytes to go.
  abbrev pub expected : ℕ → ℕ → Array → ℕ → ℕ
  expected index n next r =
      if leb (start_reg + index) r && ltb r (start_reg + index + n)
      then stored next r (bytes (r - start_reg))
      else next r

  pub apply_from-expected :
      (n index : ℕ) (next : Array) (changed : Bool) {next' : Array} {changed' : Bool} (r : ℕ)
      → start_reg + index + n ≤ Flag.register_count
      → apply_from start_reg bytes index n next changed ≡ some (next', changed')
      → next' r ≡ expected index n next r
  unfolding apply_from
  apply_from-expected zero index next changed r le h = ground arith
  apply_from-expected (suc n) index next changed {next'} r le h =
      elim (Option-cases (apply_write_to next (u8 (start_reg + index)) (bytes index))) [
        | inl e ↦ absurd (no_result (rw (e, apply_from) at h))
        | inr (t, e) ↦ ground (
          arith,
          apply_write_to-stored next (u8 (start_reg + index)) (bytes index) e,
          apply_from-expected n (index + 1) t
              (if is_control_register (u8 (start_reg + index)) then true else changed) r
              (omega arith) (rw (e, apply_from) at h),
        )
      ]
    where
      no_result : {a : Array × Bool} → none ≡ some a → ⊥
      no_result p = cc

-- The registers that the stop and the status refresh may change besides.
abbrev pub is_derived : ℕ → Bool
is_derived r = one_of r (
    Reg.status ∷ Reg.m1_status ∷ Reg.m2_status ∷ Reg.position_status ∷ Reg.m1_mode ∷ Reg.m1_duty
    ∷ Reg.m1_target_rpm_0 ∷ Reg.m1_target_rpm_1 ∷ Reg.m2_mode ∷ Reg.m2_duty ∷ Reg.m2_target_rpm_0
    ∷ Reg.m2_target_rpm_1 ∷ [])

pub refresh_status-other :
    (s : RegisterMap) (r : ℕ)
    → is_derived r ≡ false
    → (refresh_status s).registers r ≡ s.registers r
unfolding refresh_status
refresh_status-other s r h = ground arith

normalize-other :
    (t : Array) (start_reg length r : ℕ)
    → is_derived r ≡ false
    → normalize_control_state t start_reg length r ≡ t r
unfolding normalize_control_state normalize_motor clear_motor_motion
normalize-other t start_reg length r h = ground arith

module _ (s : RegisterMap) (start_reg : ℕ) (bytes : Array) (length : ℕ) where
  pub commit_write_range :
      {s' : RegisterMap} {changed : Bool}
      → commit_write s start_reg bytes length ≡ (s', some changed)
      → (0 < length) × (start_reg + length ≤ Flag.register_count)
  unfolding commit_write
  commit_write_range h = ground arith

  -- An accepted write leaves, after its loop, an array that it then normalises and refreshes.
  pub commit_write_accepted :
      {s' : RegisterMap} {changed : Bool}
      → commit_write s start_reg bytes length ≡ (s', some changed)
      → (next : Array) × (apply_from start_reg bytes 0 length s.registers false
          ≡ some (next, changed))
        × (s'
            ≡ refresh_status
                (record s { registers = normalize_control_state next start_reg length }))
  unfolding commit_write
  commit_write_accepted h =
      elim (Option-cases (apply_from start_reg bytes 0 length s.registers false)) [
        | inl e ↦ absurd (ground arith)
        | inr ((next, changed), e) ↦ (next, ground arith, ground arith)
      ]

  -- An accepted write stores its bytes in the registers that it addresses, each byte in its own,
  -- and leaves every other register, and what lies behind the array, as it was. (The derived
  -- registers, which the mode rules and the status refresh compute, are left out.)
  pub commit_write-stores :
      (r : ℕ) {s' : RegisterMap} {changed : Bool}
      → commit_write s start_reg bytes length ≡ (s', some changed)
      → is_derived r ≡ false
      → s'.registers r ≡ (
          if leb start_reg r && ltb r (start_reg + length)
          then stored s.registers r (bytes (r - start_reg))
          else s.registers r)
  commit_write-stores r {s' = s'} h d =
      let (pos, le) = commit_write_range h in
      let (next, e, final) = commit_write_accepted h in
      let t : RegisterMap = record s {
        registers = normalize_control_state next start_reg length;
      } in
      ap (λ (x : RegisterMap). x.registers r) final
      ∙ refresh_status-other t r d
      ∙ normalize-other next start_reg length r d
      ∙ apply_from-expected start_reg bytes length 0 s.registers false r (omega arith) e
      ∙ ground arith

-- A refused write changes nothing.
pub commit_write_refused :
    (s : RegisterMap) (start_reg : ℕ) (bytes : Array) (length : ℕ)
    → (commit_write s start_reg bytes length).1 ≡ none
    → (commit_write s start_reg bytes length).0 ≡ s
unfolding commit_write
commit_write_refused s start_reg bytes length h = ground arith
