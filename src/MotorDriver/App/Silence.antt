-- ===== src/MotorDriver/App/Silence.antt =====
-- MotorDriver/app/motor_app.cpp: a silent host, and when the watchdog stops the motors.
use guga_pi.MotorDriver.RegisterMap.State.{RegisterMap, watchdog_timeout_10ms}
use guga_pi.MotorDriver.RegisterMap.Safety.{IsCoasting, force_coast_on_timeout_lem}
use guga_pi.MotorDriver.App.{
  Board, MotorApp, check_watchdog, tick_from_isr, watchdog_timeout_ms, Bool, List, ℕ,
}
use guga_pi.MotorDriver.App.Watchdog.{Event, ticks, checks, receives, i2c_writes, step, run}
use guga_pi.Common.{
  Bool, List, ℕ, ◌≡◌, arith, true, All, suc, ◌+◌, false, ◌*◌, ◌≢◌, ◌<◌, ◌^◌, ◌≤◌, sub32, ap, inl,
  ◌∙◌, inr, [], ◌⊎◌, subst, Bool-cases, ltb, ltb→lt, ◌∷◌,
}
use guga_pi.MotorDriver.RegisterMap.Status.{has_active_command}

-- Nothing arrives: time passes and the watchdog looks, in any order.
abbrev pub is_silent : Event → Bool
is_silent ticks = true
is_silent checks = true
is_silent _ = false

abbrev pub IsSilent : List Event → Type 0
IsSilent = All (λ e. is_silent e ≡ true)

abbrev pub elapsed : List Event → ℕ
elapsed [] = 0
elapsed (ticks ∷ es) = suc (elapsed es)
elapsed (_ ∷ es) = elapsed es

module _ (b : Board) where
  -- A command runs on a lease that is `age` milliseconds old.
  pub record IsLeased (age : ℕ) (s : RegisterMap) (a : MotorApp b) : Type 0 where
    pub same : a.registers ≡ s
    pub armed : a.watchdog_armed ≡ true
    pub running : a.timeout_active ≡ false
    pub now_fits : a.ms_ticks < 2 ^ 32
    pub lease_fits : a.last_watchdog_refresh_ms < 2 ^ 32
    pub aged : sub32 a.ms_ticks a.last_watchdog_refresh_ms ≡ age

  pub record IsStopped (a : MotorApp b) : Type 0 where
    pub timed_out : a.timeout_active ≡ true
    pub coasts : IsCoasting a.registers.registers
    pub idle : has_active_command a.registers ≡ false

  abbrev timeout_of : RegisterMap → ℕ
  timeout_of s = watchdog_timeout_10ms s * 10

  module _ (s : RegisterMap) (active : has_active_command s ≡ true) (on : timeout_of s ≢ 0) where
    check_expired :
        (age : ℕ) (a : MotorApp b)
        → IsLeased age s a
        → timeout_of s < age
        → IsStopped (check_watchdog b a)
    unfolding check_watchdog watchdog_timeout_ms
    check_expired age a v h =
        let runs : has_active_command a.registers ≡ true = ap has_active_command v.same ∙ active in
        let period : watchdog_timeout_10ms a.registers ≡ watchdog_timeout_10ms s =
          ap watchdog_timeout_10ms v.same in
        ground (arith, force_coast_on_timeout_lem a.registers)

    check_valid :
        (age : ℕ) (a : MotorApp b) → IsLeased age s a → age ≤ timeout_of s → check_watchdog b a ≡ a
    unfolding check_watchdog watchdog_timeout_ms
    check_valid age a v h =
        let runs : has_active_command a.registers ≡ true = ap has_active_command v.same ∙ active in
        let period : watchdog_timeout_10ms a.registers ≡ watchdog_timeout_10ms s =
          ap watchdog_timeout_10ms v.same in
        ground arith

  check-IsStopped : (a : MotorApp b) → IsStopped a → IsStopped (check_watchdog b a)
  unfolding check_watchdog
  check-IsStopped a v = ground arith

  tick-IsStopped : (a : MotorApp b) → IsStopped a → IsStopped (tick_from_isr b a)
  unfolding tick_from_isr
  tick-IsStopped a v = ground arith

  tick-IsLeased :
      (s : RegisterMap) (age : ℕ) (a : MotorApp b)
      → age + 1 < 2 ^ 32
      → IsLeased age s a
      → IsLeased (age + 1) s (tick_from_isr b a)
  unfolding tick_from_isr
  tick-IsLeased s age a h v = ground arith

  run-IsStopped :
      (a : MotorApp b) (es : List Event) → IsSilent es → IsStopped a → IsStopped (run b a es)
  unfolding run step
  run-IsStopped a [] q v = v
  run-IsStopped a (ticks ∷ es) q v = run-IsStopped (tick_from_isr b a) es q.1 (tick-IsStopped a v)
  run-IsStopped a (checks ∷ es) q v =
      run-IsStopped (check_watchdog b a) es q.1 (check-IsStopped a v)
  run-IsStopped a (receives value ∷ es) q v = cc
  run-IsStopped a (i2c_writes reg payload length ∷ es) q v = cc

  module _ (s : RegisterMap) (active : has_active_command s ≡ true) (on : timeout_of s ≢ 0) where
    silence :
        (es : List Event) (age : ℕ) (a : MotorApp b)
        → IsSilent es
        → age + elapsed es < 2 ^ 32
        → IsLeased age s a
        → IsLeased (age + elapsed es) s (run b a es)
          ⊎ (IsStopped (run b a es) × (timeout_of s < age + elapsed es))
    unfolding run step
    silence [] age a q le v =
        let e : age ≡ age + 0 = omega arith in inl (subst (λ n. IsLeased n s a) e v)
    silence (ticks ∷ es) age a q le v =
        let e : age + 1 + elapsed es ≡ age + suc (elapsed es) = omega arith in
        subst
          (λ n.
            IsLeased n s (run b (tick_from_isr b a) es)
            ⊎ (IsStopped (run b (tick_from_isr b a) es) × (timeout_of s < n)))
          e
          (silence es (age + 1) (tick_from_isr b a) q.1 (omega arith)
            (tick-IsLeased s age a (omega arith) v))
    silence (checks ∷ es) age a q le v = elim (Bool-cases (ltb (timeout_of s) age)) [
      | inl late ↦
          let over = ltb→lt _ _ late in
          inr (run-IsStopped _ es q.1 (check_expired s active on age a v over), omega arith)
      | inr soon ↦ rw (check_valid s active on age a v (ground arith)) (silence es age a q.1 le v)
    ]
    silence (receives value ∷ es) age a q le v = cc
    silence (i2c_writes reg payload length ∷ es) age a q le v = cc

    -- A host that falls silent cannot leave the motors running: from a lease that is `age`
    -- milliseconds old, with a command active and the watchdog on, after any silent run that makes
    -- the lease older than the timeout (and younger than 2^32 milliseconds) the next look of the
    -- watchdog has both motors coast, no command active and the timeout on.
    pub watchdog_stops :
        (es : List Event) (age : ℕ) (a : MotorApp b)
        → IsSilent es
        → age + elapsed es < 2 ^ 32
        → timeout_of s < age + elapsed es
        → IsLeased age s a
        → IsStopped (check_watchdog b (run b a es))
    watchdog_stops es age a q le late v = elim (silence es age a q le v) [
      | inl leased ↦ check_expired s active on (age + elapsed es) (run b a es) leased late
      | inr (stopped, over) ↦ check-IsStopped _ stopped
    ]

    -- A silent host is not stopped early: from a lease that is `age` milliseconds old, with a
    -- command active and the watchdog on, as long as the lease is not older than the timeout at its
    -- end, a silent run leaves every register as it was and the watchdog armed.
    pub watchdog_waits :
        (es : List Event) (age : ℕ) (a : MotorApp b)
        → IsSilent es
        → age + elapsed es < 2 ^ 32
        → age + elapsed es ≤ timeout_of s
        → IsLeased age s a
        → ((run b a es).registers ≡ s) × ((run b a es).watchdog_armed ≡ true)
    watchdog_waits es age a q le early v = elim (silence es age a q le v) [
      | inl leased ↦ (leased.same, leased.armed)
      | inr (stopped, over) ↦ absurd (omega arith)
    ]
