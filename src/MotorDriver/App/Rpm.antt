-- ===== src/MotorDriver/App/Rpm.antt =====
-- MotorDriver/app/motor_app.cpp: the speed that an encoder shows.
use native.Mathlib.Nat.{div-add-mod, mod-lt, mul-le-mul_right}
use guga_pi.Common.{
  ltb→lt, ℕ, pos, neg_ℤ, ◌≡◌, ◌≤◌, ◌<◌, ◌⊎◌, arith, nat_abs, int16, int32, ◌+◌, ◌*◌, signed, ◌/◌,
  ◌^◌, if◌then◌else◌, ltb_ℤ, Bool-cases, ltb, inl, inr, ◌-◌, refl,
}
use guga_pi.MotorDriver.App.{encoder_counts_per_second_to_rpm, rounded_rpm}

-- The quotient of a rounding division is within half a divisor of the dividend.
rounded_between :
    (x per : ℕ)
    → 0 < per
    → let n = (x + per / 2) / per in (2 * n * per ≤ 2 * x + per) × (2 * x ≤ 2 * n * per + per)
rounded_between x per h =
    let y = x + per / 2 in
    let n = y / per in
    let parts = div-add-mod y per in
    let small = mod-lt y h in
    let whole : 2 * n * per ≡ 2 * (per * n) = omega arith in
    (omega (arith, parts, small, whole), omega (arith, parts, small, whole))

-- A speed is cut at `top`, and below that it is the nearest one.
rounded_rpm-nearest :
    (m per top : ℕ)
    → 0 < per
    → let q = rounded_rpm m per top in
      (q ≤ top) × (2 * q * per ≤ 120 * m + per) × ((q ≡ top) ⊎ (120 * m ≤ 2 * q * per + per))
rounded_rpm-nearest m per top h =
    let n = (m * 60 + per / 2) / per in
    let (low, high) = rounded_between (m * 60) per h in
    elim (Bool-cases (ltb top n)) [
      | inl e ↦
          let below = mul-le-mul_right {m = top} {n = n} per (omega (arith, ltb→lt _ _ e)) in
          let left : 2 * top * per ≡ 2 * (top * per) = omega arith in
          let right : 2 * n * per ≡ 2 * (n * per) = omega arith in
          rw e (omega arith, omega (arith, low, below, left, right), inl refl)
      | inr e ↦ rw e (ground (arith, e), omega (arith, low), inr (omega (arith, high)))
    ]

-- The speed in revolutions per minute has the sign of the speed in counts per second and is within
-- the range of an int16_t; it is the nearest one, at most half a revolution per minute off, or it is
-- at the end of the range and the true speed is not more than half a revolution per minute below
-- that. It is a condition that a revolution has at least one count.
pub rpm_is_nearest :
    (counts_per_second counts_per_rev : ℕ)
    → counts_per_second < 2 ^ 32
    → 0 < counts_per_rev
    → let speed = int32 counts_per_second in
      let rpm = int16 (encoder_counts_per_second_to_rpm counts_per_second counts_per_rev) in
      let q = nat_abs rpm in
      let top : ℕ = if ltb_ℤ speed (pos 0) then 32768 else 32767 in
      (rpm ≡ (if ltb_ℤ speed (pos 0) then neg_ℤ (pos q) else pos q))
      × (q ≤ top)
      × (2 * q * counts_per_rev ≤ 120 * nat_abs speed + counts_per_rev)
      × ((q ≡ top) ⊎ (120 * nat_abs speed ≤ 2 * q * counts_per_rev + counts_per_rev))
unfolding encoder_counts_per_second_to_rpm signed
rpm_is_nearest counts per h some_count = elim (Bool-cases (ltb counts (2 ^ 31))) [
  | inl e ↦ ground (arith, rounded_rpm-nearest counts per 32767 some_count)
  | inr e ↦ ground (arith, rounded_rpm-nearest (2 ^ 32 - counts) per 32768 some_count)
]
