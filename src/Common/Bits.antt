-- ===== src/Common/Bits.antt =====
-- Laws of `bit_and`, `bit_or` and `bit_xor`: masks of low bits, disjoint fields, and tables over bytes.
use Prim.Native.Nat.{ℕ, zero, suc, ◌+◌, ◌*◌, ◌/◌, ◌%◌, ◌^◌, ◌≤◌, ◌<◌, min, max}
use Prim.Native.Nat.{bit_and, bit_or, digits, bitwise, bit_and-bitwise, bit_or-bitwise}
use mathlib.Core.Path.{◌≡◌, refl, ap, ◌∙◌}
use mathlib.Core.Bool.{Bool, true, ◌&&◌}
use native.Mathlib.Nat.{pow-suc}
use native.Mathlib.Omega.{arith}
use guga_pi.Common.Words.{◌<<◌}

-- Every value below `n` passes.
unfoldable pub all_below : ℕ → (ℕ → Bool) → Bool
all_below zero p = true
all_below (suc n) p = p n && all_below n p

pub all_below_sound :
    (n : ℕ) (test : ℕ → Bool) (i : ℕ) → all_below n test ≡ true → i < n → test i ≡ true
unfolding all_below
all_below_sound zero test i holds lt = absurd (omega arith)
all_below_sound (suc n) test i holds lt = ground (arith, all_below_sound n test i)

-- The native operations stand for a recursion on binary digits, with the first operand as its fuel.
module _ (stop : ℕ → ℕ) (op : ℕ → ℕ → ℕ) where
  -- Two fuels that are both enough for `x` give the same number.
  enough_fuel : (x y f g : ℕ) → x ≤ f → x ≤ g → digits stop op f x y ≡ digits stop op g x y
  enough_fuel zero y zero zero _ _ = refl
  enough_fuel zero y zero (suc g) _ _ = refl
  enough_fuel zero y (suc f) zero _ _ = refl
  enough_fuel zero y (suc f) (suc g) _ _ = refl
  enough_fuel (suc x) y zero g le _ = absurd (omega arith)
  enough_fuel (suc x) y (suc f) zero _ le = absurd (omega arith)
  enough_fuel (suc x) y (suc f) (suc g) le le' =
      rw (enough_fuel (suc x / 2) (y / 2) f g (omega arith) (omega arith))

  bitwise-suc :
      (x y : ℕ)
      → bitwise stop op (suc x) y ≡ bitwise stop op (suc x / 2) (y / 2) * 2 + op (suc x % 2) (y % 2)
  bitwise-suc x y =
      let half = suc x / 2 in
      omega (arith, enough_fuel half (y / 2) x half (omega arith) (omega arith))

pub bit_or_digit : (a b : ℕ) → bit_or a b ≡ bit_or (a / 2) (b / 2) * 2 + max (a % 2) (b % 2)
bit_or_digit zero b = simp bit_or-bitwise (omega arith)
bit_or_digit (suc a) b = simp bit_or-bitwise (bitwise-suc (λ y. y) max a b)

pub bit_and_digit : (a b : ℕ) → bit_and a b ≡ bit_and (a / 2) (b / 2) * 2 + min (a % 2) (b % 2)
bit_and_digit zero b = simp bit_and-bitwise (omega arith)
bit_and_digit (suc a) b = simp bit_and-bitwise (bitwise-suc (λ y. 0) min a b)

pub zero-bit_or : (b : ℕ) → bit_or 0 b ≡ b
zero-bit_or b = simp bit_or-bitwise (omega arith)

-- Low bits `r` and a field above them do not overlap.
pub bit_or_low : (k r q : ℕ) → r < 2 ^ k → bit_or r (q * 2 ^ k) ≡ r + q * 2 ^ k
bit_or_low zero r q h = let e : r ≡ 0 = omega arith in rw e (zero-bit_or (q * 1) ∙ omega arith)
bit_or_low (suc k) r q h = ground (
  arith,
  bit_or_digit r (q * 2 ^ suc k),
  ap (λ (t : ℕ). q * t) (pow-suc 2 k),
  pow-suc 2 k,
  bit_or_low k (r / 2) q (omega (arith, pow-suc 2 k)),
)

bit_and-zero : (n a : ℕ) → a ≤ n → bit_and a 0 ≡ 0
bit_and-zero n zero h = simp bit_and-bitwise (omega arith)
bit_and-zero zero (suc a) h = absurd (omega arith)
bit_and-zero (suc n) (suc a) h =
    omega (arith, bit_and_digit (suc a) 0, bit_and-zero n (suc a / 2) (omega arith))

pub bit_and-one : (a : ℕ) → bit_and a 1 ≡ a % 2
bit_and-one a = omega (arith, bit_and_digit a 1, bit_and-zero (a / 2) (a / 2) (omega arith))

bit_and_odd : (m n a : ℕ) → n ≡ m * 2 + 1 → bit_and a n ≡ bit_and (a / 2) m * 2 + a % 2
bit_and_odd m n a e =
    let half : n / 2 ≡ m = omega arith in
    let odd : n % 2 ≡ 1 = omega arith in bit_and_digit a n ∙ rw (half, odd) (omega arith)

pub bit_and_byte : (a : ℕ) → bit_and a 0xff ≡ a % 256
bit_and_byte a = omega (
  arith,
  bit_and_odd 127 255 a refl,
  bit_and_odd 63 127 (a / 2) refl,
  bit_and_odd 31 63 (a / 2 / 2) refl,
  bit_and_odd 15 31 (a / 2 / 2 / 2) refl,
  bit_and_odd 7 15 (a / 2 / 2 / 2 / 2) refl,
  bit_and_odd 3 7 (a / 2 / 2 / 2 / 2 / 2) refl,
  bit_and_odd 1 3 (a / 2 / 2 / 2 / 2 / 2 / 2) refl,
  bit_and-one (a / 2 / 2 / 2 / 2 / 2 / 2 / 2),
)

-- Two bytes joined by a shift and an or are a number.
pub join_two : (a b : ℕ) → a < 256 → bit_or a (b << 8) ≡ a + b * 256
join_two a b h = bit_or_low 8 a b h

pub join_four :
    (a b c d : ℕ)
    → a < 256
    → b < 256
    → c < 256
    → d < 256
    → bit_or (bit_or (bit_or a (b << 8)) (c << 16)) (d << 24)
      ≡ a + b * 256 + c * 65536 + d * 16777216
join_four a b c d ha hb hc hd =
    rw
      (
        bit_or_low 8 a b ha,
        bit_or_low 16 (a + b * 256) c (omega arith),
        bit_or_low 24 (a + b * 256 + c * 65536) d (omega arith),
      )
      refl
