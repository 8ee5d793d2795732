-- ===== src/Controller/Ina219Protection/Debounce.antt =====
-- gugaPI/app/ina219_protection.cpp: a fault trips and clears after consecutive samples only.
use guga_pi.Controller.Ina219Protection.{
  ProtectionState, Counters, update_fault, activate_fault, cleared, ℕ,
}
use guga_pi.Controller.Ina219Protection.Masks.{HasKnownFaults}
use guga_pi.Common.{
  u8, bit_or, all_below, all_below_sound, ◌^◌, ◌==◌, ◌&&◌, ◌||◌, Bool-cases, inl, inr, ℕ, Bool,
  List, ◌≤◌, bit_and, ◌∷◌, ◌≡◌, [], ◌!=◌, not, if◌then◌else◌, false, suc, ◌<◌, arith, true, ◌+◌,
  zero, refl, ap, ◌∙◌,
}

-- Whether a fault is active.
abbrev pub is_fault_active : ProtectionState → ℕ → Bool
is_fault_active s fault = bit_and s.active_fault_mask fault != 0

module _ (fault trip_limit : ℕ) where
  -- `UpdateFault` on one condition after another; a condition that does not trip releases.
  pub feed : ProtectionState → Counters → List Bool → ProtectionState × Counters
  feed s c [] = (s, c)
  feed s c (x ∷ xs) = let o = update_fault s fault x (not x) trip_limit c in feed o.0 o.1 xs

  module _ (s : ProtectionState) (off : is_fault_active s fault ≡ false)
      (le : trip_limit ≤ 255) where
    trip_below :
        (n : ℕ)
        → suc n < trip_limit
        → update_fault s fault true false trip_limit (record { trip = n; release = 0 })
          ≡ (s, record { trip = suc n; release = 0 })
    unfolding update_fault
    trip_below n h = ground arith

    trip_last :
        (n : ℕ)
        → suc n ≡ trip_limit
        → update_fault s fault true false trip_limit (record { trip = n; release = 0 })
          ≡ (activate_fault s fault, cleared)
    unfolding update_fault
    trip_last n h = ground arith

    release_clears : (c : Counters) → update_fault s fault false true trip_limit c ≡ (s, cleared)
    unfolding update_fault
    release_clears c = ground arith

  -- No `trip_limit` conditions in a row, the ones counted before included.
  abbrev pub Streaks : ℕ → List Bool → Type 0
  Streaks n [] = Unit {0}
  Streaks n (x ∷ xs) = if x then (suc n < trip_limit) × Streaks (suc n) xs else Streaks 0 xs

  -- With a limit of at most 255, a fault that is not active stays so as long as no `trip_limit`
  -- consecutive conditions trip, the ones counted before included: the state is unchanged.
  pub feed-Streaks :
      (s : ProtectionState) (n : ℕ) (xs : List Bool)
      → trip_limit ≤ 255
      → is_fault_active s fault ≡ false
      → Streaks n xs
      → (feed s (record { trip = n; release = 0 }) xs).0 ≡ s
  unfolding feed
  feed-Streaks s n [] le off h = refl
  feed-Streaks s n (true ∷ xs) le off h =
      rw (trip_below s off le n h.0, feed) (feed-Streaks s (suc n) xs le off h.1)
  feed-Streaks s n (false ∷ xs) le off h =
      ap (λ (o : ProtectionState × Counters). (feed o.0 o.1 xs).0)
        (release_clears s off le (record { trip = n; release = 0 }))
      ∙ feed-Streaks s 0 xs le off h

  abbrev pub trips : ℕ → List Bool
  trips zero = []
  trips (suc k) = true ∷ trips k

  trips_lem :
      (s : ProtectionState) (n k : ℕ)
      → trip_limit ≤ 255
      → is_fault_active s fault ≡ false
      → n + suc k ≡ trip_limit
      → feed s (record { trip = n; release = 0 }) (trips (suc k))
        ≡ (activate_fault s fault, cleared)
  unfolding feed
  trips_lem s n zero le off e = rw (trip_last s off le n (omega arith), feed)
  trips_lem s n (suc k) le off e =
      rw (trip_below s off le n (omega arith), feed) (trips_lem s (suc n) k le off (omega arith))

-- The mask has the bit of a fault.
abbrev pub is_fault_latched : ProtectionState → ℕ → Bool
is_fault_latched s fault = bit_and s.latched_fault_mask fault != 0

abbrev has_fault : ℕ → ℕ → Bool
has_fault mask fault = bit_and mask fault != 0

raise_check : ℕ → ℕ → ℕ → Bool
raise_check i mask j =
    let raised = has_fault (u8 (bit_or mask (2 ^ i))) (2 ^ j) in
    if i == j || has_fault mask (2 ^ j) then raised else not raised

raise_table : all_below 5 (λ i. all_below 32 (λ mask. all_below 5 (raise_check i mask))) ≡ true
unfolding all_below raise_check
raise_table = refl

-- The bit of a fault that is or-ed into a mask is set, and the other bits are as they were.
raised_lem :
    (i mask j : ℕ)
    → i < 5
    → mask < 32
    → j < 5
    → has_fault (u8 (bit_or mask (2 ^ i))) (2 ^ j) ≡ (i == j || has_fault mask (2 ^ j))
unfolding raise_check
raised_lem i mask j hi hm hj =
    let all =
      all_below_sound 5 (λ i. all_below 32 (λ mask. all_below 5 (raise_check i mask))) i raise_table
        hi in
    let row = all_below_sound 32 (λ mask. all_below 5 (raise_check i mask)) mask all hm in
    let cell = all_below_sound 5 (raise_check i mask) j row hj in ground (arith, cell)

-- With a limit of at most 255 and a known fault that is not active, the condition that completes
-- `trip_limit` in a row, the ones counted before included, makes that fault active, latches it when
-- faults are latched, changes no other fault of either mask nor the configuration, and clears the
-- counters. The fault is the bit `2 ^ i`, and the masks hold known faults only.
pub feed-trips :
    (i trip_limit : ℕ) (s : ProtectionState) (n k : ℕ)
    → i < 5
    → trip_limit ≤ 255
    → HasKnownFaults s
    → is_fault_active s (2 ^ i) ≡ false
    → n + suc k ≡ trip_limit
    → let (s', c') =
        feed
          (2 ^ i)
          trip_limit
          s
          (record { trip = n; release = 0 })
          (trips (2 ^ i) trip_limit (suc k)) in
      ((j : ℕ)
        → j < 5
        → (is_fault_active s' (2 ^ j) ≡ (i == j || is_fault_active s (2 ^ j)))
          × (is_fault_latched s' (2 ^ j)
              ≡ (s.config.latch_faults && i == j || is_fault_latched s (2 ^ j))))
      × (s'.config ≡ s.config)
      × (c' ≡ record { trip = 0; release = 0 })
unfolding activate_fault
feed-trips i trip_limit s n k hi le known off e = rw (trips_lem (2 ^ i) trip_limit s n k le off e) (
  λ j hj.
      let active = raised_lem i s.active_fault_mask j hi known.active_known hj in
      let latched = raised_lem i s.latched_fault_mask j hi known.latched_known hj in
      elim (Bool-cases s.config.latch_faults) [
        | inl on ↦ rw on (active, latched)
        | inr off ↦ rw off (active, refl)
      ],
  elim (Bool-cases s.config.latch_faults) [ inl on ↦ rw on refl | inr off ↦ rw off refl ],
  refl,
)
