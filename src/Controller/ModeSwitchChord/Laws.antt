-- ===== src/Controller/ModeSwitchChord/Laws.antt =====
-- gugaPI/app/mode_switch_chord.h: one press of the chord triggers at most once.
use guga_pi.Controller.ModeSwitchChord.{ChordState, ChordEvent, triggered, update_chord, Bool, ℕ}
use guga_pi.Common.{
  Bool, ℕ, not, ◌&&◌, List, true, if◌then◌else◌, ◌+◌, ◌≡◌, ◌∷◌, false, ◌≤◌, [], suc, arith, sub32,
  All, ◌<◌,
}

-- What the buttons do at one call of `ModeSwitchChord_Update`.
pub record Sample : Type 0 where
  pub button1 : Bool
  pub button3 : Bool
  pub now_ms : ℕ

abbrev pub both_up : Sample → Bool
both_up x = not x.button1 && not x.button3

abbrev pub both_down : Sample → Bool
both_down x = x.button1 && x.button3

module _ (hold_ms : ℕ) where
  abbrev pub after : ChordState → Sample → ChordState × ChordEvent
  after s x = update_chord s x.button1 x.button3 x.now_ms hold_ms

  pub run : ChordState → List Sample → ChordState × List ChordEvent
  run s [] = (s, [])
  run s (x ∷ xs) = let o = after s x in let rest = run o.0 xs in (rest.0, o.1 ∷ rest.1)

  abbrev pub is_triggered : ChordEvent → Bool
  is_triggered triggered = true
  is_triggered _ = false

  abbrev pub triggers : List ChordEvent → ℕ
  triggers [] = 0
  triggers (e ∷ es) = let rest = triggers es in if is_triggered e then suc rest else rest

  -- How often both buttons are seen released.
  abbrev pub releases : List Sample → ℕ
  releases [] = 0
  releases (x ∷ xs) = let rest = releases xs in if both_up x then suc rest else rest

  abbrev spent : ChordState → ℕ
  spent s = if s.latched then 1 else 0

  step_budget :
      (s : ChordState) (x : Sample) (n m : ℕ)
      → n + spent (after s x).0 ≤ m + 1
      → (if is_triggered (after s x).1 then suc n else n) + spent s
        ≤ (if both_up x then suc m else m) + 1
  unfolding update_chord
  step_budget s x n m h = ground arith

  run_budget :
      (s : ChordState) (xs : List Sample) → triggers (run s xs).1 + spent s ≤ releases xs + 1
  unfolding run
  run_budget s [] = ground arith
  run_budget s (x ∷ xs) =
      step_budget s x (triggers (run (after s x).0 xs).1) (releases xs)
        (run_budget (after s x).0 xs)

  -- Over any samples there is at most one trigger more than there are samples with both buttons up,
  -- and none more from a latched state.
  pub triggers-le-releases :
      (s : ChordState) (xs : List Sample)
      → triggers (run s xs).1 ≤ releases xs + (if s.latched then 0 else 1)
  triggers-le-releases s xs = ground (arith, run_budget s xs)

  -- A trigger means that both buttons are down now and that the chord is at least as old as the
  -- hold time; it leaves the chord latched.
  pub trigger_needs_hold :
      (s : ChordState) (x : Sample)
      → (after s x).1 ≡ triggered
      → (both_down x ≡ true)
        × (s.tracking ≡ true)
        × (hold_ms ≤ sub32 x.now_ms s.started_ms)
        × ((after s x).0.latched ≡ true)
  unfolding update_chord
  trigger_needs_hold s x h = ground arith

  -- Both buttons held down from a tracked state without a latch: no trigger before the hold time,
  -- one at the first sample at or after it.
  pub held_chord_triggers :
      (s : ChordState) (early : List Sample) (x : Sample)
      → s.tracking ≡ true
      → s.latched ≡ false
      → All (λ y. (both_down y ≡ true) × (sub32 y.now_ms s.started_ms < hold_ms)) early
      → both_down x ≡ true
      → hold_ms ≤ sub32 x.now_ms s.started_ms
      → (triggers (run s early).1 ≡ 0) × ((after (run s early).0 x).1 ≡ triggered)
  unfolding run update_chord
  held_chord_triggers s [] x t l q d h = ground arith
  held_chord_triggers s (y ∷ ys) x t l q d h =
      ground (arith, held_chord_triggers s ys x t l q.1 d h, q.0)
