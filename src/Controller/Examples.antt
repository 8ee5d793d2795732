-- ===== src/Controller/Examples.antt =====
-- gugaPI/app/mode_switch_chord.h, gugaPI/app/ina219_protection.cpp and gugaPI/services/fault.cpp:
-- the theorems on concrete samples and calls.
use guga_pi.Controller.ModeSwitchChord.Laws
use guga_pi.Controller.Ina219Protection.Inhibit
use guga_pi.Controller.Ina219Protection.Debounce.{
  feed, trips, feed-Streaks, feed-trips, is_fault_active, is_fault_latched,
}
use guga_pi.Controller.ModeSwitchChord.{ChordState, update_chord, triggered}
use guga_pi.Common.{
  ℕ, false, true, ◌∷◌, ◌≡◌, arith, [], ◌≤◌, refl, List, ◌<◌, ◌^◌, ◌==◌, ◌||◌, ◌&&◌,
}
use guga_pi.Controller.ModeSwitchChord.Laws.{
  triggers, both_down, after, triggers-le-releases, held_chord_triggers, trigger_needs_hold,
}
use guga_pi.Controller.Ina219Protection.{Config, fault_overcurrent, ProtectionState, fresh}
use guga_pi.Controller.Ina219Protection.Inhibit.{fails, latched_inhibits}
use guga_pi.Controller.Ina219Protection.Masks.{HasKnownFaults}
use guga_pi.Controller.DriverStatus.{not_initialized}
use guga_pi.Controller.Fault.{dm_timeout, sensor_lost, unknown}
use guga_pi.Controller.Fault.Latch.{FaultCall, sets, clears}

abbrev fresh_chord : ChordState
fresh_chord = record { tracking = false; latched = false; started_ms = 0 }

abbrev down_at : ℕ → Laws.Sample
down_at t = record { button1 = true; button3 = true; now_ms = t }

triggers-le-releases_example :
    triggers 1000 (Laws.run 1000 fresh_chord (down_at 5 ∷ down_at 1005 ∷ down_at 3000 ∷ [])).1 ≤ 1
triggers-le-releases_example =
    triggers-le-releases 1000 fresh_chord (down_at 5 ∷ down_at 1005 ∷ down_at 3000 ∷ [])

abbrev held_chord : ChordState
held_chord = record { tracking = true; latched = false; started_ms = 5 }

held_triggers : (after 1000 held_chord (down_at 1005)).1 ≡ triggered
unfolding update_chord
held_triggers = refl

held_chord_triggers_example :
    (triggers 1000 (Laws.run 1000 held_chord (down_at 7 ∷ [])).1 ≡ 0)
    × ((after 1000 (Laws.run 1000 held_chord (down_at 7 ∷ [])).0 (down_at 1005)).1 ≡ triggered)
held_chord_triggers_example =
    held_chord_triggers 1000 held_chord (down_at 7 ∷ []) (down_at 1005) refl refl
      ((refl, omega arith), tt) refl (omega arith)

abbrev default_config : Config
default_config = record {
  undervoltage_trip_mv = 10000;
  undervoltage_release_mv = 10500;
  overcurrent_trip_ma = 5000;
  overcurrent_release_ma = 4500;
  trip_samples = 3;
  release_samples = 5;
  communication_fail_samples = 3;
  latch_faults = true;
  motion_inhibit_enabled = true;
}

feed-Streaks_example :
    (feed fault_overcurrent 3
      (fresh default_config)
      (record { trip = 1; release = 0 })
      (true ∷ false ∷ true ∷ [])).0
    ≡ fresh default_config
feed-Streaks_example =
    feed-Streaks fault_overcurrent 3 (fresh default_config) 1 (true ∷ false ∷ true ∷ [])
      (omega arith) refl (omega arith, (omega arith, tt))

fresh-HasKnownFaults : HasKnownFaults (fresh default_config)
fresh-HasKnownFaults = record { active_known = omega arith; latched_known = omega arith }

feed-trips_example :
    let s = fresh default_config in
    let (s', c') = feed 2 3 s (record { trip = 1; release = 0 }) (trips 2 3 2) in
    ((j : ℕ)
      → j < 5
      → (is_fault_active s' (2 ^ j) ≡ (1 == j || is_fault_active s (2 ^ j)))
        × (is_fault_latched s' (2 ^ j)
            ≡ (s.config.latch_faults && 1 == j || is_fault_latched s (2 ^ j))))
    × (s'.config ≡ s.config)
    × (c' ≡ record { trip = 0; release = 0 })
feed-trips_example =
    feed-trips 1 3 (fresh default_config) 1 1 (omega arith) (omega arith) fresh-HasKnownFaults refl
      refl

abbrev latched_state : ProtectionState
latched_state = record (fresh default_config) {
  latched_fault_mask = 2;
  motion_inhibit_requested = true;
}

latched_state-HasKnownFaults : HasKnownFaults latched_state
latched_state-HasKnownFaults = record { active_known = omega arith; latched_known = omega arith }

latched_inhibits_example :
    (Inhibit.run latched_state (fails not_initialized ∷ [])).motion_inhibit_requested ≡ true
latched_inhibits_example =
    latched_inhibits latched_state (fails not_initialized ∷ []) latched_state-HasKnownFaults refl
      (omega arith) refl

abbrev some_faults : List FaultCall
some_faults = sets sensor_lost ∷ clears ∷ sets dm_timeout ∷ sets unknown ∷ []
