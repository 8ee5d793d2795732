-- ===== src/Controller/ModeSwitchChord.antt =====
-- gugaPI/app/mode_switch_chord.h: the chord of two buttons that switches the mode. The callers pass
-- a state, never a null pointer.
pub mod Laws
use guga_pi.Common.{Bool, false, ℕ, ◌||◌, ◌&&◌, if◌then◌else◌, not, true, leb, sub32}

pub data ChordEvent : Type 0 where
  nothing started triggered : ChordEvent

pub record ChordState : Type 0 where
  pub tracking : Bool
  pub latched : Bool
  pub started_ms : ℕ

unfoldable pub reset : ChordState → ChordState
reset s = record s { tracking = false; latched = false; started_ms = 0 }

unfoldable pub is_active : ChordState → Bool
is_active s = s.tracking || s.latched

-- `ModeSwitchChord_Update`: the new state and the event.
unfoldable pub update_chord : ChordState → Bool → Bool → ℕ → ℕ → ChordState × ChordEvent
update_chord s button1_pressed button3_pressed now_ms hold_ms =
    let both_pressed = button1_pressed && button3_pressed in
    if s.latched
    then (
      if not button1_pressed && not button3_pressed then record s { latched = false } else s,
      nothing,
    )
    else if not both_pressed
    then (if s.tracking then record s { tracking = false; latched = true } else s, nothing)
    else if not s.tracking
    then (record s { tracking = true; started_ms = now_ms }, started)
    else if leb hold_ms (sub32 now_ms s.started_ms)
    then (record s { tracking = false; latched = true }, triggered)
    else (s, nothing)
