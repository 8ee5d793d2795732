-- ===== src/Controller/InfraredLine/Examples.antt =====
-- gugaPI/drivers/infrared_line/infrared_line_protocol.cpp: the theorem on a concrete parser.
use guga_pi.Controller.InfraredLine.{Parser, init, feed_byte}
use guga_pi.Controller.InfraredLine.Headers.{IsHeaded, feed_byte-IsHeaded}
use guga_pi.Common.{array_of, arith, ◌∷◌, refl, [], inr}

-- Fourteen bytes of a frame have come, and a header begins among them.
abbrev nearly_full : Parser
nearly_full = record init {
  length = 14;
  buffer = array_of (32 ∷ 3 ∷ 10 ∷ 0 ∷ 0 ∷ 0 ∷ 32 ∷ 3 ∷ 10 ∷ 1 ∷ 2 ∷ 3 ∷ 4 ∷ 5 ∷ []);
}

nearly_full-IsHeaded : IsHeaded nearly_full
nearly_full-IsHeaded = record { has_room = omega arith; headed = (inr refl, inr refl, inr refl) }

feed_byte-IsHeaded_example : IsHeaded (feed_byte nearly_full 6 100 100000).0
feed_byte-IsHeaded_example = feed_byte-IsHeaded nearly_full 6 100 100000 nearly_full-IsHeaded
