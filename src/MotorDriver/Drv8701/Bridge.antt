-- ===== src/MotorDriver/Drv8701/Bridge.antt =====
-- MotorDriver/board/board_motor_outputs.cpp: any sequence of its calls.
use guga_pi.Common.{Bool, ℕ, List, ◌∷◌, [], true, ◌≡◌, false}
use guga_pi.MotorDriver.Drv8701.{Outputs, set_coast, set_run, set_brake, set_run_fine, drv8701_init}
use guga_pi.MotorDriver.Drv8701.Drive.{
  IsTracked, IsPhaseSafe, set_coast-IsTracked, set_brake-IsTracked, driven, set_run_fine-IsTracked,
  init-IsTracked,
}

pub data Command : Type 0 where
  coast brake : Bool → Command
  run_at : Bool → ℕ → ℕ → Command
  run_fine : Bool → ℕ → ℕ → Command

unfoldable pub perform : Outputs → Command → Outputs
perform o (coast m) = set_coast o m
perform o (brake m) = set_brake o m
perform o (run_at m direction duty) = set_run o m direction duty
perform o (run_fine m direction duty) = set_run_fine o m direction duty

unfoldable pub perform_all : Outputs → List Command → Outputs
perform_all o [] = o
perform_all o (c ∷ cs) = perform_all (perform o c) cs

perform-IsTracked : (o : Outputs) (c : Command) → IsTracked o → IsTracked (perform o c)
unfolding perform set_run
perform-IsTracked o (coast m) v = set_coast-IsTracked o m v
perform-IsTracked o (brake m) v = set_brake-IsTracked o m v
perform-IsTracked o (run_at m direction duty) v = set_run_fine-IsTracked o m direction _ v
perform-IsTracked o (run_fine m direction duty) v = set_run_fine-IsTracked o m direction duty v

pub perform_all-IsTracked :
    (o : Outputs) (cs : List Command) → IsTracked o → IsTracked (perform_all o cs)
unfolding perform_all
perform_all-IsTracked o [] v = v
perform_all-IsTracked o (c ∷ cs) v =
    perform_all-IsTracked (perform o c) cs (perform-IsTracked o c v)

-- The phase pin of a bridge is never written under drive: from an initialisation on, whatever
-- sequence of coast, brake and run calls follows, every write of a motor's phase pin found its
-- enable pin connected to the port, driven and low, and the modes that the driver keeps are what
-- its pin calls put on the pins. The phase pins are supposed not to have been written under drive
-- before the initialisation, as when nothing was called.
pub phase_switches_unpowered :
    (o : Outputs) (cs : List Command)
    → IsPhaseSafe o.calls
    → let o' = perform_all (drv8701_init o) cs in
      IsPhaseSafe o'.calls
      × (driven true o'.calls ≡ o'.m1_output.mode)
      × (driven false o'.calls ≡ o'.m2_output.mode)
phase_switches_unpowered o cs v =
    let t = perform_all-IsTracked (drv8701_init o) cs (init-IsTracked o v) in
    (t.phase_safe, t.m1_mode, t.m2_mode)
