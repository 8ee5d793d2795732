-- ===== src/MotorDriver/Drv8701/Examples.antt =====
-- MotorDriver/drivers/drv8701.cpp: the theorems on concrete calls.
use guga_pi.MotorDriver.Drv8701.Bridge.{
  coast, brake, run_fine, perform_all, phase_switches_unpowered,
}
use guga_pi.Common.{[], ◌∷◌, true, false, ◌≡◌}
use guga_pi.MotorDriver.Drv8701.{Outputs, blank, drv8701_init}
use guga_pi.MotorDriver.Drv8701.Drive.{IsPhaseSafe, driven}

abbrev pub unused : Outputs
unused = record { m1_output = blank; m2_output = blank; calls = [] }

phase_switches_unpowered_example :
    let cs = run_fine true 0 9000 ∷ run_fine true 1 25600 ∷ coast false ∷ brake true ∷ [] in
    let o' = perform_all (drv8701_init unused) cs in
    IsPhaseSafe o'.calls
    × (driven true o'.calls ≡ o'.m1_output.mode)
    × (driven false o'.calls ≡ o'.m2_output.mode)
unfolding IsPhaseSafe
phase_switches_unpowered_example =
    phase_switches_unpowered unused
      (run_fine true 0 9000 ∷ run_fine true 1 25600 ∷ coast false ∷ brake true ∷ []) tt
