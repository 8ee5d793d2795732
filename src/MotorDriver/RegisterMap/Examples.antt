-- ===== src/MotorDriver/RegisterMap/Examples.antt =====
-- MotorDriver/protocol/register_map.cpp: the theorems on concrete calls.
use guga_pi.MotorDriver.RegisterMap.Calls.{
  Call, run-init-IsWithin, run, commits, sets_output, reports, forces_coast,
}
use guga_pi.MotorDriver.RegisterMap.Update.{init}
use guga_pi.MotorDriver.RegisterMap.Stores.{commit_write-stores}
use guga_pi.MotorDriver.RegisterMap.ReadOnly.{commit_write-read_only, is_read_only}
use guga_pi.MotorDriver.Reg
use guga_pi.Common.{
  Array, List, true, if◌then◌else◌, ◌∷◌, arith, ◌≡◌, ◌==◌, false, ap, none, [], Option, refl, some,
  Bool,
}
use guga_pi.MotorDriver.RegisterMap.Limits.{AreBytes, IsWithin}
use guga_pi.MotorDriver.RegisterMap.Write.{
  commit_write, apply_from, apply_write_to, is_control_register,
}
use guga_pi.MotorDriver.RegisterMap.Safety.{IsCoasting, disable_coasts}
use guga_pi.MotorDriver.RegisterMap.Status.{has_active_command}

-- A write of the control flags, of both invert flags and of the watchdog timeout.
abbrev enable_bytes : Array
enable_bytes i = if i == 0 then 1 else 3

abbrev some_calls : List Call
some_calls =
    commits Reg.control_flags enable_bytes 1
    ∷ sets_output true 250 1
    ∷ reports false 120 7 9 60
    ∷ forces_coast
    ∷ []

bytes_are : AreBytes enable_bytes 1
bytes_are i h = ground arith

run-init-IsWithin_example : IsWithin (run init some_calls).registers
run-init-IsWithin_example = run-init-IsWithin some_calls (bytes_are, (tt, (omega arith, (tt, tt))))

abbrev disable_bytes : Array
disable_bytes i = 0

disabled : (commit_write init Reg.control_flags disable_bytes 1).1 ≡ some true
unfolding commit_write apply_from apply_write_to is_control_register init
disabled = refl

disable_coasts_example :
    IsCoasting (commit_write init Reg.control_flags disable_bytes 1).0.registers
    × (has_active_command (commit_write init Reg.control_flags disable_bytes 1).0 ≡ false)
disable_coasts_example =
    disable_coasts init Reg.control_flags disable_bytes 1
      (ap (λ (o : Option Bool). ((commit_write init Reg.control_flags disable_bytes 1).0, o))
        disabled)
      (omega arith) (omega arith) refl

invert_bytes : (commit_write init Reg.output_invert_flags enable_bytes 1).1 ≡ some true
unfolding commit_write apply_from apply_write_to is_control_register init
invert_bytes = refl

commit_write-stores_example :
    (commit_write init Reg.output_invert_flags enable_bytes 1).0.registers Reg.output_invert_flags
    ≡ 1
commit_write-stores_example =
    commit_write-stores init Reg.output_invert_flags enable_bytes 1 Reg.output_invert_flags
      (ap (λ (o : Option Bool). ((commit_write init Reg.output_invert_flags enable_bytes 1).0, o))
        invert_bytes)
      refl

commit_write-read_only_example : commit_write init Reg.device_id enable_bytes 1 ≡ (init, none)
commit_write-read_only_example =
    commit_write-read_only init Reg.device_id enable_bytes 1 Reg.device_id (omega arith)
      (omega arith) (unfold is_read_only in refl)
