-- ===== src/Controller/MotorClient/Examples.antt =====
-- gugaPI/app/motor_driver_client.h: the theorems on a concrete line to a driver after its start.
use guga_pi.Controller.DriverStatus.{ok, error}
use guga_pi.Controller.MotorClient.Link.{Link, Client, uart, cmd_read, response_flag}
use guga_pi.Controller.Action.{done}
use guga_pi.Controller.MotorClient.Wire.{IsWire}
use guga_pi.Controller.MotorClient.Registers.{read_registers, write_registers_checked}
use guga_pi.Controller.MotorClient.Motion.{stop}
use guga_pi.MotorDriver.Serial
use guga_pi.MotorDriver.Serial.{Parser}
use guga_pi.MotorDriver.RegisterMap.State.{RegisterMap}
use guga_pi.MotorDriver.RegisterMap.Update.{init}
use guga_pi.Common.{
  false, ℕ, none, some, List, ◌++◌, [], arith, ◌≡◌, ◌∷◌, if◌then◌else◌, Option, ◌+◌, refl, u8, u32,
  bit_or, array_of,
}
use guga_pi.MotorDriver.RegisterMap.Write.{commit_write, read_block}
use guga_pi.MotorDriver.RegisterMap.Safety.{IsCoasting}
use guga_pi.Controller.MotorClient.Stopping.{stop_lem}
use guga_pi.Controller.MotorClient.EndToEnd.{
  block_or_error, write_result, write_registers_checked_lem, read_registers_lem,
}

pub record Line : Type 0 where
  parser : Parser
  registers : RegisterMap
  waiting : List ℕ
  clock : ℕ

abbrev arrive : Line → Serial.Outcome → Line
arrive w o = record {
  parser = o.parser;
  registers = o.registers;
  waiting = w.waiting ++ (if o.ready then o.response else []);
  clock = w.clock;
}

abbrev next_byte : Line → List ℕ → Line × Option ℕ
next_byte w [] = (w, none)
next_byte w (x ∷ xs) = (record w { waiting = xs }, some x)

-- A reading of the clock takes a millisecond.
abbrev line : Link
line = record {
  World = Line;
  write_byte = λ x w. (arrive w (Serial.process_byte w.parser w.registers x), ok);
  read_byte = λ w. next_byte w w.waiting;
  clear_rx_buffer = λ w. record w { waiting = [] };
  millis = λ w. (record w { clock = w.clock + 1 }, u32 w.clock);
  delay_us = λ n w. w;
  has_i2c_bus = false;
  write_reg8_block = λ a reg xs w. (w, error);
  read_reg8 = λ a reg n w. (w, (error, λ i. 0));
  probe_address = λ a w. (w, error);
  recover_bus = λ w. (w, error);
}

line-IsWire : IsWire line
line-IsWire = record {
  parser = λ w. w.parser;
  registers = λ w. w.registers;
  waiting = λ w. w.waiting;
  clock = λ w. w.clock;
  takes = λ x w. refl;
  drives = λ x w. (refl, refl, refl);
  clears = λ w. (refl, refl, refl);
  brings = λ x xs w e. rw e (refl, refl, refl, refl, refl);
  counts = λ w. (refl, refl, refl, refl, omega arith, omega arith);
}

abbrev at_start : Line
at_start = record {
  parser = record {
    state = Serial.wait_sof;
    crc = 0;
    cmd = 0;
    reg = 0;
    len = 0;
    data_index = 0;
    bytes = λ i. 0;
  };
  registers = init;
  waiting = [];
  clock = 0;
}

abbrev client : Client
client = record { transport = uart; i2c_address = 0x24 }

read_registers_lem_example :
    let (w', r) = read_registers line 1 client 0x10 2 at_start in
    (r
      ≡ done (record {
        cmd = u8 (bit_or cmd_read response_flag);
        reg = 0x10;
        bytes = block_or_error (read_block at_start.registers 0x10 2);
      }))
    × (w'.registers ≡ at_start.registers)
    × (w'.parser.state ≡ Serial.wait_sof)
unfolding line-IsWire
read_registers_lem_example =
    read_registers_lem line line-IsWire 1 (omega arith) client 0x10 2 at_start refl refl
      (omega arith) (omega arith)

write_registers_checked_lem_example :
    let (w', r) = write_registers_checked line 1 client 0x10 (1 ∷ 50 ∷ []) at_start in
    let (s', changed) = commit_write at_start.registers 0x10 (array_of (1 ∷ 50 ∷ [])) 2 in
    (r ≡ write_result changed) × (w'.registers ≡ s') × (w'.parser.state ≡ Serial.wait_sof)
unfolding line-IsWire
write_registers_checked_lem_example =
    write_registers_checked_lem line line-IsWire 1 (omega arith) client 0x10 1 (50 ∷ []) at_start
      refl refl (omega arith)

stop_lem_example :
    let (w', statuses) = stop line 1 client at_start in
    (statuses ≡ (done tt, done tt, done tt))
    × IsCoasting w'.registers.registers
    × (w'.parser.state ≡ Serial.wait_sof)
unfolding line-IsWire
stop_lem_example = stop_lem line line-IsWire 1 (omega arith) client refl at_start refl
