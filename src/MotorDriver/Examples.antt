-- ===== src/MotorDriver/Examples.antt =====
-- MotorDriver/protocol/serial_protocol.cpp and MotorDriver/app/motor_app.cpp: the theorems on
-- concrete frames and on a concrete board.
use guga_pi.MotorDriver.Serial.Requests.{
  write_frame_lem, frame, frame_crc, damaged_write_frame, read_answer, read_frame_lem, write_status,
}
use guga_pi.MotorDriver.Reg
use guga_pi.MotorDriver.Flag
use guga_pi.MotorDriver.RegisterMap.Update.{init}
use guga_pi.MotorDriver.Serial.Invariant.{IsValid, process_byte-IsValid}
use guga_pi.MotorDriver.Serial.Frames.{feed}
use guga_pi.MotorDriver.App.Watchdog.{
  run, Event, IsConsistent, ticks, receives, checks, run-IsConsistent,
}
use guga_pi.MotorDriver.RegisterMap.State.{RegisterMap, watchdog_timeout_10ms, is_enabled}
use guga_pi.MotorDriver.Serial.{
  Parser, serial_crc8, process_byte, wait_sof, crc8_over, payload, crc8_update, crc8_rounds,
  build_status_response,
}
use guga_pi.Common.{
  array_of, ◌∷◌, arith, if◌then◌else◌, List, [], ◌≡◌, ℕ, ◌==◌, ◌*◌, false, true, refl, ◌≢◌, none,
}
use guga_pi.MotorDriver.App.{Board, MotorApp, check_watchdog}
use guga_pi.MotorDriver.RegisterMap.Status.{has_active_command}
use guga_pi.MotorDriver.App.Silence.{IsSilent, IsLeased, IsStopped, watchdog_stops}
use guga_pi.MotorDriver.RegisterMap.Write.{commit_write, read_block}
use guga_pi.MotorDriver.Control.Apply.{MotorControl}
use guga_pi.MotorDriver.Control.Examples.{rising}
use guga_pi.MotorDriver.Drv8701.{drv8701_init, blank}

abbrev pub idle_parser : Parser
idle_parser = record {
  state = wait_sof;
  crc = 0;
  cmd = 0;
  reg = 0;
  len = 0;
  data_index = 0;
  bytes = λ i. 0;
}

write_frame_lem_example :
    let xs : List ℕ = 1 ∷ 3 ∷ [] in
    let after = feed idle_parser init (
      frame Flag.serial_cmd_write Reg.control_flags 2 xs
        (frame_crc Flag.serial_cmd_write Reg.control_flags 2 xs)) in
    let (s', changed) = commit_write init Reg.control_flags (array_of xs) 2 in
    (after.0.state ≡ wait_sof)
    × (after.1 ≡ s')
    × (after.2
        ≡ build_status_response Flag.serial_cmd_write Reg.control_flags (write_status changed) ∷ [])
write_frame_lem_example =
    write_frame_lem idle_parser init Reg.control_flags 1 (3 ∷ []) refl (omega arith)

frame_crc_ne : 0 ≢ frame_crc Flag.serial_cmd_write Reg.control_flags 1 (1 ∷ [])
unfolding serial_crc8 crc8_over crc8_update crc8_rounds
frame_crc_ne h = cc

damaged_write_frame_example :
    let after =
      feed idle_parser init (frame Flag.serial_cmd_write Reg.control_flags 1 (1 ∷ []) 0) in
    (after.0.state ≡ wait_sof) × (after.1 ≡ init) × (after.2 ≡ [])
damaged_write_frame_example =
    damaged_write_frame idle_parser init Reg.control_flags 1 0 [] refl (omega arith) frame_crc_ne

read_frame_lem_example :
    let crc = frame_crc Flag.serial_cmd_read Reg.status 4 [] in
    let after = feed idle_parser init (frame Flag.serial_cmd_read Reg.status 4 [] crc) in
    (after.0.state ≡ wait_sof)
    × (after.1 ≡ init)
    × (after.2 ≡ read_answer Reg.status (read_block init Reg.status 4) ∷ [])
read_frame_lem_example =
    read_frame_lem idle_parser init Reg.status 4 refl (omega arith) (omega arith)

-- One byte of a payload of two is in.
abbrev reading_parser : Parser
reading_parser = record idle_parser { state = payload; cmd = 2; reg = 4; len = 2; data_index = 1 }

reading-IsValid : IsValid reading_parser
reading-IsValid = record {
  index_in = λ e. omega arith;
  payload_fits = λ e. omega arith;
  length_fits = λ e. omega arith;
}

process_byte-IsValid_example : IsValid (process_byte reading_parser init 9).parser
process_byte-IsValid_example = process_byte-IsValid reading_parser init 9 reading-IsValid

-- A board whose state is its I2C address; its encoders stand still.
abbrev pub still_board : Board
still_board = record {
  State = ℕ;
  encoders_init = λ s. s;
  encoders_process = λ s now. s;
  set_enabled = λ s encoder1 on. s;
  get_snapshot = λ s encoder1. record { count = 0; counts_per_second = 0; state = 0 };
  reset_encoder = λ s encoder1. s;
  uart_init = λ s. s;
  read_byte = λ s. none;
  uart_write = λ s bytes. s;
  i2c_init = λ s. s;
  take_write = λ s. none;
  i2c_process = λ s now. (false, s);
  address = λ s. s;
  set_address = λ s a. a;
  load_address = λ s. s;
  save_address = λ s a. s;
  start_ticks = λ s. s;
}

-- The driver is enabled, motor 1 holds its position, and the watchdog has 10 milliseconds.
abbrev pub running_registers : RegisterMap
running_registers = record {
  registers = λ r.
      if r == Reg.control_flags
      then 1
      else if r == Reg.m1_mode
      then Flag.motor_mode_position
      else if r == Reg.watchdog_timeout
      then 1
      else 0;
  timeout_active = false;
}

-- The bridge driver has been initialised, no control loop runs.
abbrev pub resting_control : MotorControl
resting_control = record {
  m1_speed = rising;
  m2_speed = rising;
  outputs = drv8701_init (record { m1_output = blank; m2_output = blank; calls = [] });
}

abbrev leased_app : MotorApp still_board
leased_app = record {
  registers = running_registers;
  serial = idle_parser;
  ms_ticks = 100;
  last_watchdog_refresh_ms = 98;
  watchdog_armed = true;
  timeout_active = false;
  output_dirty = false;
  control = resting_control;
  board = 0x20;
}

leased_app-IsConsistent : IsConsistent still_board leased_app
leased_app-IsConsistent = record { flags_agree = refl; disarmed = λ e. cc }

run-IsConsistent_example :
    IsConsistent still_board (run still_board leased_app (receives 0xAA ∷ ticks ∷ checks ∷ []))
run-IsConsistent_example =
    run-IsConsistent still_board leased_app (receives 0xAA ∷ ticks ∷ checks ∷ [])
      leased_app-IsConsistent

is_running : has_active_command running_registers ≡ true
unfolding has_active_command is_enabled
is_running = refl

has_timeout : watchdog_timeout_10ms running_registers * 10 ≢ 0
unfolding watchdog_timeout_10ms
has_timeout = omega arith

has_ten_ms : watchdog_timeout_10ms running_registers * 10 ≡ 10
unfolding watchdog_timeout_10ms
has_ten_ms = refl

leased_app-IsLeased : IsLeased still_board 2 running_registers leased_app
leased_app-IsLeased = record {
  same = refl;
  armed = refl;
  running = refl;
  now_fits = omega arith;
  lease_fits = omega arith;
  aged = refl;
}

abbrev silent_run : List Event
silent_run = ticks ∷ ticks ∷ ticks ∷ checks ∷ ticks ∷ ticks ∷ ticks ∷ ticks ∷ ticks ∷ ticks ∷ []

silent_run-IsSilent : IsSilent silent_run
silent_run-IsSilent =
    (refl, (refl, (refl, (refl, (refl, (refl, (refl, (refl, (refl, (refl, tt))))))))))

watchdog_stops_example :
    IsStopped still_board (check_watchdog still_board (run still_board leased_app silent_run))
watchdog_stops_example =
    watchdog_stops still_board running_registers is_running has_timeout silent_run 2 leased_app
      silent_run-IsSilent (omega arith) (omega (arith, has_ten_ms)) leased_app-IsLeased
