-- ===== src/MotorDriver/App/Examples.antt =====
-- MotorDriver/app/motor_app.cpp: the theorems on a concrete board.
use guga_pi.MotorDriver.App.{Board, MotorApp, encoder_counts_per_second_to_rpm, check_watchdog}
use guga_pi.MotorDriver.UartLink.{UartLinkConfig, UartLinkContext, read_byte}
use guga_pi.MotorDriver.UartLink.Queue.{IsValid, contents}
use guga_pi.Common.{
  [], ◌∷◌, true, false, none, some, List, int16, ◌≡◌, arith, refl, ◌+◌, nat_abs, neg_ℤ, pos, ◌≤◌,
  ◌*◌, ◌⊎◌, signed,
}
use guga_pi.MotorDriver.App.Process.{
  process_serial_rx, process, motor_app_init, process_i2c_target, update_encoder_modes, run_control,
  apply_output,
}
use guga_pi.MotorDriver.App.Loop.{
  loop, IsLinked, LoopStep, serial_rx_drains, ticked, timeout_unpowers, processed,
}
use guga_pi.MotorDriver.Drv8701.Drive.{IsPhaseSafe, driven, seen, muxed, is_driving, level}
use guga_pi.MotorDriver.App.Outputs.{IsUnpowered}
use guga_pi.MotorDriver.Drv8701.{
  ◌==mode◌, drv8701_init, set_coast, set_enable_duty, force_enable_low,
}
use guga_pi.MotorDriver.App.Rpm.{rpm_is_nearest}
use guga_pi.MotorDriver.Examples.{running_registers, idle_parser, resting_control}

abbrev three_bytes : UartLinkConfig
three_bytes = record { tx_timeout_iterations = 5; rx_buffer_size = 3 }

-- Two bytes wait.
abbrev two_waiting : UartLinkContext
two_waiting = record {
  config = some three_bytes;
  rx_head = 1;
  rx_tail = 2;
  rx_dropped_count = 0;
  initialized = true;
  rx_buffer = λ i. i + 3;
}

two_waiting-IsValid : IsValid three_bytes two_waiting
two_waiting-IsValid = record {
  configured = refl;
  ready = refl;
  big = omega arith;
  small = omega arith;
  head_in = omega arith;
  tail_in = omega arith;
}

-- A board whose state is its serial link; its encoders stand still.
abbrev byte_board : Board
byte_board = record {
  State = UartLinkContext;
  encoders_init = λ s. s;
  encoders_process = λ s now. s;
  set_enabled = λ s encoder1 on. s;
  get_snapshot = λ s encoder1. record { count = 0; counts_per_second = 0; state = 0 };
  reset_encoder = λ s encoder1. s;
  uart_init = λ s. s;
  read_byte = read_byte;
  uart_write = λ s bytes. s;
  i2c_init = λ s. s;
  take_write = λ s. none;
  i2c_process = λ s now. (true, s);
  address = λ s. 0x20;
  set_address = λ s a. s;
  load_address = λ s. 0;
  save_address = λ s a. s;
  start_ticks = λ s. s;
}

abbrev waiting_app : MotorApp byte_board
waiting_app = record {
  registers = running_registers;
  serial = idle_parser;
  ms_ticks = 100;
  last_watchdog_refresh_ms = 98;
  watchdog_armed = true;
  timeout_active = false;
  output_dirty = false;
  control = resting_control;
  board = two_waiting;
}

byte_board-IsLinked : IsLinked byte_board (λ s. s)
byte_board-IsLinked = record {
  idles = λ s e. e;
  takes = λ s v c e. (c, e, refl);
  writes = λ s bytes. refl;
  resets = λ s e. refl;
  sets = λ s v. refl;
  saves = λ s v. refl;
}

serial_rx_drains_example :
    let a' = process_serial_rx byte_board 3 waiting_app in
    (contents three_bytes a'.board ≡ []) × (byte_board.read_byte a'.board ≡ none)
serial_rx_drains_example =
    serial_rx_drains byte_board (λ s. s) byte_board-IsLinked three_bytes 3 waiting_app
      two_waiting-IsValid (omega arith)

-- The I2C target recovers in every round, so the timeout is on after it.
abbrev one_round : List LoopStep
one_round = ticked ∷ processed 3 ∷ []

round-times_out : (a : MotorApp byte_board) → (loop byte_board a one_round).timeout_active ≡ true
unfolding loop process process_i2c_target check_watchdog update_encoder_modes run_control
    apply_output
round-times_out a = ground arith

resting-IsPhaseSafe : IsPhaseSafe waiting_app.control.outputs.calls
unfolding IsPhaseSafe driven seen muxed is_driving level drv8701_init set_coast set_enable_duty
    force_enable_low ◌==mode◌
resting-IsPhaseSafe = tt

timeout_unpowers_example :
    IsUnpowered (loop byte_board (motor_app_init byte_board waiting_app) one_round).control.outputs
timeout_unpowers_example =
    timeout_unpowers byte_board waiting_app one_round resting-IsPhaseSafe
      (round-times_out (motor_app_init byte_board waiting_app))

rpm_is_nearest_example :
    let rpm = int16 (encoder_counts_per_second_to_rpm 4294966296 1456) in
    let q = nat_abs rpm in
    (rpm ≡ neg_ℤ (pos q))
    × (q ≤ 32768)
    × (2 * q * 1456 ≤ 120 * 1000 + 1456)
    × ((q ≡ 32768) ⊎ (120 * 1000 ≤ 2 * q * 1456 + 1456))
unfolding signed
rpm_is_nearest_example = rpm_is_nearest 4294966296 1456 (omega arith) (omega arith)
