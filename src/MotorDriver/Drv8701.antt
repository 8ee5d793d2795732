-- ===== src/MotorDriver/Drv8701.antt =====
-- MotorDriver/drivers/drv8701.cpp, MotorDriver/board/board_motor_outputs.cpp: the bridge driver's
-- outputs. The calls of the vendor's DL_ functions are kept in a list, the newest first; `true` is
-- Motor1, and a direction is the value of the enumeration.
pub mod Drive
pub mod Bridge
pub mod Examples
use guga_pi.MotorDriver.Flag
use guga_pi.Common.{
  Bool, ℕ, List, ◌∷◌, false, true, if◌then◌else◌, ◌*◌, u16, ltb, ◌==◌, not, ◌+◌, leb, ◌||◌, ◌/◌,
  ◌!=◌, u32, sub32,
}

-- The pins of a motor: its PWM pin is the enable input of the bridge.
pub data Pin : Type 0 where
  pwm phase : Bool → Pin

-- DL_GPIO_initDigitalOutput, DL_GPIO_initPeripheralOutputFunction, DL_GPIO_clearPins,
-- DL_GPIO_setPins, DL_GPIO_enableOutput, DL_TimerG_setCaptureCompareValue, DL_TimerG_startCounter.
pub data DlCall : Type 0 where
  init_digital_output init_peripheral_output clear_pins set_pins enable_output : Pin → DlCall
  set_compare : Bool → ℕ → DlCall
  start_counter : Bool → DlCall

pub data EnableOutputMode : Type 0 where
  unknown low pwm_mode high : EnableOutputMode

infix 50 ◌==mode◌
unfoldable pub ◌==mode◌ : EnableOutputMode → EnableOutputMode → Bool
unknown ==mode unknown = true
low ==mode low = true
pwm_mode ==mode pwm_mode = true
high ==mode high = true
_ ==mode _ = false

pub record OutputState : Type 0 where
  pub direction : ℕ
  pub mode : EnableOutputMode
  pub direction_valid : Bool

-- The variables of the file, and the calls made.
pub record Outputs : Type 0 where
  pub m1_output : OutputState
  pub m2_output : OutputState
  pub calls : List DlCall

abbrev pub state_for_motor : Outputs → Bool → OutputState
state_for_motor o motor1 = if motor1 then o.m1_output else o.m2_output

abbrev pub put_state : Outputs → Bool → OutputState → Outputs
put_state o true st = record o { m1_output = st }
put_state o false st = record o { m2_output = st }

abbrev pub call : Outputs → DlCall → Outputs
call o c = record o { calls = c ∷ o.calls }

abbrev pub pwm_period_counts : ℕ
pwm_period_counts = 2000

abbrev pub duty_percent_q8_scale : ℕ
duty_percent_q8_scale = 256

unfoldable pub duty_to_compare : ℕ → ℕ
duty_to_compare duty_percent_q8 =
    let maximum = 100 * duty_percent_q8_scale in
    let duty = if ltb maximum duty_percent_q8 then u16 maximum else duty_percent_q8 in
    let scaled = pwm_period_counts * duty + maximum / 2 in
    let active_counts = u32 (scaled / maximum) in sub32 pwm_period_counts active_counts

unfoldable pub force_enable_low : Outputs → Bool → Outputs
force_enable_low o m =
    call (call (call o (init_digital_output (pwm m))) (clear_pins (pwm m))) (enable_output (pwm m))

unfoldable pub force_enable_high : Outputs → Bool → Outputs
force_enable_high o m =
    call (call (call o (init_digital_output (pwm m))) (set_pins (pwm m))) (enable_output (pwm m))

unfoldable pub configure_enable_pwm : Outputs → Bool → Outputs
configure_enable_pwm o m = call (call o (init_peripheral_output (pwm m))) (enable_output (pwm m))

unfoldable pub set_phase : Outputs → Bool → ℕ → Outputs
set_phase o m direction =
    if direction == Flag.motor_direction_reverse
    then call o (set_pins (phase m))
    else call o (clear_pins (phase m))

abbrev pub set_mode : Outputs → Bool → EnableOutputMode → Outputs
set_mode o m mode = put_state o m (record (state_for_motor o m) { mode = mode })

unfoldable pub set_enable_duty : Outputs → Bool → ℕ → Outputs
set_enable_duty o m duty_percent_q8 =
    let mode = (state_for_motor o m).mode in
    let full_scale = 100 * duty_percent_q8_scale in
    if duty_percent_q8 == 0
    then if mode ==mode low then o else set_mode (force_enable_low o m) m low
    else if leb full_scale duty_percent_q8
    then if mode ==mode high then o else set_mode (force_enable_high o m) m high
    else let o1 = call o (set_compare m (duty_to_compare duty_percent_q8)) in
      if mode ==mode pwm_mode then o1 else set_mode (configure_enable_pwm o1 m) m pwm_mode

unfoldable pub set_coast : Outputs → Bool → Outputs
set_coast o m = set_enable_duty o m 0

unfoldable pub set_brake : Outputs → Bool → Outputs
set_brake o m = set_enable_duty o m 0

-- The direction is the register's encoding: 0 is Forward, 1 is Reverse.
unfoldable pub turn : Outputs → Bool → ℕ → Outputs
turn o m direction =
    let o1 =
      if (state_for_motor o m).mode ==mode low then o else set_mode (force_enable_low o m) m low in
    let o2 = set_phase o1 m direction in
    let st = state_for_motor o2 m in
    put_state o2 m (record st { direction = direction; direction_valid = true })

unfoldable pub set_run_fine : Outputs → Bool → ℕ → ℕ → Outputs
set_run_fine o m direction duty_percent_q8 =
    let st = state_for_motor o m in
    let o1 =
      if not st.direction_valid || st.direction != direction then turn o m direction else o in
    set_enable_duty o1 m duty_percent_q8

unfoldable pub set_run : Outputs → Bool → ℕ → ℕ → Outputs
set_run o m direction duty_percent =
    set_run_fine o m direction (u16 (duty_percent * duty_percent_q8_scale))

abbrev pub blank : OutputState
blank = record { direction = 0; mode = unknown; direction_valid = false }

unfoldable pub drv8701_init : Outputs → Outputs
drv8701_init o =
    let o1 = record o { m1_output = blank; m2_output = blank } in
    let o2 = call o1 (set_compare true pwm_period_counts) in
    let o3 = call o2 (set_compare false pwm_period_counts) in
    let o4 = call o3 (start_counter true) in
    let o5 = call o4 (start_counter false) in set_coast (set_coast o5 true) false
