-- ===== src/MotorDriver/Drv8701/Drive.antt =====
-- MotorDriver/drivers/drv8701.cpp: what the calls made say about the bridge's inputs.
use guga_pi.Common.{Bool, List, not, true, ◌≡◌, false, ◌∷◌, ℕ, arith, if◌then◌else◌, []}
use guga_pi.MotorDriver.Drv8701.{
  Outputs, set_enable_duty, DlCall, force_enable_low, EnableOutputMode, force_enable_high, unknown,
  configure_enable_pwm, clear_pins, pwm, low, set_pins, high, phase, init_peripheral_output,
  init_digital_output, enable_output, pwm_mode, turn, set_run_fine, set_coast, set_brake,
  drv8701_init, set_phase, ◌==mode◌,
}

abbrev pub same_motor : Bool → Bool → Bool
same_motor true k = k
same_motor false k = not k

-- What a motor's enable pin is connected to.
pub data Mux : Type 0 where
  unconnected to_gpio to_timer : Mux

-- The newest of the two connecting calls decides.
unfoldable pub muxed : Bool → List DlCall → Mux
muxed m [] = unconnected
muxed m (init_digital_output (pwm k) ∷ cs) = if same_motor m k then to_gpio else muxed m cs
muxed m (init_peripheral_output (pwm k) ∷ cs) = if same_motor m k then to_timer else muxed m cs
muxed m (_ ∷ cs) = muxed m cs

-- The bit of the port's output register: the newest write of it.
unfoldable pub level : Bool → List DlCall → EnableOutputMode
level m [] = unknown
level m (clear_pins (pwm k) ∷ cs) = if same_motor m k then low else level m cs
level m (set_pins (pwm k) ∷ cs) = if same_motor m k then high else level m cs
level m (_ ∷ cs) = level m cs

-- The output driver, which no call of the file turns off again.
unfoldable pub is_driving : Bool → List DlCall → Bool
is_driving m [] = false
is_driving m (enable_output (pwm k) ∷ cs) = if same_motor m k then true else is_driving m cs
is_driving m (_ ∷ cs) = is_driving m cs

-- The output register is seen only on a pin that is connected to the port, and nothing is on a pin
-- whose driver is off.
unfoldable pub seen : Mux → Bool → EnableOutputMode → EnableOutputMode
seen to_gpio true bit = bit
seen to_timer true bit = pwm_mode
seen _ _ bit = unknown

-- What the calls made put on a motor's enable pin.
unfoldable pub driven : Bool → List DlCall → EnableOutputMode
driven m cs = seen (muxed m cs) (is_driving m cs) (level m cs)

-- Whenever the phase pin of a motor was written, its enable pin was low.
unfoldable pub IsPhaseSafe : List DlCall → Type 0
IsPhaseSafe [] = Unit
IsPhaseSafe (set_pins (phase k) ∷ cs) = (driven k cs ≡ low) × IsPhaseSafe cs
IsPhaseSafe (clear_pins (phase k) ∷ cs) = (driven k cs ≡ low) × IsPhaseSafe cs
IsPhaseSafe (_ ∷ cs) = IsPhaseSafe cs

-- The modes kept are what the calls made say, and no phase pin was written under drive.
pub record IsTracked (o : Outputs) : Type 0 where
  pub m1_mode : driven true o.calls ≡ o.m1_output.mode
  pub m2_mode : driven false o.calls ≡ o.m2_output.mode
  pub phase_safe : IsPhaseSafe o.calls

set_enable_duty-IsTracked :
    (o : Outputs) (m : Bool) (duty : ℕ) → IsTracked o → IsTracked (set_enable_duty o m duty)
unfolding set_enable_duty force_enable_low force_enable_high configure_enable_pwm driven seen muxed
    is_driving level IsPhaseSafe
set_enable_duty-IsTracked o true duty v = ground arith
set_enable_duty-IsTracked o false duty v = ground arith

turn-IsTracked :
    (o : Outputs) (m : Bool) (direction : ℕ) → IsTracked o → IsTracked (turn o m direction)
unfolding turn ◌==mode◌ force_enable_low set_phase driven seen muxed is_driving level IsPhaseSafe
turn-IsTracked o true direction v = ground arith
turn-IsTracked o false direction v = ground arith

pub set_run_fine-IsTracked :
    (o : Outputs) (m : Bool) (direction duty : ℕ)
    → IsTracked o
    → IsTracked (set_run_fine o m direction duty)
unfolding set_run_fine
set_run_fine-IsTracked o m direction duty v = ground (
  arith,
  set_enable_duty-IsTracked o m duty,
  set_enable_duty-IsTracked (turn o m direction) m duty,
  turn-IsTracked o m direction,
)

pub set_coast-IsTracked : (o : Outputs) (m : Bool) → IsTracked o → IsTracked (set_coast o m)
unfolding set_coast
set_coast-IsTracked o m v = set_enable_duty-IsTracked o m 0 v

pub set_brake-IsTracked : (o : Outputs) (m : Bool) → IsTracked o → IsTracked (set_brake o m)
unfolding set_brake
set_brake-IsTracked o m v = set_enable_duty-IsTracked o m 0 v

-- A motor that is stopped has its enable pin low, and the other one keeps its drive.
pub set_coast-driven :
    (o : Outputs) (m : Bool)
    → IsTracked o
    → (driven m (set_coast o m).calls ≡ low)
      × (driven (not m) (set_coast o m).calls ≡ driven (not m) o.calls)
unfolding set_coast ◌==mode◌ set_enable_duty force_enable_low driven seen muxed is_driving level
set_coast-driven o true v = ground arith
set_coast-driven o false v = ground arith

pub init-IsTracked : (o : Outputs) → IsPhaseSafe o.calls → IsTracked (drv8701_init o)
unfolding drv8701_init ◌==mode◌ set_coast set_enable_duty force_enable_low driven seen muxed
    is_driving level IsPhaseSafe
init-IsTracked o v = ground arith
