-- ===== src/Controller/Yields.antt =====
-- gugaPI/drivers/common/driver_status.h: what a chain of calls that all succeed leaves.
use guga_pi.Controller.Action.{Act, ◌>>=◌, done, pure, refuse_if}
use guga_pi.Common.{◌≡◌, Bool, refl, false}
use guga_pi.Controller.DriverStatus.{DriverStatus}

-- The call ends well, with this result, in a world with this property.
pub record Yields {W A : Type 0} (m : Act W A) (w : W) (a : A) (P : W → Type 0) : Type 0 where
  pub result : (m w).1 ≡ done a
  pub after : P (m w).0

pub bind-Yields :
    {W A B : Type 0} {m : Act W A} (f : A → Act W B) {w : W} {a : A} {b : B} {P Q : W → Type 0}
    → Yields m w a P
    → ((w' : W) → P w' → Yields (f a) w' b Q)
    → Yields (m >>= f) w b Q
unfolding ◌>>=◌
bind-Yields {m = m} f {w = w} y next =
    let z = next (m w).0 y.after in
    record { result = rw (◌>>=◌, y.result) z.result; after = rw (◌>>=◌, y.result) z.after }

pub bind-result :
    {W A B : Type 0} {m : Act W A} (f : A → Act W B) {w : W} {a : A} {P : W → Type 0}
    → Yields m w a P
    → (m >>= f) w ≡ f a (m w).0
unfolding ◌>>=◌
bind-result {m = m} f {w = w} y = rw (◌>>=◌, y.result) refl

pub pure-Yields : {W A : Type 0} (a : A) (w : W) (P : W → Type 0) → P w → Yields (pure a) w a P
pure-Yields a w P v = record { result = refl; after = v }

-- A test that does not refuse.
pub refuse_if-Yields :
    {W : Type 0} (refused : Bool) (status : DriverStatus) (w : W) (P : W → Type 0)
    → refused ≡ false
    → P w
    → Yields (refuse_if refused status) w tt P
refuse_if-Yields refused status w P e v = record { result = rw e refl; after = v }
