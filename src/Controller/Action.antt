-- ===== src/Controller/Action.antt =====
-- gugaPI/drivers/common/driver_status.h: a call that may fail, on whatever world it acts on.
use guga_pi.Controller.DriverStatus.{DriverStatus, ok}
use guga_pi.Common.{Bool, if◌then◌else◌}

-- How a call ends: with DRIVER_OK and a result, with another status, or not within the fuel of a
-- waiting loop.
pub data Result (A : Type 0) : Type 0 where
  done : A → Result A
  failed : DriverStatus → Result A
  unfinished : Result A

abbrev pub Act : Type 0 → Type 0 → Type 0
Act W A = W → W × Result A

infixl 5 ◌>>=◌ ◌>>◌
unfoldable pub ◌>>=◌ : {W A B : Type 0} → Act W A → (A → Act W B) → Act W B
◌>>=◌ m f w =
    let (w', r) = m w in
    elim r [ done a ↦ f a w' | failed status ↦ (w', failed status) | unfinished ↦ (w', unfinished) ]

abbrev pub ◌>>◌ : {W A B : Type 0} → Act W A → Act W B → Act W B
m >> k = m >>= λ _. k

module _ {W A : Type 0} where
  abbrev pub pure : A → Act W A
  pure a w = (w, done a)

  abbrev pub fail : DriverStatus → Act W A
  fail status w = (w, failed status)

-- `if (refused) return status;`
abbrev pub refuse_if : {W : Type 0} → Bool → DriverStatus → Act W (Unit {0})
refuse_if refused status w = (w, if refused then failed status else done tt)

-- A call that returns a status only.
abbrev pub checked : {W : Type 0} → W × DriverStatus → W × Result (Unit {0})
checked (w, ok) = (w, done tt)
checked (w, status) = (w, failed status)
