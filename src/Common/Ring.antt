-- ===== src/Common/Ring.antt =====
-- Ring buffers: the entries between two indices, and what a store at the end and a step of the
-- start do to them.
use Prim.Native.Nat.{ℕ, zero, suc, ◌+◌, ◌-◌, ◌<◌}
use mathlib.Core.Path.{◌≡◌, refl, ap}
use mathlib.Core.Bool.{true, false}
use mathlib.Core.List.{List, [], ◌∷◌, ◌++◌}
use native.Mathlib.Omega.{arith}
use guga_pi.Common.Lists.{length}
use guga_pi.Common.Tests.{leb, ◌==◌, if◌then◌else◌}

-- The index after `i` in a buffer of `size` entries.
abbrev pub ring_next : ℕ → ℕ → ℕ
ring_next size i = if leb size (i + 1) then 0 else i + 1

-- The index `n` steps after `i`, for at most `size` steps.
abbrev pub index_after : ℕ → ℕ → ℕ → ℕ
index_after size i n = if leb size (i + n) then i + n - size else i + n

abbrev pub set_entry {ℓ} : {A : Type ℓ} → (ℕ → A) → ℕ → A → ℕ → A
set_entry slots i x j = if j == i then x else slots j

-- The `n` entries from index `i` on.
unfoldable pub entries {ℓ} : {A : Type ℓ} → (ℕ → A) → ℕ → ℕ → ℕ → List A
entries slots size i zero = []
entries slots size i (suc n) = slots i ∷ entries slots size (ring_next size i) n

-- A store at the index after the entries appends to them.
pub entries-set_entry {ℓ} :
    {A : Type ℓ} (slots : ℕ → A) (size i n : ℕ) (x : A) (p : ℕ)
    → i < size
    → n < size
    → p ≡ index_after size i n
    → entries (set_entry slots p x) size i (suc n) ≡ entries slots size i n ++ x ∷ []
unfolding entries
entries-set_entry slots size i zero x p lt le e =
    let here : (i == p) ≡ true = ground arith in rw here refl
entries-set_entry slots size i (suc n) x p lt le e =
    let j = ring_next size i in
    let further : p ≡ index_after size j n = ground arith in
    let other : (i == p) ≡ false = ground arith in
    let below : j < size = ground arith in
    let rest = entries-set_entry slots size j n x p below (omega arith) further in
    rw other (ap (λ t. slots i ∷ t) rest)

pub length-entries {ℓ} :
    {A : Type ℓ} (slots : ℕ → A) (size i n : ℕ) → length (entries slots size i n) ≡ n
unfolding entries
length-entries slots size i zero = refl
length-entries slots size i (suc n) = ap suc (length-entries slots size (ring_next size i) n)
