-- ===== src/Common/Lists.antt =====
-- Lists measured and indexed by native numbers, under the library's names, and arrays.
use Prim.Native.Nat.{ℕ, zero, suc, ◌+◌, ◌<◌, ◌≤◌}
use mathlib.Core.Path.{◌≡◌, refl, ap, sym, ◌∙◌}
use mathlib.Core.Bool.{Bool, false, ◌||◌}
use mathlib.Core.List.{List, [], ◌∷◌, ◌++◌}
use native.Mathlib.Omega.{arith}
use guga_pi.Common.Tests.{◌==◌, if◌then◌else◌}

module _ {ℓ} {A : Type ℓ} where
  abbrev pub length : List A → ℕ
  length [] = 0
  length (x ∷ xs) = suc (length xs)

  abbrev pub get_or : List A → ℕ → A → A
  get_or [] i d = d
  get_or (x ∷ xs) zero d = x
  get_or (x ∷ xs) (suc i) d = get_or xs i d

  abbrev pub take : ℕ → List A → List A
  take zero xs = []
  take (suc n) [] = []
  take (suc n) (x ∷ xs) = x ∷ take n xs

  abbrev pub drop : ℕ → List A → List A
  drop zero xs = xs
  drop (suc n) [] = []
  drop (suc n) (x ∷ xs) = drop n xs

  pub take-length : (xs : List A) → take (length xs) xs ≡ xs
  take-length [] = refl
  take-length (x ∷ xs) = ap (λ (ys : List A). x ∷ ys) (take-length xs)

  pub length-append : (xs ys : List A) → length (xs ++ ys) ≡ length xs + length ys
  length-append [] ys = omega arith
  length-append (x ∷ xs) ys = omega (arith, length-append xs ys)

-- Whether a number is one of the labels of a `case`.
abbrev pub one_of : ℕ → List ℕ → Bool
one_of x [] = false
one_of x (y ∷ ys) = (x == y) || one_of x ys

abbrev pub All {ℓ κ} : {A : Type ℓ} → (A → Type κ) → List A → Type κ
All P [] = Unit
All P (x ∷ xs) = P x × All P xs

-- A C array or memory, as the function from an index to its contents. What lies past the end of the
-- array is not the program's: bounds theorems say that it is neither written nor relied on.
abbrev pub Array : Type 0
Array = ℕ → ℕ

-- a[i] = v
abbrev pub update : Array → ℕ → ℕ → Array
update a i v j = if j == i then v else a j

-- An array after the elements of a list are stored from an index on.
abbrev pub fill : Array → ℕ → List ℕ → Array
fill a i [] = a
fill a i (x ∷ xs) = fill (update a i x) (i + 1) xs

-- The bytes of a list as the array with zeros behind it.
abbrev pub array_of : List ℕ → Array
array_of xs i = get_or xs i 0

pub fill_past : (a : Array) (i : ℕ) (xs : List ℕ) (j : ℕ) → j < i → fill a i xs j ≡ a j
fill_past a i [] j h = refl
fill_past a i (x ∷ xs) j h = fill_past (update a i x) (i + 1) xs j (omega arith) ∙ ground arith

fill-get_or :
    (a : Array) (i : ℕ) (xs : List ℕ) (j : ℕ) → j < length xs → fill a i xs (i + j) ≡ get_or xs j 0
fill-get_or a i [] j h = absurd (omega arith)
fill-get_or a i (x ∷ xs) zero h =
    let e : i + 0 ≡ i = omega arith in
    rw e (fill_past (update a i x) (i + 1) xs i (omega arith) ∙ ground arith)
fill-get_or a i (x ∷ xs) (suc j) h =
    let e : i + suc j ≡ i + 1 + j = omega arith in
    rw e (fill-get_or (update a i x) (i + 1) xs j (omega arith))

pub fill-array_of :
    (a : Array) (xs : List ℕ) (j : ℕ) → j < length xs → fill a 0 xs j ≡ get_or xs j 0
fill-array_of a xs j h =
    let e : 0 + j ≡ j = omega arith in ap (fill a 0 xs) (sym e) ∙ fill-get_or a 0 xs j h

-- The `n` elements from an index on.
abbrev pub list_of : Array → ℕ → ℕ → List ℕ
list_of a i zero = []
list_of a i (suc n) = a i ∷ list_of a (i + 1) n

pub list_of-fill : (a : Array) (i : ℕ) (xs : List ℕ) → list_of (fill a i xs) i (length xs) ≡ xs
list_of-fill a i [] = refl
list_of-fill a i (x ∷ xs) =
    let first : fill (update a i x) (i + 1) xs i ≡ x =
      fill_past (update a i x) (i + 1) xs i (omega arith) ∙ ground arith in
    rw (first, list_of-fill (update a i x) (i + 1) xs) refl

pub list_of-fill-take :
    (a : Array) (i : ℕ) (xs : List ℕ) (n : ℕ)
    → n ≤ length xs
    → list_of (fill a i xs) i n ≡ take n xs
list_of-fill-take a i xs zero h = refl
list_of-fill-take a i [] (suc n) h = absurd (omega arith)
list_of-fill-take a i (x ∷ xs) (suc n) h =
    let first : fill (update a i x) (i + 1) xs i ≡ x =
      fill_past (update a i x) (i + 1) xs i (omega arith) ∙ ground arith in
    rw (first, list_of-fill-take (update a i x) (i + 1) xs n (omega arith)) refl

-- What lies before the index is not changed.
pub list_of-fill-past :
    (a : Array) (i : ℕ) (xs : List ℕ) (j n : ℕ)
    → j + n ≤ i
    → list_of (fill a i xs) j n ≡ list_of a j n
list_of-fill-past a i xs j zero h = refl
list_of-fill-past a i xs j (suc n) h =
    rw (fill_past a i xs j (omega arith), list_of-fill-past a i xs (j + 1) n (omega arith)) refl

pub get_or-append :
    (xs ys : List ℕ) (i k : ℕ) → i ≡ length xs + k → get_or (xs ++ ys) i 0 ≡ get_or ys k 0
get_or-append [] ys i k h = let e : i ≡ k = omega arith in ap (λ j. get_or ys j 0) e
get_or-append (x ∷ xs) ys zero k h = absurd (omega arith)
get_or-append (x ∷ xs) ys (suc i) k h = get_or-append xs ys i k (omega arith)

pub take-append : (xs ys : List ℕ) → take (length xs) (xs ++ ys) ≡ xs
take-append [] ys = refl
take-append (x ∷ xs) ys = ap (λ (t : List ℕ). x ∷ t) (take-append xs ys)

fill_beyond : (a : Array) (i : ℕ) (xs : List ℕ) (j : ℕ) → i + length xs ≤ j → fill a i xs j ≡ a j
fill_beyond a i [] j h = refl
fill_beyond a i (x ∷ xs) j h = fill_beyond (update a i x) (i + 1) xs j (omega arith) ∙ ground arith

-- What lies behind the elements stored is not changed.
pub list_of-fill-beyond :
    (a : Array) (i : ℕ) (xs : List ℕ) (j n : ℕ)
    → i + length xs ≤ j
    → list_of (fill a i xs) j n ≡ list_of a j n
list_of-fill-beyond a i xs j zero h = refl
list_of-fill-beyond a i xs j (suc n) h =
    rw (fill_beyond a i xs j h, list_of-fill-beyond a i xs (j + 1) n (omega arith)) refl
