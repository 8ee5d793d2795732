-- ===== src/Controller/Fault/Latch.antt =====
-- gugaPI/services/fault.cpp: what is reported after any calls.
use guga_pi.Controller.Fault.{
  FaultState, FaultCode, fault_init, is_fault, set_fault, clear_fault, set_panic_handler, get_fault,
}
use guga_pi.Common.{
  ℕ, Option, List, if◌then◌else◌, ◌∷◌, ◌++◌, All, ◌≡◌, ◌<◌, [], ◌+◌, true, ◌^◌, refl, arith, ap,
  u32, ◌∙◌,
}

-- A call that changes the variables.
pub data FaultCall : Type 0 where
  sets : FaultCode → FaultCall
  clears : FaultCall
  registers : Option ℕ → FaultCall

unfoldable pub step : FaultState → FaultCall → FaultState
step s (sets code) = set_fault s code
step s clears = clear_fault s
step s (registers handler) = set_panic_handler s handler

unfoldable pub run : FaultState → List FaultCall → FaultState
run s [] = s
run s (c ∷ cs) = run (step s c) cs

abbrev pub IsNoClear : FaultCall → Type 0
IsNoClear clears = ⊥
IsNoClear _ = Unit {0}

abbrev pub counts : FaultCall → ℕ
counts (sets code) = if is_fault code then 1 else 0
counts _ = 0

-- How many faults were set.
abbrev pub faults : List FaultCall → ℕ
faults [] = 0
faults (c ∷ cs) = counts c + faults cs

run-append : (s : FaultState) (xs ys : List FaultCall) → run s (xs ++ ys) ≡ run (run s xs) ys
unfolding run
run-append s [] ys = refl
run-append s (x ∷ xs) ys = run-append (step s x) xs ys

kept :
    (s : FaultState) (cs : List FaultCall)
    → All IsNoClear cs
    → s.has_fault ≡ true
    → get_fault (run s cs) ≡ get_fault s
unfolding run step
kept s [] q h = refl
kept s (sets code ∷ cs) q h =
    kept (set_fault s code) cs q.1 (unfold set_fault in ground arith)
    ∙ unfold set_fault get_fault in ground arith
kept s (clears ∷ cs) q h = absurd q.0
kept s (registers handler ∷ cs) q h =
    kept (set_panic_handler s handler) cs q.1 (unfold set_panic_handler in h)
    ∙ unfold set_panic_handler get_fault in refl

-- The first fault after a clear is the one reported, whatever faults follow it, until the next
-- clear.
pub first_fault_is_reported :
    (before later : List FaultCall) (code : FaultCode)
    → is_fault code ≡ true
    → All IsNoClear later
    → get_fault (run fault_init (before ++ (clears ∷ sets code ∷ later))) ≡ code
unfolding run step set_fault clear_fault get_fault
first_fault_is_reported before later code f q =
    let s = run fault_init before in
    ap get_fault (run-append fault_init before (clears ∷ sets code ∷ later))
    ∙ kept (set_fault (clear_fault s) code) later q (ground arith)
    ∙ ground arith

-- After any calls the count has grown by the number of faults set, modulo 2^32: clears do not
-- reset it.
pub count-run :
    (s : FaultState) (cs : List FaultCall)
    → s.fault_count < 2 ^ 32
    → (run s cs).fault_count ≡ u32 (s.fault_count + faults cs)
unfolding run step set_fault clear_fault set_panic_handler
count-run s [] h = ground arith
count-run s (sets code ∷ cs) h = ground (arith, count-run (set_fault s code) cs)
count-run s (clears ∷ cs) h = ground (arith, count-run (clear_fault s) cs)
count-run s (registers handler ∷ cs) h = ground (arith, count-run (set_panic_handler s handler) cs)
