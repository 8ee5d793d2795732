-- ===== src/Controller/Fault.antt =====
-- gugaPI/services/fault.cpp: the latch of the first fault.
pub mod Latch
use guga_pi.Common.{
  ℕ, ◌+◌, Bool, true, false, not, if◌then◌else◌, Option, none, some, List, [], ◌∷◌, u32,
}

pub data FaultCode : Type 0 where
  no_fault assertion driver_init driver_timeout sensor_lost uart_overflow dm_timeout dm_motor
        unknown :
      FaultCode

-- The variables of the file. A handler is known by a number.
pub record FaultState : Type 0 where
  pub current_fault : FaultCode
  pub latched_fault : FaultCode
  pub has_fault : Bool
  pub fault_count : ℕ
  pub panic_handler : Option ℕ

abbrev pub is_fault : FaultCode → Bool
is_fault no_fault = false
is_fault _ = true

unfoldable pub fault_init : FaultState
fault_init = record {
  current_fault = no_fault;
  latched_fault = no_fault;
  has_fault = false;
  fault_count = 0;
  panic_handler = none;
}

unfoldable pub set_fault : FaultState → FaultCode → FaultState
set_fault s code =
    if is_fault code
    then (let s1 = record s { current_fault = code; fault_count = u32 (s.fault_count + 1) } in
        if not s.has_fault then record s1 { latched_fault = code; has_fault = true } else s1)
    else s

unfoldable pub get_fault : FaultState → FaultCode
get_fault s = if s.has_fault then s.latched_fault else s.current_fault

unfoldable pub clear_fault : FaultState → FaultState
clear_fault s = record s { current_fault = no_fault; latched_fault = no_fault; has_fault = false }

unfoldable pub set_panic_handler : FaultState → Option ℕ → FaultState
set_panic_handler s handler = record s { panic_handler = handler }

-- `Fault_Panic` up to the loop that it never leaves: the state, and the calls of handlers.
unfoldable pub panic : FaultState → FaultCode → FaultState × List (ℕ × FaultCode)
panic s code =
    let s1 = set_fault s code in
    elim s1.panic_handler [ none ↦ (s1, []) | some handler ↦ (s1, (handler, code) ∷ []) ]
