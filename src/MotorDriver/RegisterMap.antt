-- ===== src/MotorDriver/RegisterMap.antt =====
-- MotorDriver/protocol/register_map.cpp: the class `RegisterMap`, and what its methods keep.
pub mod State
pub mod Status
pub mod Write
pub mod Update
pub mod Stores
pub mod ReadOnly
pub mod Safety
pub mod Limits
pub mod Ranges
pub mod Calls
pub mod Words
mod Examples
