-- ===== src/Controller.antt =====
-- gugaPI/: the main controller of the car.
pub mod DriverStatus
pub mod ModeSwitchChord
pub mod Ina219Protection
pub mod Fault
pub mod Scheduler
pub mod Lora
pub mod MotorClient
mod Examples
pub mod Action
pub mod Yields
pub mod SeqStore
pub mod ConfigStore
pub mod InfraredLine
