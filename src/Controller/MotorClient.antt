-- ===== src/Controller/MotorClient.antt =====
-- gugaPI/app/motor_driver_client.h: the main controller's side of the motor driver's two buses.
pub mod Link
pub mod Uart
pub mod Registers
pub mod Codec
pub mod Reads
pub mod Writes
pub mod Motion
pub mod Wire
pub mod Reception
pub mod Requests
pub mod EndToEnd
pub mod Stopping
mod Examples
