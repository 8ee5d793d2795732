-- ===== src/MotorDriver.antt =====
-- MotorDriver/: the dual motor driver behind its register protocol.
pub mod Reg
pub mod Flag
pub mod RegisterMap
pub mod Serial
pub mod UartLink
pub mod I2cTarget
pub mod App
pub mod Drv8701
pub mod Control
pub mod Examples
