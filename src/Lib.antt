-- ===== src/Lib.antt =====
-- A model of the firmware of this repository: the dual motor driver (MotorDriver/) and the car's
-- main controller (gugaPI/).
--
-- The parts and the files.
--   MotorDriver/Reg, MotorDriver/Flag: the addresses, flags and limits of
--     MotorDriver/protocol/motor_registers.h (REG_M1_MODE is Reg.m1_mode, kRegisterCount is
--     Flag.register_count).
--   MotorDriver/RegisterMap and below: the class of MotorDriver/protocol/register_map.cpp. State
--     has the object, the loads, the stores and the getters; Status has RefreshStatus,
--     HasActiveCommand and ForceCoastOnTimeout; Write has ReadBlock, CommitWrite and ApplyWriteTo;
--     Update has Init and the methods that the control loop calls. The other modules are proofs.
--   MotorDriver/Serial and below: the parser of MotorDriver/protocol/serial_protocol.cpp, which
--     calls the register map. A call of ProcessByte is `process_byte`, whose result has the object,
--     the register map, the response and the flags that go out through the pointers.
--   MotorDriver/UartLink and below: MotorDriver/drivers/uart_link.cpp, the receive buffer and the
--     polled writes. Queue and Refinement are proofs.
--   MotorDriver/I2cTarget and below: MotorDriver/board/board_i2c_target.cpp. `irq_handler` is
--     BoardI2cTarget_IrqHandler; Queue and Transactions are proofs.
--   MotorDriver/Drv8701 and below: MotorDriver/drivers/drv8701.cpp. The calls of the vendor's
--     library are a list, and Drive says what they make of the bridge's inputs, by what the
--     library documents: one call connects a pin to the port or to the timer, one writes the bit of
--     the port, one switches the output on. Bridge has the
--     calls of MotorDriver/board/board_motor_outputs.cpp.
--   MotorDriver/Control and below: MotorDriver/control/motor_control.cpp. The parent has the state
--     of a loop and the ramp, Pid the arithmetic, Position UpdatePositionMotor, Speed
--     UpdateSpeedMotor, Apply the functions of the header. Ramp, Duty, Bounded, Within and
--     Hysteresis are proofs, but for PositionDutyFromCommand, which Duty has.
--   MotorDriver/App and below: MotorDriver/app/motor_app.cpp, which joins all of these. The parent
--     has the handlers, Process MotorApp_Init and MotorApp_Process; `receive_byte` is one round of
--     the loop of ProcessSerialRx, `receive_i2c_write` one of ProcessI2cWrites. Watchdog, Silence,
--     Outputs, Loop and Rpm are proofs.
--   Controller/ModeSwitchChord: gugaPI/app/mode_switch_chord.h.
--   Controller/Ina219Protection: gugaPI/app/ina219_protection.cpp.
--   Controller/Scheduler and below: gugaPI/services/scheduler.cpp. `run_slot` is one round of the
--     loop of Scheduler_Run.
--   Controller/Fault: gugaPI/services/fault.cpp.
--   Controller/Lora and below: gugaPI/app/lora_protocol.cpp. State has the context, Frame the check
--     value and EncodeFrame, Receive the parser and what a completed frame does, Send the rest. The
--     other modules are proofs: Parse and RoundTrip on the bytes of a frame, Queue on the ring,
--     Delivery, Exchange and Session on whole exchanges, Retries on timeouts, Bounds on indices.
--   Controller/MotorClient and below: gugaPI/app/motor_driver_client.h. Link has the constants and
--     what lies below, Action the results of calls that may fail, Uart and Registers the requests
--     over the two buses, Codec, Reads and Writes the register blocks, Motion the motions and Stop.
--     Yields, Wire, Reception, Requests, EndToEnd and Stopping are proofs that join the client to
--     the driver's parser and register map.
--   Controller/InfraredLine and below: gugaPI/drivers/infrared_line/infrared_line_protocol.cpp.
--     `find_start` is the loop of ResyncAfterBadFrame; Headers has the proofs.
--   Controller/SeqStore and below: gugaPI/app/seq_store.cpp. State has the layout and the interface,
--     Codec the bytes of instructions and check values, Layout EnsureLayout and the migration of
--     slots of the first version, Slots the operations. RoundTrip, Memory and Persistence are proofs.
--   Controller/ConfigStore and below: gugaPI/app/config_store.cpp. Field numbers the fields of
--     ConfigStoreParams, so that a set of parameters is a function of the number; Table is the list of
--     descriptors, Params the defaults and ValidateParams, Layout the stored order and Payload the
--     encoder and decoder of every version. Its FRAM is the record `Fram`.
--   Controller/Action: calls that may fail, for MotorClient and SeqStore; Controller/Yields reasons
--     about them.
--   The modules Examples apply the theorems to concrete inputs.
--   Common: lists, arrays, words, integers, ring buffers and Boolean tests.
--
-- How the code is represented. A function that changes an object takes the state and returns the
-- new one. A uint8_t, uint16_t or uint32_t is a natural number with the wrap-around written out
-- (u8, u16, u32, sub32). A signed integer is its two's complement pattern, and in the control loops
-- an integer (ℤ of Common/Int), with casts between the two; no 64-bit sum or product there leaves
-- its type. A C array is a function
-- from the index to the byte, total also past the end of the array, so that a write past the end
-- would show: the theorems on bounds say that there is none. A function that returns false or
-- leaves early returns an option. Pointers that the callers never pass as null are not options.
--
-- Interfaces. The peripherals of the motor driver (encoders, UART, I2C target, flash) are the
-- record `Board` of MotorDriver/App, a parameter of its definitions; the end of the loop over the
-- received bytes is about a board whose serial port is the link of MotorDriver/UartLink
-- (`IsLinked`), the rest assumes no law. The vendor's functions below the UART link are the record
-- `Uart`; those below the I2C target are arguments, and what they do to the peripheral is left out.
-- No interrupt falls inside MotorApp_Process. The clock
-- and the callbacks of the scheduler are the record `Environment` of Controller/Scheduler; a
-- callback may change the tasks, and the theorem on periods has the hypothesis that none changes
-- the slot it is about. The write function of the LoRa link is the record `Radio`; the theorem on
-- an exchange takes one that loses nothing (`IsReliable`), the others take any. The UART, the I2C
-- bus and the clock of the client are the record `Link`; `IsWire` of Controller/MotorClient/Wire
-- says that it joins the client to the driver's parser, that nothing is lost, and that a reading
-- of the clock takes a millisecond at most. The FRAM and the runner of the sequence store are the
-- record `Platform`; `IsMemory` says that the FRAM has 8 KB and keeps what is written, and that a
-- validation only looks at the instructions. The FRAM of the configuration store is the record
-- `Fram`, of which nothing is assumed. What other code does between the calls is an explicit
-- list: the events of MotorDriver/App/Watchdog, the method calls of MotorDriver/RegisterMap/Calls
-- and Controller/Fault/Latch, the samples of the chord, the reports of the current monitor.
--
-- Loops and bounds. Loops over a length recurse on the number of rounds left, so no fuel is
-- needed: CommitWrite and ReadBlock on the length, Crc8Update on its eight rounds, the scheduler
-- on its sixteen slots, the retries over I2C on the attempts left. The loops of ProcessSerialRx and
-- ProcessI2cWrites have a bound; more than the bytes that wait is enough for the first. The loops of the client that
-- wait for a byte until the clock says stop have fuel, and a call that runs out of it is
-- `unfinished`; the theorems over a UART show that any fuel but none is enough there. The loop
-- that Fault_Panic never leaves is cut off: `panic` ends where it begins.
--
-- Not modelled: of the motor driver the flash, the pins and the quadrature decoder; of the
-- controller Scheduler_GetTaskInfo, which only copies, the drivers and boards (hardware access), the
-- accessors of the client that only pass a call on to the UART, the shell,
-- the action runner and the other components; and the separate projects FOC and TEST.
mod Common
pub mod MotorDriver
pub mod Controller
