-- ===== src/Controller/Lora.antt =====
-- gugaPI/app/lora_protocol.cpp: frames over the LoRa link, with acknowledgements and retries.
pub mod State
pub mod Frame
pub mod Receive
pub mod Send
pub mod Parse
pub mod RoundTrip
pub mod Queue
pub mod Delivery
pub mod Exchange
pub mod Retries
pub mod Session
pub mod Bounds
mod Examples
