-- ===== src/Controller/SeqStore.antt =====
-- gugaPI/app/seq_store.cpp: action sequences in the FRAM.
pub mod State
pub mod Codec
pub mod Layout
pub mod Slots
pub mod RoundTrip
pub mod Memory
pub mod Persistence
mod Examples
