-- ===== src/Examples.antt =====
-- Runs of the model, and the theorems at concrete inputs.
pub mod Data
mod Receiving
mod Polling
mod Commanding
mod Framing
mod Interleaving
mod Socket
mod Logging
mod Coverage
mod Typing
mod Racing
