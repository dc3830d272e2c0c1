-- ===== src/Race/Order.antt =====
-- The order in which packets are handed over, while the polling thread skips no gap.
pub mod Known
pub mod Sections
pub mod Plain
pub mod Receiver
pub mod Poller
pub mod Turns
pub mod Early
pub mod Soon
