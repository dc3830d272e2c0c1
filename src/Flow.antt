-- ===== src/Flow.antt =====
-- What the polling thread of `LudpHost` guarantees: credit, and recovery from lost packets.
pub mod Skip
pub mod Round
pub mod Credit
pub mod KeepAlive
pub mod Limits
