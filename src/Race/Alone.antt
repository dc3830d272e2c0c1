-- ===== src/Race/Alone.antt =====
-- A thread that no other thread disturbs, against the operations of Host.
pub mod Sections
pub mod Handle
pub mod Round
