-- ===== src/Host.antt =====
-- `class LudpHost` of sw/ludp_host.py, method by method.
pub mod State
pub mod Packets
pub mod Receive
pub mod Poll
pub mod Commands
