-- ===== src/Race/Ghost.antt =====
-- The receive thread beside a host of its own, and what can end it.
pub mod Agree
pub mod Receiver
pub mod Granting
pub mod Entering
pub mod Sound
pub mod Unbroken
