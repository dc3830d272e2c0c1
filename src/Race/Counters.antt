-- ===== src/Race/Counters.antt =====
-- The counters under the lock, with both threads in any order of their steps.
pub mod Exact
pub mod Sections
pub mod Loops
pub mod Steps
pub mod Turns
