-- ===== src/Race.antt =====
-- The receive thread and the polling thread between two accesses to the host's fields. `self.lock`
-- guards only the counters, so each thread stands at a point of its code and either may go on.
pub mod Machine
pub mod Loops
pub mod Receiver
pub mod Poller
pub mod System
pub mod Alone
pub mod Copies
pub mod KeptSections
pub mod KeptThreads
pub mod Conserved
pub mod Order
pub mod Counters
pub mod Ghost
pub mod Chances
pub mod Whole
pub mod Skipping
pub mod Overtaken
