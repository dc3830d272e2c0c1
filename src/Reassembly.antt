-- ===== src/Reassembly.antt =====
-- What the receive path of `LudpHost` guarantees: data in order, each packet once.
pub mod Heap
pub mod Trace
pub mod Drain
pub mod Wire
pub mod Credit
pub mod Accept
pub mod Stream
pub mod Complete
