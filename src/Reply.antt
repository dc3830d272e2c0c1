-- ===== src/Reply.antt =====
-- What the commands of `LudpHost` guarantee: their packets, their answers and their retries.
pub mod Answers
pub mod Attempt
pub mod Retry
pub mod ReadReg
pub mod Build
