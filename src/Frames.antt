-- ===== src/Frames.antt =====
-- The raw frames of the co-simulation hosts (sw/ludp_host_dpi.py).
pub mod Checksum
pub mod Verify
pub mod Generate
pub mod Padding
pub mod Sizes
pub mod Layout
