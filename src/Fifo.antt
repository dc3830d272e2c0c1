-- ===== src/Fifo.antt =====
-- The packet file between sw/ludp_host_fifo.py, which writes it, and tb/dpi_fifo.c, which reads it.
pub mod Reader
pub mod RoundTrip
pub mod Generate
pub mod Agreement
pub mod Main
use mini_corundum.Base.{ℕ, Option, some, List, [], ◌∷◌, ◌++◌, length}
use mini_corundum.Struct.{◌>>=◌, pack_I}

-- the packets, each behind its length
unfoldable pub write_each : List (List ℕ) → Option (List ℕ)
write_each [] = some []
write_each (pkt ∷ packets) = do
  size ← pack_I (length pkt)
  rest ← write_each packets
  some (size ++ pkt ++ rest)

-- the bytes that `write_packets_to_file` writes; `none` is a `struct.error`
unfoldable pub write_packets_to_file : List (List ℕ) → Option (List ℕ)
write_packets_to_file packets = do
  count ← pack_I (length packets)
  rest ← write_each packets
  some (count ++ rest)
