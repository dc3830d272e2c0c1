-- ===== src/Fifo/Reader.antt =====
-- `dpi_fifo_poll` of tb/dpi_fifo.c, on the bytes of a new file. An `int` of four bytes is negative
-- from 2^31 on.
use mini_corundum.Base.{
  ℕ, zero, suc, Option, none, some, List, [], ◌∷◌, ◌++◌, ◌||◌, length, take, drop, ltb, leb, ◌==◌,
  if◌then◌else◌,
}
use mini_corundum.Struct.{unpack_I}

abbrev pub max_packet_size : ℕ
max_packet_size = 9216

abbrev pub max_packets : ℕ
max_packets = 256

-- `fread(&n, sizeof(int), 1, fp)`: the four bytes, if they are there
abbrev pub read_int : List ℕ → Option ℕ
read_int bytes = unpack_I (take 4 bytes)

-- The loop over the packets, with `count` rounds left and `packets` in the buffer so far: it stops
-- at a length that is missing, not positive or too long, at a full buffer, and at a short packet.
unfoldable pub read_packets : ℕ → List (List ℕ) → List ℕ → List (List ℕ)
read_packets zero packets bytes = packets
read_packets (suc count) packets bytes = elim (read_int bytes) [
  | none ↦ packets
  | some size ↦
      let rest = drop 4 bytes in
      if size == 0 || leb 2147483648 size
      then packets
      else (if ltb max_packet_size size
          then packets
          else (if leb max_packets (length packets)
              then packets
              else (if ltb (length rest) size
                  then packets
                  else read_packets count (packets ++ take size rest ∷ []) (drop size rest))))
]

-- the packets that a poll finds in a new file
unfoldable pub dpi_fifo_poll : List ℕ → List (List ℕ)
dpi_fifo_poll bytes = elim (read_int bytes) [
  | none ↦ []
  | some count ↦ if leb 2147483648 count then [] else read_packets count [] (drop 4 bytes)
]
