-- ===== src/Fifo/RoundTrip.antt =====
-- What is written is read.
use mathlib.Core.List.{append-nil, append_assoc}
use mini_corundum.Base.{
  ℕ, suc, ◌+◌, ◌≤◌, ◌<◌, ◌≡◌, ◌∙◌, sym, ◌*◌, refl, some, List, [], ◌∷◌, ◌++◌, All, length,
  length-append, take, drop, arith, ap, ◌/◌, ◌%◌,
}
use mini_corundum.Struct.{pack_I}
use mini_corundum.Fifo.{write_each, write_packets_to_file}
use mini_corundum.Fifo.Reader.{max_packet_size, max_packets, read_packets, dpi_fifo_poll}

-- a packet that the reader takes
abbrev pub IsReadable : List ℕ → Type 0
IsReadable pkt = (0 < length pkt) × (length pkt ≤ max_packet_size)

take-append : {A : Type 0} (xs ys : List A) → take (length xs) (xs ++ ys) ≡ xs
take-append [] ys = refl
take-append (x ∷ xs) ys = ap (◌∷◌ x) (take-append xs ys)

drop-append : {A : Type 0} (xs ys : List A) → drop (length xs) (xs ++ ys) ≡ ys
drop-append [] ys = refl
drop-append (x ∷ xs) ys = drop-append xs ys

-- one packet, behind its length
read_packets-cons :
    (count : ℕ) (packets : List (List ℕ)) (pkt rest : List ℕ)
    → IsReadable pkt
    → length packets < max_packets
    → let n = length pkt in
      read_packets
        (suc count)
        packets
        (n % 256 ∷ n / 256 % 256 ∷ n / 65536 % 256 ∷ n / 16777216 ∷ (pkt ++ rest))
      ≡ read_packets count (packets ++ pkt ∷ []) rest
unfolding read_packets
read_packets-cons count packets pkt rest r h =
    let n = length pkt in
    let e : n % 256 + 256 * (n / 256 % 256) + 65536 * (n / 65536 % 256) + 16777216 * (n / 16777216)
        ≡ n =
      omega arith in
    rw (e, take-append pkt rest, drop-append pkt rest) (ground (arith, length-append pkt rest))

-- the reader on what `write_each` writes
read-write_each :
    (pkts packets : List (List ℕ))
    → All IsReadable pkts
    → length packets + length pkts ≤ max_packets
    → (bytes : List ℕ) × (write_each pkts ≡ some bytes)
      × (read_packets (length pkts) packets bytes ≡ packets ++ pkts)
unfolding write_each pack_I read_packets
read-write_each [] packets r h = ([], refl, sym (append-nil packets))
read-write_each (pkt ∷ pkts) packets r h =
    let n = length pkt in
    let (rest, wrote, read) =
      read-write_each pkts (packets ++ pkt ∷ []) r.1
        (omega (arith, length-append packets (pkt ∷ []))) in
    (
      n % 256 ∷ n / 256 % 256 ∷ n / 65536 % 256 ∷ n / 16777216 ∷ (pkt ++ rest),
      ground (arith, wrote),
      read_packets-cons (length pkts) packets pkt rest r.0 (omega arith)
          ∙ read
          ∙ append_assoc packets (pkt ∷ []) pkts,
    )

-- Up to 256 packets of 1 to 9216 bytes each are written without an error, and the simulation's
-- poll of the file reads back the same packets.
pub dpi_fifo_poll-write :
    (packets : List (List ℕ))
    → All IsReadable packets
    → length packets ≤ max_packets
    → (bytes : List ℕ) × (write_packets_to_file packets ≡ some bytes)
      × (dpi_fifo_poll bytes ≡ packets)
unfolding write_packets_to_file dpi_fifo_poll pack_I
dpi_fifo_poll-write packets r h =
    let n = length packets in
    let (rest, wrote, read) = read-write_each packets [] r (omega arith) in
    let e : n % 256 + 256 * (n / 256 % 256) + 65536 * (n / 65536 % 256) + 16777216 * (n / 16777216)
        ≡ n =
      omega arith in
    (
      n % 256 ∷ n / 256 % 256 ∷ n / 65536 % 256 ∷ n / 16777216 ∷ rest,
      ground (arith, wrote),
      rw e (ground (arith, read)),
    )
