-- ===== src/Fifo/Main.antt =====
-- From the command line of the FIFO host to what the simulation reads.
use mini_corundum.Base.{ℕ, ◌≤◌, ◌<◌, ◌≡◌, Option, some, List, [], ◌∷◌, All, map, length, arith}
use mini_corundum.Frames.Generate
use mini_corundum.Frames.Sizes.{arp_made, icmp_made, start_made, credit_made}
use mini_corundum.Fifo.Reader.{dpi_fifo_poll}
use mini_corundum.Fifo.RoundTrip.{IsReadable, dpi_fifo_poll-write}
use mini_corundum.Fifo.Generate.{
  PacketType, arp, icmp, ludp_start, ludp_credit, ludp_full, packets_of, main,
}
use mini_corundum.Fifo.Agreement.{generators_agree}

-- the frames that a packet type stands for, by the generators of sw/ludp_host_dpi.py
abbrev pub frames : PacketType → ℕ → List (Option (List ℕ))
frames arp credit = Generate.generate_arp_request ∷ []
frames icmp credit = Generate.generate_icmp_echo_request 0x1234 0x0001 32 ∷ []
frames ludp_start credit = Generate.generate_ludp_start ∷ []
frames ludp_credit credit = Generate.generate_ludp_credit credit ∷ []
frames ludp_full credit =
    Generate.generate_arp_request
    ∷ Generate.generate_ludp_start
    ∷ Generate.generate_ludp_credit credit
    ∷ []

-- the packets that `main` gathers
packets_lem :
    (packet_type : PacketType) (credit : ℕ)
    → credit < 4294967296
    → (packets : List (List ℕ)) × (packets_of packet_type credit ≡ some packets)
      × (map some packets ≡ frames packet_type credit)
      × All IsReadable packets
      × (length packets ≤ 3)
unfolding packets_of
packets_lem arp credit c =
    let (pkt, made, r) = arp_made in
    (pkt ∷ [], rw (generators_agree.0, made), rw made, (omega arith, tt), omega arith)
packets_lem icmp credit c =
    let (pkt, made, r) = icmp_made in
    (
      pkt ∷ [],
      rw (generators_agree.1 0x1234 0x0001 32, made),
      rw made,
      (omega arith, tt),
      omega arith,
    )
packets_lem ludp_start credit c =
    let (pkt, made, r) = start_made in
    (pkt ∷ [], rw (generators_agree.2, made), rw made, (omega arith, tt), omega arith)
packets_lem ludp_credit credit c =
    let (pkt, made, r) = credit_made credit c in
    (pkt ∷ [], rw (generators_agree.3 credit, made), rw made, (omega arith, tt), omega arith)
packets_lem ludp_full credit c =
    let (p, p_made, pr) = arp_made in
    let (q, q_made, qr) = start_made in
    let (t, t_made, tr) = credit_made credit c in
    (
      p ∷ q ∷ t ∷ [],
      rw (
        generators_agree.0,
        generators_agree.2,
        generators_agree.3 credit,
        p_made,
        q_made,
        t_made,
      ),
      rw (p_made, q_made, t_made),
      (omega arith, (omega arith, (omega arith, tt))),
      omega arith,
    )

-- For any packet type and a credit below 2^32, the FIFO host writes its file, and the simulation's
-- poll reads from it exactly the frames that the generators of sw/ludp_host_dpi.py make for that
-- type.
pub main-dpi_fifo_poll :
    (packet_type : PacketType) (credit : ℕ)
    → credit < 4294967296
    → (packets : List (List ℕ)) × (bytes : List ℕ) × (main packet_type credit ≡ some bytes)
      × (dpi_fifo_poll bytes ≡ packets)
      × (map some packets ≡ frames packet_type credit)
unfolding main
main-dpi_fifo_poll packet_type credit c =
    let (packets, gathered, same, r, few) = packets_lem packet_type credit c in
    let (bytes, wrote, read) = dpi_fifo_poll-write packets r (omega arith) in
    (packets, bytes, rw gathered wrote, read, same)
