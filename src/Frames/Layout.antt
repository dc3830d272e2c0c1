-- ===== src/Frames/Layout.antt =====
-- What the generated frames hold.
use mini_corundum.Base.{
  ℕ, ◌+◌, ◌/◌, ◌%◌, ◌≤◌, ◌<◌, ◌≡◌, ap, refl, none, some, List, [], ◌∷◌, ◌++◌, length, slice, drop,
  get_elem?, arith, suc, zero,
}
use mini_corundum.Struct.{pack_H_be, pack_I_be, pack_ip, pack_icmp, pack_udp}
use mini_corundum.Struct.RoundTrip.{Carries, wire, pack-wire, wire-Carries}
use mini_corundum.Reassembly.Credit.{credit_header}
use mini_corundum.Host.Packets.{cmd_start}
use mini_corundum.Reply.Attempt.{cmd_header}
use mini_corundum.Frames.Checksum.{calculate_checksum}
use mini_corundum.Frames.Verify.{IsAccepted, checksum_lem, calculate_checksum-verifies}
use mini_corundum.Frames.Generate.{
  fpga_mac, host_mac, ip_header, icmp_packet, counted, udp_frame, generate_ludp_start,
  generate_ludp_credit, generate_icmp_echo_request,
}

checksum-lt : (xs : List ℕ) → calculate_checksum xs < 65536
checksum-lt xs = omega (arith, (checksum_lem xs).1)

-- the bytes of the IPv4 header around its checksum
abbrev ip_pre : ℕ → ℕ → ℕ → List ℕ
ip_pre total ident proto =
    0x45 ∷ 0 ∷ total / 256 ∷ total % 256 ∷ ident / 256 ∷ ident % 256 ∷ 0x40 ∷ 0 ∷ 64 ∷ proto ∷ []

abbrev ip_post : List ℕ
ip_post = 0xC0 ∷ 0xA8 ∷ 0x01 ∷ 0xC7 ∷ 0xC0 ∷ 0xA8 ∷ 0x01 ∷ 0x80 ∷ []

-- the IPv4 header with its checksum in place
pub ip_bytes : ℕ → ℕ → ℕ → List ℕ
ip_bytes total ident proto =
    let ck = calculate_checksum (ip_pre total ident proto ++ 0 ∷ 0 ∷ ip_post) in
    ip_pre total ident proto ++ ck / 256 ∷ ck % 256 ∷ ip_post

-- For values in range the header is packed, ...
pub ip_header_lem :
    (total ident proto : ℕ)
    → total < 65536
    → ident < 65536
    → proto < 256
    → ip_header total ident proto ≡ some (ip_bytes total ident proto)
unfolding ip_header ip_bytes pack_ip pack_I_be
ip_header_lem total ident proto t i p =
    ground (arith, checksum-lt (ip_pre total ident proto ++ 0 ∷ 0 ∷ ip_post))

ip_bytes-IsAccepted : (total ident proto : ℕ) → IsAccepted (ip_bytes total ident proto)
unfolding ip_bytes
ip_bytes-IsAccepted total ident proto =
    (calculate_checksum-verifies (ip_pre total ident proto) ip_post tt).1

-- the ICMP message around its checksum
abbrev icmp_post : ℕ → ℕ → List ℕ → List ℕ
icmp_post ident seq payload = ident / 256 ∷ ident % 256 ∷ seq / 256 ∷ seq % 256 ∷ payload

pub icmp_bytes : ℕ → ℕ → List ℕ → List ℕ
icmp_bytes ident seq payload =
    let ck = calculate_checksum (8 ∷ 0 ∷ 0 ∷ 0 ∷ icmp_post ident seq payload) in
    8 ∷ 0 ∷ ck / 256 ∷ ck % 256 ∷ icmp_post ident seq payload

icmp_packet_lem :
    (ident seq n : ℕ)
    → ident < 65536
    → seq < 65536
    → icmp_packet ident seq n ≡ some (icmp_bytes ident seq (counted n 0))
unfolding icmp_packet icmp_bytes pack_icmp
icmp_packet_lem ident seq n i s =
    ground (arith, checksum-lt (8 ∷ 0 ∷ 0 ∷ 0 ∷ icmp_post ident seq (counted n 0)))

icmp_bytes-IsAccepted :
    (ident seq : ℕ) (payload : List ℕ) → IsAccepted (icmp_bytes ident seq payload)
unfolding icmp_bytes
icmp_bytes-IsAccepted ident seq payload =
    (calculate_checksum-verifies (8 ∷ 0 ∷ []) (icmp_post ident seq payload) tt).1

length-counted : (n i : ℕ) → length (counted n i) ≡ n
unfolding counted
length-counted zero i = refl
length-counted (suc n) i = ap suc (length-counted n (i + 1))

-- an Ethernet frame to the FPGA that carries an IPv4 packet of `total` bytes
pub record Ipv4Frame (total ident proto : ℕ) (frame : List ℕ) : Type 0 where
  pub size : length frame ≡ 14 + total
  pub ethernet : slice 0 14 frame ≡ fpga_mac ++ host_mac ++ 0x08 ∷ 0x00 ∷ []
  pub total_at : slice 16 18 frame ≡ total / 256 ∷ total % 256 ∷ []
  pub ident_at : slice 18 20 frame ≡ ident / 256 ∷ ident % 256 ∷ []
  pub proto_at : get_elem? frame 23 ≡ some proto
  pub header_checks : IsAccepted (slice 14 34 frame)

-- the frame around an IPv4 payload
abbrev ipv4_frame : ℕ → ℕ → ℕ → List ℕ → List ℕ
ipv4_frame total ident proto rest =
    fpga_mac ++ host_mac ++ (0x08 ∷ 0x00 ∷ []) ++ ip_bytes total ident proto ++ rest

ipv4_frame_lem :
    (total ident proto : ℕ) (rest : List ℕ)
    → total ≡ 20 + length rest
    → Ipv4Frame total ident proto (ipv4_frame total ident proto rest)
unfolding ip_bytes
ipv4_frame_lem total ident proto rest e = record {
  size = omega arith;
  ethernet = refl;
  total_at = refl;
  ident_at = refl;
  proto_at = refl;
  header_checks = ip_bytes-IsAccepted total ident proto;
}

-- A ping of up to 65507 bytes is an IPv4 frame whose two checksums are right and whose payload is
-- the counting bytes.
pub record PingFrame (ident seq n : ℕ) (frame : List ℕ) : Type 0 where
  pub ipv4 : Ipv4Frame (28 + n) 0 1 frame
  pub message_checks : IsAccepted (drop 34 frame)
  pub kind_at : get_elem? frame 34 ≡ some 8
  pub ident_at : slice 38 40 frame ≡ ident / 256 ∷ ident % 256 ∷ []
  pub seq_at : slice 40 42 frame ≡ seq / 256 ∷ seq % 256 ∷ []
  pub payload : drop 42 frame ≡ counted n 0

ping_frame_lem :
    (ident seq n : ℕ)
    → PingFrame ident seq n (ipv4_frame (28 + n) 0 1 (icmp_bytes ident seq (counted n 0)))
unfolding ip_bytes icmp_bytes
ping_frame_lem ident seq n = record {
  ipv4 =
      ipv4_frame_lem (28 + n) 0 1 (icmp_bytes ident seq (counted n 0))
        (omega (arith, length-counted n 0));
  message_checks = icmp_bytes-IsAccepted ident seq (counted n 0);
  kind_at = refl;
  ident_at = refl;
  seq_at = refl;
  payload = refl;
}

pub generate_icmp-PingFrame :
    (ident seq n : ℕ)
    → ident < 65536
    → seq < 65536
    → n ≤ 65507
    → (frame : List ℕ) × (generate_icmp_echo_request ident seq n ≡ some frame)
      × PingFrame ident seq n frame
unfolding generate_icmp_echo_request pack_H_be
generate_icmp-PingFrame ident seq n i s h = (
  ipv4_frame (28 + n) 0 1 (icmp_bytes ident seq (counted n 0)),
  rw (
    ip_header_lem (28 + n) 0 1 (omega arith) (omega arith) (omega arith),
    icmp_packet_lem ident seq n i s,
  ),
  ping_frame_lem ident seq n,
)

-- A ping payload of more than 65507 bytes does not fit the length field of IPv4: no frame is made,
-- since `struct.pack` raises.
pub generate_icmp-long :
    (ident seq n : ℕ) → 65507 < n → generate_icmp_echo_request ident seq n ≡ none
unfolding generate_icmp_echo_request ip_header pack_ip pack_H_be pack_I_be
generate_icmp-long ident seq n long = ground arith

-- the frame of a UDP datagram from port 12345 to port 1234
pub record UdpFrame (ident : ℕ) (pkt frame : List ℕ) : Type 0 where
  pub ipv4 : Ipv4Frame (28 + length pkt) ident 17 frame
  pub ports : slice 34 38 frame ≡ 0x30 ∷ 0x39 ∷ 0x04 ∷ 0xD2 ∷ []
  pub size_at : slice 38 40 frame ≡ (8 + length pkt) / 256 ∷ (8 + length pkt) % 256 ∷ []
  pub no_checksum : slice 40 42 frame ≡ 0 ∷ 0 ∷ []
  pub payload : drop 42 frame ≡ pkt

abbrev udp_bytes : List ℕ → List ℕ
udp_bytes pkt =
    0x30 ∷ 0x39 ∷ 0x04 ∷ 0xD2 ∷ (8 + length pkt) / 256 ∷ (8 + length pkt) % 256 ∷ 0 ∷ 0 ∷ pkt

pub udp_frame-UdpFrame :
    (ident : ℕ) (pkt : List ℕ)
    → ident < 65536
    → length pkt ≤ 65507
    → (frame : List ℕ) × (udp_frame ident pkt ≡ some frame) × UdpFrame ident pkt frame
unfolding udp_frame pack_udp pack_H_be ip_bytes
udp_frame-UdpFrame ident pkt i h = (
  ipv4_frame (28 + length pkt) ident 17 (udp_bytes pkt),
  ground (arith, ip_header_lem (28 + length pkt) ident 17 (omega arith) i (omega arith)),
  record {
    ipv4 = ipv4_frame_lem (28 + length pkt) ident 17 (udp_bytes pkt) (omega arith);
    ports = refl;
    size_at = refl;
    no_checksum = refl;
    payload = refl;
  },
)

-- For a credit below 2^32 the frame is made; it is an Ethernet frame with a UDP datagram from port
-- 12345 to port 1234 and the right lengths, in which the 16-bit words of the IPv4 header sum up to
-- a multiple of 65535 other than 0, as a receiver checks, and a reader of the LUDP header finds in
-- it the CREDIT packet of that value.
pub generate_ludp_credit-Carries :
    (credit : ℕ)
    → credit < 4294967296
    → (frame : List ℕ) × (pkt : List ℕ) × (generate_ludp_credit credit ≡ some frame)
      × UdpFrame 2 pkt frame
      × Carries (credit_header credit) pkt
unfolding generate_ludp_credit
generate_ludp_credit-Carries credit c =
    let w = wire-Carries (credit_header credit) (omega arith) in
    let (frame, made, layout) =
      udp_frame-UdpFrame 2 (wire (credit_header credit)) (omega arith) (omega (arith, w.size)) in
    (
      frame,
      wire (credit_header credit),
      rw (pack-wire (credit_header credit) (omega arith)) made,
      layout,
      w,
    )

-- The START frame is made; it is a UDP frame to port 1234 with the right lengths and an IPv4
-- checksum that verifies, and a reader of the LUDP header finds in it the START command.
pub generate_ludp_start-Carries :
    (frame : List ℕ) × (pkt : List ℕ) × (generate_ludp_start ≡ some frame)
    × UdpFrame 1 pkt frame
    × Carries (cmd_header cmd_start 0 0 0 1) pkt
unfolding generate_ludp_start
generate_ludp_start-Carries =
    let header = cmd_header cmd_start 0 0 0 1 in
    let w = wire-Carries header (omega arith) in
    let (frame, made, layout) =
      udp_frame-UdpFrame 1 (wire header) (omega arith) (omega (arith, w.size)) in
    (frame, wire header, rw (pack-wire header (omega arith)) made, layout, w)
