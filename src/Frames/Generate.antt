-- ===== src/Frames/Generate.antt =====
-- The frame generators of sw/ludp_host_dpi.py; `none` is a `struct.error`.
use mini_corundum.Base.{
  ℕ, zero, suc, ◌+◌, ◌%◌, Option, some, List, [], ◌∷◌, ◌++◌, length, ltb, if◌then◌else◌,
}
use mini_corundum.Struct.{◌>>=◌, pack_H_be, pack_I_be, pack_ip, pack_icmp, pack_udp, pack_header}
use mini_corundum.Host.Packets.{ludp_magic, ludp_port, pkt_cmd, pkt_credit}
use mini_corundum.Frames.Checksum.{calculate_checksum}

-- b'\xff\xff\xff\xff\xff\xff'
abbrev pub broadcast : List ℕ
broadcast = 0xff ∷ 0xff ∷ 0xff ∷ 0xff ∷ 0xff ∷ 0xff ∷ []

-- b'\x02\x00\x00\x00\x00\x00', the FPGA
abbrev pub fpga_mac : List ℕ
fpga_mac = 0x02 ∷ 0x00 ∷ 0x00 ∷ 0x00 ∷ 0x00 ∷ 0x00 ∷ []

-- b'\x02\x00\x00\x00\x00\x01', the host
abbrev pub host_mac : List ℕ
host_mac = 0x02 ∷ 0x00 ∷ 0x00 ∷ 0x00 ∷ 0x00 ∷ 0x01 ∷ []

-- 192.168.1.199
abbrev pub host_ip : ℕ
host_ip = 0xC0A801C7

-- 192.168.1.128
abbrev pub fpga_ip : ℕ
fpga_ip = 0xC0A80180

-- `while len(frame) < 60: frame += b'\x00'`, with fuel
unfoldable pub pad_frame : ℕ → List ℕ → List ℕ
pad_frame zero frame = frame
pad_frame (suc fuel) frame =
    let rest = pad_frame fuel (frame ++ 0 ∷ []) in if ltb (length frame) 60 then rest else frame

-- `bytes([i & 0xFF for i in range(n)])`, from `i` on
unfoldable pub counted : ℕ → ℕ → List ℕ
counted zero i = []
counted (suc n) i = (i % 256) ∷ counted n (i + 1)

unfoldable pub generate_arp_request : Option (List ℕ)
generate_arp_request = do
  eth_type ← pack_H_be 0x0806
  hw_type ← pack_H_be 1
  proto_type ← pack_H_be 0x0800
  opcode ← pack_H_be 1
  sender_ip ← pack_I_be host_ip
  target_ip ← pack_I_be fpga_ip
  let arp_packet =
      hw_type
      ++ proto_type
      ++ (0x06 ∷ [])
      ++ (0x04 ∷ [])
      ++ opcode
      ++ host_mac
      ++ sender_ip
      ++ (0 ∷ 0 ∷ 0 ∷ 0 ∷ 0 ∷ 0 ∷ [])
      ++ target_ip
  some (pad_frame 60 (broadcast ++ host_mac ++ eth_type ++ arp_packet))

-- The IPv4 header of each frame, packed with a zero checksum and then with the right one.
unfoldable pub ip_header : ℕ → ℕ → ℕ → Option (List ℕ)
ip_header total_length ident proto = do
  src ← pack_I_be host_ip
  dst ← pack_I_be fpga_ip
  blank ← pack_ip 0x45 0x00 total_length ident 0x4000 64 proto 0
  packed ←
      pack_ip 0x45 0x00 total_length ident 0x4000 64 proto
        (calculate_checksum (blank ++ src ++ dst))
  some (packed ++ src ++ dst)

-- the ICMP echo request, packed with a zero checksum and then with the right one
unfoldable pub icmp_packet : ℕ → ℕ → ℕ → Option (List ℕ)
icmp_packet identifier sequence payload_size = do
  blank ← pack_icmp 8 0 0 identifier sequence
  let payload = counted payload_size 0
  packed ← pack_icmp 8 0 (calculate_checksum (blank ++ payload)) identifier sequence
  some (packed ++ payload)

unfoldable pub generate_icmp_echo_request : ℕ → ℕ → ℕ → Option (List ℕ)
generate_icmp_echo_request identifier sequence payload_size = do
  eth_type ← pack_H_be 0x0800
  ip ← ip_header (20 + 8 + payload_size) 0x0000 1
  icmp ← icmp_packet identifier sequence payload_size
  some (fpga_mac ++ host_mac ++ eth_type ++ ip ++ icmp)

-- the UDP frame around a packet; `ident` is the IP header's
unfoldable pub udp_frame : ℕ → List ℕ → Option (List ℕ)
udp_frame ident ludp_pkt = do
  eth_type ← pack_H_be 0x0800
  udp_header ← pack_udp 12345 ludp_port (8 + length ludp_pkt) 0
  ip ← ip_header (20 + length udp_header + length ludp_pkt) ident 17
  some (fpga_mac ++ host_mac ++ eth_type ++ ip ++ udp_header ++ ludp_pkt)

unfoldable pub generate_ludp_start : Option (List ℕ)
generate_ludp_start = do
  ludp_pkt ← pack_header ludp_magic pkt_cmd 0x00 0x00000001 0x0001 0x00000000 0x0000
  udp_frame 0x0001 ludp_pkt

unfoldable pub generate_ludp_credit : ℕ → Option (List ℕ)
generate_ludp_credit credit_value = do
  ludp_pkt ← pack_header ludp_magic pkt_credit 0x00 credit_value 0x0000 0x00000000 0x0000
  udp_frame 0x0002 ludp_pkt
