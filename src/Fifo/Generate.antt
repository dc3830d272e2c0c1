-- ===== src/Fifo/Generate.antt =====
-- The frame generators of sw/ludp_host_fifo.py, and its `main`; `none` is an exception. They are
-- written out as that file writes them out; only the loops that fold the carries and pad a frame
-- are those of sw/ludp_host_dpi.py, word for word.
use mini_corundum.Base.{
  ℕ, zero, suc, ◌+◌, ◌-◌, ◌*◌, ◌/◌, ◌%◌, Option, some, List, [], ◌∷◌, ◌++◌, length, get_elem?, ◌==◌,
  if◌then◌else◌,
}
use mini_corundum.Struct.{◌>>=◌, pack_H_be, pack_I_be, pack_ip, pack_icmp, pack_udp, pack_header}
use mini_corundum.Host.Packets.{ludp_magic, ludp_port, pkt_cmd, pkt_credit}
use mini_corundum.Frames.Checksum.{fold_carries}
use mini_corundum.Frames.Generate.{pad_frame, counted}
use mini_corundum.Fifo.{write_packets_to_file}

-- `for i in range(0, len(data), 2): ...`, with the rounds that are left
unfoldable pub sum_indexed : ℕ → ℕ → ℕ → List ℕ → Option ℕ
sum_indexed zero i checksum bytes = some checksum
sum_indexed (suc rounds) i checksum bytes = do
  high ← get_elem? bytes i
  low ← get_elem? bytes (i + 1)
  sum_indexed rounds (i + 2) (checksum + (high * 256 + low)) bytes

unfoldable pub calculate_checksum : List ℕ → Option ℕ
calculate_checksum bytes = do
  let even = if length bytes % 2 == 1 then bytes ++ 0 ∷ [] else bytes
  checksum ← sum_indexed ((length even + 1) / 2) 0 0 even
  some (65535 - fold_carries checksum checksum % 65536)

unfoldable pub generate_arp_request : Option (List ℕ)
generate_arp_request = do
  let eth_dst = 0xff ∷ 0xff ∷ 0xff ∷ 0xff ∷ 0xff ∷ 0xff ∷ []
  let eth_src = 0x02 ∷ 0x00 ∷ 0x00 ∷ 0x00 ∷ 0x00 ∷ 0x01 ∷ []
  eth_type ← pack_H_be 0x0806
  hw_type ← pack_H_be 1
  proto_type ← pack_H_be 0x0800
  opcode ← pack_H_be 1
  sender_ip ← pack_I_be 0xC0A801C7
  target_ip ← pack_I_be 0xC0A80180
  let target_mac = 0 ∷ 0 ∷ 0 ∷ 0 ∷ 0 ∷ 0 ∷ []
  let arp_packet =
      hw_type
      ++ proto_type
      ++ (0x06 ∷ [])
      ++ (0x04 ∷ [])
      ++ opcode
      ++ eth_src
      ++ sender_ip
      ++ target_mac
      ++ target_ip
  some (pad_frame 60 (eth_dst ++ eth_src ++ eth_type ++ arp_packet))

unfoldable pub generate_icmp_echo_request : ℕ → ℕ → ℕ → Option (List ℕ)
generate_icmp_echo_request identifier sequence payload_size = do
  let eth_dst = 0x02 ∷ 0x00 ∷ 0x00 ∷ 0x00 ∷ 0x00 ∷ 0x00 ∷ []
  let eth_src = 0x02 ∷ 0x00 ∷ 0x00 ∷ 0x00 ∷ 0x00 ∷ 0x01 ∷ []
  eth_type ← pack_H_be 0x0800
  let ip_total_length = 20 + 8 + payload_size
  ip_src ← pack_I_be 0xC0A801C7
  ip_dst ← pack_I_be 0xC0A80180
  blank_ip ← pack_ip 0x45 0x00 ip_total_length 0x0000 0x4000 64 1 0
  ip_checksum ← calculate_checksum (blank_ip ++ ip_src ++ ip_dst)
  ip_header ← pack_ip 0x45 0x00 ip_total_length 0x0000 0x4000 64 1 ip_checksum
  blank_icmp ← pack_icmp 8 0 0 identifier sequence
  let payload = counted payload_size 0
  icmp_checksum ← calculate_checksum (blank_icmp ++ payload)
  icmp_header ← pack_icmp 8 0 icmp_checksum identifier sequence
  let icmp_packet = icmp_header ++ payload
  let ip_packet = (ip_header ++ ip_src ++ ip_dst) ++ icmp_packet
  some (eth_dst ++ eth_src ++ eth_type ++ ip_packet)

unfoldable pub generate_ludp_start : Option (List ℕ)
generate_ludp_start = do
  let eth_dst = 0x02 ∷ 0x00 ∷ 0x00 ∷ 0x00 ∷ 0x00 ∷ 0x00 ∷ []
  let eth_src = 0x02 ∷ 0x00 ∷ 0x00 ∷ 0x00 ∷ 0x00 ∷ 0x01 ∷ []
  eth_type ← pack_H_be 0x0800
  ludp_pkt ← pack_header ludp_magic pkt_cmd 0x00 0x00000001 0x0001 0x00000000 0x0000
  udp_header ← pack_udp 12345 ludp_port (8 + length ludp_pkt) 0
  let ip_total_length = 20 + length udp_header + length ludp_pkt
  ip_src ← pack_I_be 0xC0A801C7
  ip_dst ← pack_I_be 0xC0A80180
  blank_ip ← pack_ip 0x45 0x00 ip_total_length 0x0001 0x4000 64 17 0
  ip_checksum ← calculate_checksum (blank_ip ++ ip_src ++ ip_dst)
  ip_header ← pack_ip 0x45 0x00 ip_total_length 0x0001 0x4000 64 17 ip_checksum
  some (eth_dst ++ eth_src ++ eth_type ++ (ip_header ++ ip_src ++ ip_dst) ++ udp_header ++ ludp_pkt)

unfoldable pub generate_ludp_credit : ℕ → Option (List ℕ)
generate_ludp_credit credit_value = do
  let eth_dst = 0x02 ∷ 0x00 ∷ 0x00 ∷ 0x00 ∷ 0x00 ∷ 0x00 ∷ []
  let eth_src = 0x02 ∷ 0x00 ∷ 0x00 ∷ 0x00 ∷ 0x00 ∷ 0x01 ∷ []
  eth_type ← pack_H_be 0x0800
  ludp_pkt ← pack_header ludp_magic pkt_credit 0x00 credit_value 0x0000 0x00000000 0x0000
  udp_header ← pack_udp 12345 ludp_port (8 + length ludp_pkt) 0
  let ip_total_length = 20 + length udp_header + length ludp_pkt
  ip_src ← pack_I_be 0xC0A801C7
  ip_dst ← pack_I_be 0xC0A80180
  blank_ip ← pack_ip 0x45 0x00 ip_total_length 0x0002 0x4000 64 17 0
  ip_checksum ← calculate_checksum (blank_ip ++ ip_src ++ ip_dst)
  ip_header ← pack_ip 0x45 0x00 ip_total_length 0x0002 0x4000 64 17 ip_checksum
  some (eth_dst ++ eth_src ++ eth_type ++ (ip_header ++ ip_src ++ ip_dst) ++ udp_header ++ ludp_pkt)

-- the choices of `--packet-type`
pub data PacketType : Type 0 where
  arp icmp ludp_start ludp_credit ludp_full : PacketType

-- the list `packets` of `main`
unfoldable pub packets_of : PacketType → ℕ → Option (List (List ℕ))
packets_of arp credit = do pkt ← generate_arp_request; some (pkt ∷ [])
packets_of icmp credit = do pkt ← generate_icmp_echo_request 0x1234 0x0001 32; some (pkt ∷ [])
packets_of ludp_start credit = do pkt ← generate_ludp_start; some (pkt ∷ [])
packets_of ludp_credit credit = do pkt ← generate_ludp_credit credit; some (pkt ∷ [])
packets_of ludp_full credit = do
  first ← generate_arp_request
  second ← generate_ludp_start
  third ← generate_ludp_credit credit
  some (first ∷ second ∷ third ∷ [])

-- what `main` writes to the packet file
unfoldable pub main : PacketType → ℕ → Option (List ℕ)
main packet_type credit = do packets ← packets_of packet_type credit; write_packets_to_file packets
