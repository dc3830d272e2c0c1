-- ===== src/Frames/Sizes.antt =====
-- The frames that the command lines ask for, with their sizes.
use mini_corundum.Base.{ℕ, ◌<◌, ◌≡◌, refl, some, List, length, arith}
use mini_corundum.Struct.{pack_H_be, pack_I_be}
use mini_corundum.Frames.Generate.{
  pad_frame, generate_arp_request, generate_icmp_echo_request, generate_ludp_start,
  generate_ludp_credit,
}
use mini_corundum.Frames.Layout.{
  generate_icmp-PingFrame, generate_ludp_start-Carries, generate_ludp_credit-Carries,
}

pub arp_made : (pkt : List ℕ) × (generate_arp_request ≡ some pkt) × (length pkt ≡ 60)
unfolding generate_arp_request pad_frame pack_H_be pack_I_be
arp_made = (_, refl, omega arith)

pub icmp_made :
    (pkt : List ℕ) × (generate_icmp_echo_request 0x1234 0x0001 32 ≡ some pkt) × (length pkt ≡ 74)
icmp_made =
    let (pkt, made, frame) =
      generate_icmp-PingFrame 0x1234 0x0001 32 (omega arith) (omega arith) (omega arith) in
    (pkt, made, omega (arith, frame.ipv4.size))

pub start_made : (pkt : List ℕ) × (generate_ludp_start ≡ some pkt) × (length pkt ≡ 58)
start_made =
    let (pkt, inner, made, frame, carries) = generate_ludp_start-Carries in
    (pkt, made, omega (arith, frame.ipv4.size, carries.size))

pub credit_made :
    (credit : ℕ)
    → credit < 4294967296
    → (pkt : List ℕ) × (generate_ludp_credit credit ≡ some pkt) × (length pkt ≡ 58)
credit_made credit c =
    let (pkt, inner, made, frame, carries) = generate_ludp_credit-Carries credit c in
    (pkt, made, omega (arith, frame.ipv4.size, carries.size))
