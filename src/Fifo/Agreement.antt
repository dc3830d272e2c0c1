-- ===== src/Fifo/Agreement.antt =====
-- The two copies of the frame generators make the same frames.
use mathlib.Core.List.{append_assoc}
use mini_corundum.Base.{
  ℕ, zero, suc, ◌+◌, ◌*◌, ◌/◌, ◌%◌, ◌≡◌, refl, Option, none, some, List, [], ◌∷◌, ◌++◌, length,
  length-append, get_elem?, arith, Bool-cases, inl, inr, ◌==◌, ==→eq, ==→ne,
}
use mini_corundum.Struct.{◌>>=◌, pack_H_be, pack_I_be}
use mini_corundum.Frames.Checksum
use mini_corundum.Frames.Generate
use mini_corundum.Frames.Checksum.{sum_words, fold_carries}
use mini_corundum.Fifo.Generate.{
  sum_indexed, calculate_checksum, generate_arp_request, generate_icmp_echo_request,
  generate_ludp_start, generate_ludp_credit,
}

get_elem?-append_length :
    (pre : List ℕ) (a : ℕ) (rest : List ℕ) → get_elem? (pre ++ a ∷ rest) (length pre) ≡ some a
get_elem?-append_length [] a rest = refl
get_elem?-append_length (x ∷ pre) a rest = get_elem?-append_length pre a rest

get_elem?-append_next :
    (pre : List ℕ) (a b : ℕ) (rest : List ℕ)
    → get_elem? (pre ++ a ∷ b ∷ rest) (length pre + 1) ≡ some b
get_elem?-append_next [] a b rest = refl
get_elem?-append_next (x ∷ pre) a b rest =
    let e : suc (length pre) + 1 ≡ suc (length pre + 1) = omega arith in
    rw e (get_elem?-append_next pre a b rest)

-- behind `i` bytes, the loop over the indices is the loop over the words
sum_indexed_lem :
    (rounds checksum : ℕ) (pre bytes : List ℕ)
    → length bytes ≡ rounds * 2
    → sum_indexed rounds (length pre) checksum (pre ++ bytes) ≡ some (sum_words checksum bytes)
unfolding sum_indexed sum_words
sum_indexed_lem zero checksum pre [] e = refl
sum_indexed_lem zero checksum pre (a ∷ bytes) e = absurd (omega arith)
sum_indexed_lem (suc rounds) checksum pre [] e = absurd (omega arith)
sum_indexed_lem (suc rounds) checksum pre (a ∷ []) e = absurd (omega arith)
sum_indexed_lem (suc rounds) checksum pre (a ∷ b ∷ bytes) e =
    let behind : length (pre ++ a ∷ b ∷ []) ≡ length pre + 2 =
      omega (arith, length-append pre (a ∷ b ∷ [])) in
    rw (get_elem?-append_length pre a (b ∷ bytes), get_elem?-append_next pre a b bytes)
      (rw (behind, append_assoc pre (a ∷ b ∷ []) bytes) at
        (sum_indexed_lem rounds (checksum + (a * 256 + b)) (pre ++ a ∷ b ∷ []) bytes (omega arith)))

-- the loop takes the words of a message of even length
sum_indexed_all :
    (checksum : ℕ) (bytes : List ℕ)
    → length bytes % 2 ≡ 0
    → sum_indexed ((length bytes + 1) / 2) 0 checksum bytes ≡ some (sum_words checksum bytes)
sum_indexed_all checksum bytes e =
    sum_indexed_lem ((length bytes + 1) / 2) checksum [] bytes (omega arith)

-- The checksum of this file raises no IndexError, and is that of sw/ludp_host_dpi.py.
calculate_checksum_lem :
    (bytes : List ℕ) → calculate_checksum bytes ≡ some (Checksum.calculate_checksum bytes)
unfolding calculate_checksum Checksum.calculate_checksum Checksum.pad
calculate_checksum_lem bytes = elim (Bool-cases (length bytes % 2 == 1)) [
  | inl odd ↦
      let o = ==→eq (length bytes % 2) 1 odd in
      rw (odd, sum_indexed_all 0 (bytes ++ 0 ∷ []) (omega (arith, length-append bytes (0 ∷ []))))
  | inr even ↦
      let n = ==→ne (length bytes % 2) 1 even in rw (even, sum_indexed_all 0 bytes (omega arith))
]

bind_assoc :
    {A B C : Type 0} (m : Option A) (f : A → Option B) (g : B → Option C)
    → ((m >>= f) >>= g) ≡ (m >>= λ a. f a >>= g)
bind_assoc none f g = refl
bind_assoc (some a) f g = refl

arp_agrees : generate_arp_request ≡ Generate.generate_arp_request
unfolding generate_arp_request Generate.generate_arp_request
arp_agrees = refl

icmp_agrees :
    (ident seq n : ℕ)
    → generate_icmp_echo_request ident seq n ≡ Generate.generate_icmp_echo_request ident seq n
unfolding generate_icmp_echo_request Generate.generate_icmp_echo_request Generate.ip_header
    Generate.icmp_packet pack_H_be pack_I_be
icmp_agrees ident seq n = simp (bind_assoc, calculate_checksum_lem)

start_agrees : generate_ludp_start ≡ Generate.generate_ludp_start
unfolding generate_ludp_start Generate.generate_ludp_start Generate.ip_header Generate.udp_frame
    pack_H_be pack_I_be
start_agrees = simp (bind_assoc, calculate_checksum_lem)

credit_agrees : (credit : ℕ) → generate_ludp_credit credit ≡ Generate.generate_ludp_credit credit
unfolding generate_ludp_credit Generate.generate_ludp_credit Generate.ip_header Generate.udp_frame
    pack_H_be pack_I_be
credit_agrees credit = simp (bind_assoc, calculate_checksum_lem)

-- The frame generators of sw/ludp_host_fifo.py, which index the bytes of a checksum and raise
-- nothing by that, make the same frames as those of sw/ludp_host_dpi.py, and fail on the same
-- arguments.
pub generators_agree :
    (generate_arp_request ≡ Generate.generate_arp_request)
    × ((ident seq n : ℕ)
        → generate_icmp_echo_request ident seq n ≡ Generate.generate_icmp_echo_request ident seq n)
    × (generate_ludp_start ≡ Generate.generate_ludp_start)
    × ((credit : ℕ) → generate_ludp_credit credit ≡ Generate.generate_ludp_credit credit)
generators_agree = (arp_agrees, icmp_agrees, start_agrees, credit_agrees)
