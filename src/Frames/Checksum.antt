-- ===== src/Frames/Checksum.antt =====
-- `calculate_checksum` of sw/ludp_host_dpi.py.
use mini_corundum.Base.{
  ℕ, zero, suc, ◌+◌, ◌-◌, ◌*◌, ◌/◌, ◌%◌, List, [], ◌∷◌, ◌++◌, length, ◌==◌, if◌then◌else◌,
}

-- `if len(data) % 2 == 1: data += b'\x00'`
unfoldable pub pad : List ℕ → List ℕ
pad bytes = if length bytes % 2 == 1 then bytes ++ 0 ∷ [] else bytes

-- the loop over the 16-bit words, on an even number of bytes
unfoldable pub sum_words : ℕ → List ℕ → ℕ
sum_words checksum [] = checksum
sum_words checksum (a ∷ []) = checksum
sum_words checksum (a ∷ b ∷ rest) = sum_words (checksum + (a * 256 + b)) rest

-- `while checksum >> 16: ...`, with fuel; a round lowers the checksum, so the sum itself is enough
unfoldable pub fold_carries : ℕ → ℕ → ℕ
fold_carries zero checksum = checksum
fold_carries (suc fuel) checksum =
    let rest = fold_carries fuel (checksum % 65536 + checksum / 65536) in
    if checksum / 65536 == 0 then checksum else rest

-- `~checksum & 0xFFFF` is what is left to 0xFFFF
unfoldable pub calculate_checksum : List ℕ → ℕ
calculate_checksum bytes =
    let checksum = sum_words 0 (pad bytes) in 65535 - fold_carries checksum checksum % 65536
