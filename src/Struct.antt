-- ===== src/Struct.antt =====
-- Python's `struct.pack` and `struct.unpack` on the formats that the code uses, with bytes as
-- numbers below 256. Packing a value out of range raises `struct.error`, which is `none` here, and
-- so does unpacking a text of the wrong length.
pub mod RoundTrip
use mini_corundum.Base.{
  ℕ, ◌+◌, ◌*◌, ◌/◌, ◌%◌, ◌<◌, Bool, Option, none, some, List, [], ◌∷◌, ◌++◌, All, ltb,
  if◌then◌else◌,
}

abbrev pub IsByte : ℕ → Type 0
IsByte b = b < 256

abbrev pub IsBytes : List ℕ → Type 0
IsBytes = All IsByte

infixl 5 ◌>>=◌
abbrev pub ◌>>=◌ {ℓ κ} : {A : Type ℓ} {B : Type κ} → Option A → (A → Option B) → Option B
none >>= f = none
some a >>= f = f a

-- `B`
unfoldable pub pack_B : ℕ → Option (List ℕ)
pack_B n = if ltb n 256 then some (n ∷ []) else none

-- `<H`
unfoldable pub pack_H : ℕ → Option (List ℕ)
pack_H n = if ltb n 65536 then some (n % 256 ∷ n / 256 ∷ []) else none

-- `<I`
unfoldable pub pack_I : ℕ → Option (List ℕ)
pack_I n =
    if ltb n 4294967296
    then some (n % 256 ∷ n / 256 % 256 ∷ n / 65536 % 256 ∷ n / 16777216 ∷ [])
    else none

-- `>H`
unfoldable pub pack_H_be : ℕ → Option (List ℕ)
pack_H_be n = if ltb n 65536 then some (n / 256 ∷ n % 256 ∷ []) else none

-- `>I`
unfoldable pub pack_I_be : ℕ → Option (List ℕ)
pack_I_be n =
    if ltb n 4294967296
    then some (n / 16777216 ∷ n / 65536 % 256 ∷ n / 256 % 256 ∷ n % 256 ∷ [])
    else none

-- `struct.unpack("<H", bs)[0]`
abbrev pub unpack_H : List ℕ → Option ℕ
unpack_H (a ∷ b ∷ []) = some (a + 256 * b)
unpack_H _ = none

-- `struct.unpack("<I", bs)[0]`
abbrev pub unpack_I : List ℕ → Option ℕ
unpack_I (a ∷ b ∷ c ∷ d ∷ []) = some (a + 256 * b + 65536 * c + 16777216 * d)
unpack_I _ = none

-- `struct.pack("<HBBIHIH", magic, kind, flags, ident, code, arg1, arg2)`
unfoldable pub pack_header : ℕ → ℕ → ℕ → ℕ → ℕ → ℕ → ℕ → Option (List ℕ)
unfolding pack_B pack_H pack_I
pack_header magic kind flags ident code arg1 arg2 = do
  m ← pack_H magic
  k ← pack_B kind
  f ← pack_B flags
  i ← pack_I ident
  c ← pack_H code
  a ← pack_I arg1
  b ← pack_H arg2
  some (m ++ k ++ f ++ i ++ c ++ a ++ b)

-- `struct.pack(">BBHHHBBH", ...)`, the first 12 bytes of an IPv4 header
unfoldable pub pack_ip : ℕ → ℕ → ℕ → ℕ → ℕ → ℕ → ℕ → ℕ → Option (List ℕ)
unfolding pack_B pack_H_be
pack_ip version_ihl dscp_ecn total_length ident flags_frag ttl proto checksum = do
  v ← pack_B version_ihl
  d ← pack_B dscp_ecn
  t ← pack_H_be total_length
  i ← pack_H_be ident
  f ← pack_H_be flags_frag
  l ← pack_B ttl
  p ← pack_B proto
  c ← pack_H_be checksum
  some (v ++ d ++ t ++ i ++ f ++ l ++ p ++ c)

-- `struct.pack(">BBHHH", ...)`, an ICMP header
unfoldable pub pack_icmp : ℕ → ℕ → ℕ → ℕ → ℕ → Option (List ℕ)
unfolding pack_B pack_H_be
pack_icmp kind code checksum ident seq = do
  k ← pack_B kind
  c ← pack_B code
  s ← pack_H_be checksum
  i ← pack_H_be ident
  n ← pack_H_be seq
  some (k ++ c ++ s ++ i ++ n)

-- `struct.pack(">HHHH", ...)`, a UDP header
unfoldable pub pack_udp : ℕ → ℕ → ℕ → ℕ → Option (List ℕ)
unfolding pack_H_be
pack_udp src dst size checksum = do
  s ← pack_H_be src
  d ← pack_H_be dst
  n ← pack_H_be size
  c ← pack_H_be checksum
  some (s ++ d ++ n ++ c)
