-- ===== src/Frames/Verify.antt =====
-- A message with its checksum in place is accepted by a receiver of IPv4 or ICMP.
use mini_corundum.Base.{
  ℕ, zero, suc, ◌+◌, ◌*◌, ◌/◌, ◌%◌, ◌≤◌, ◌<◌, ◌≡◌, refl, ⊤, List, [], ◌∷◌, ◌++◌, length, ◌==◌,
  Bool-cases, inl, inr, arith, ◌∙◌, ==→eq, ==→ne,
}
use mini_corundum.Frames.Checksum.{pad, sum_words, fold_carries, calculate_checksum}

-- What folding the carries keeps: the value modulo 0xFFFF, and being zero.
pub record Folds (c r : ℕ) : Type 0 where
  pub rounds : ℕ
  pub kept : c ≡ r + 65535 * rounds
  pub small : r < 65536
  pub positive : 0 < c → 0 < r

-- With fuel of at least the sum, the folding of the carries ends by its own test, with a value
-- below 2^16 that is the sum modulo 65535 and is not 0 unless the sum is.
pub fold_carries-Folds : (fuel c : ℕ) → c ≤ fuel → Folds c (fold_carries fuel c)
unfolding fold_carries
fold_carries-Folds zero c h = record {
  rounds = 0;
  kept = omega arith;
  small = omega arith;
  positive = λ p. p;
}
fold_carries-Folds (suc fuel) c h = elim (Bool-cases (c / 65536 == 0)) [
  | inl low ↦
      let e = ==→eq (c / 65536) 0 low in
      rw low (record { rounds = 0; kept = omega arith; small = omega arith; positive = λ p. p })
  | inr high ↦
      let n = ==→ne (c / 65536) 0 high in
      let f = fold_carries-Folds fuel (c % 65536 + c / 65536) (omega arith) in
      rw high (record {
        rounds = f.rounds + c / 65536;
        kept = omega (arith, f.kept);
        small = f.small;
        positive = λ p. f.positive (omega arith);
      })
]

-- an even number of bytes
abbrev pub IsEven : List ℕ → Type 0
IsEven [] = ⊤
IsEven (a ∷ []) = ⊥
IsEven (a ∷ b ∷ rest) = IsEven rest

sum_words-from : (n : ℕ) (xs : List ℕ) → sum_words n xs ≡ n + sum_words 0 xs
unfolding sum_words
sum_words-from n [] = omega arith
sum_words-from n (a ∷ []) = omega arith
sum_words-from n (a ∷ b ∷ rest) =
    omega (arith, sum_words-from (n + (a * 256 + b)) rest, sum_words-from (0 + (a * 256 + b)) rest)

-- the sum of a message's 16-bit words, the last one filled up with a zero byte
abbrev pub word_sum : List ℕ → ℕ
word_sum [] = 0
word_sum (a ∷ []) = a * 256
word_sum (a ∷ b ∷ rest) = a * 256 + b + word_sum rest

pad-pair : (a b : ℕ) (rest : List ℕ) → pad (a ∷ b ∷ rest) ≡ a ∷ b ∷ pad rest
unfolding pad
pad-pair a b rest =
    let same : suc (suc (length rest)) % 2 ≡ length rest % 2 = omega arith in
    rw same (elim (Bool-cases (length rest % 2 == 1)) [ inl odd ↦ rw odd | inr other ↦ rw other ])

sum_words-pad : (xs : List ℕ) → sum_words 0 (pad xs) ≡ word_sum xs
unfolding sum_words
sum_words-pad [] = short
  where
    short : sum_words 0 (pad []) ≡ 0
    short = unfold pad in refl
sum_words-pad (a ∷ []) = unfold pad in omega arith
sum_words-pad (a ∷ b ∷ rest) =
    rw (pad-pair a b rest)
      (omega (arith, sum_words-from (0 + (a * 256 + b)) (pad rest), sum_words-pad rest))

word_sum-append :
    (pre post : List ℕ) → IsEven pre → word_sum (pre ++ post) ≡ word_sum pre + word_sum post
word_sum-append [] post e = omega arith
word_sum-append (a ∷ []) post e = elim e [ ]
word_sum-append (a ∷ b ∷ pre) post e = omega (arith, word_sum-append pre post e)

-- The checksum of a message, from the sum of its words.
pub checksum_lem :
    (xs : List ℕ)
    → (f : Folds (word_sum xs) (fold_carries (word_sum xs) (word_sum xs))) × (calculate_checksum xs
          + fold_carries (word_sum xs) (word_sum xs)
        ≡ 65535)
unfolding calculate_checksum
checksum_lem xs =
    let f = fold_carries-Folds (word_sum xs) (word_sum xs) (omega arith) in
    (f, rw (sum_words-pad xs) (omega (arith, f.small)))

-- the sum with a field `a`, `b` behind `pre`
word_sum-field :
    (pre post : List ℕ) (a b : ℕ)
    → IsEven pre
    → word_sum (pre ++ a ∷ b ∷ post) ≡ word_sum pre + (a * 256 + b) + word_sum post
word_sum-field pre post a b e = word_sum-append pre (a ∷ b ∷ post) e ∙ omega arith

-- What a receiver checks (RFC 1071): the one's complement sum of the 16-bit words is 0xFFFF, that
-- is, their sum is a multiple of 65535 and not 0.
abbrev pub IsAccepted : List ℕ → Type 0
IsAccepted message = (k : ℕ) × (word_sum message ≡ 65535 * suc k)

-- A field that makes up for the rest of the message makes it one that verifies.
field_verifies :
    (pre post : List ℕ) (ck : ℕ)
    → IsEven pre
    → ck ≡ calculate_checksum (pre ++ 0 ∷ 0 ∷ post)
    → IsAccepted (pre ++ (ck / 256) ∷ (ck % 256) ∷ post)
field_verifies pre post ck e q =
    let (f, c) = checksum_lem (pre ++ 0 ∷ 0 ∷ post) in
    (
      f.rounds,
      omega (
        arith,
        f.kept,
        f.small,
        word_sum-field pre post 0 0 e,
        word_sum-field pre post (ck / 256) (ck % 256) e,
      ),
    )

-- the own checksum of a message that verifies
IsAccepted-zero : (message : List ℕ) → IsAccepted message → calculate_checksum message ≡ 0
IsAccepted-zero message (k, e) =
    let (f, c) = checksum_lem message in omega (arith, f.kept, f.small, f.positive)

-- A message with a zero 16-bit field at an even offset, into which its checksum is then written in
-- big-endian order: the checksum is below 2^16, and the sum of the message's 16-bit words, the
-- last one filled up with a zero byte, is a multiple of 65535 other than 0, which is what a
-- receiver of IPv4 or ICMP checks. The checksum of the whole message is 0.
pub calculate_checksum-verifies :
    (pre post : List ℕ)
    → IsEven pre
    → let ck = calculate_checksum (pre ++ 0 ∷ 0 ∷ post) in
      let message = pre ++ (ck / 256) ∷ (ck % 256) ∷ post in
      (ck < 65536) × IsAccepted message × (calculate_checksum message ≡ 0)
calculate_checksum-verifies pre post e =
    let ck = calculate_checksum (pre ++ 0 ∷ 0 ∷ post) in
    let v = field_verifies pre post ck e refl in
    (omega (arith, (checksum_lem (pre ++ 0 ∷ 0 ∷ post)).1), v, IsAccepted-zero _ v)
