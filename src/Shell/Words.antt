-- ===== src/Shell/Words.antt =====
-- The words of a line, and the numbers that the shell reads, on ASCII text.
use mini_corundum.Base.{
  ℕ, ◌+◌, ◌-◌, ◌*◌, Bool, true, false, ◌&&◌, ◌||◌, Option, none, some, List, [], ◌∷◌, ◌++◌, ◌==◌,
  leb, ltb, if◌then◌else◌,
}
use mini_corundum.Text.{Text, is_space, strip}

-- a word that has been read, if there is one
abbrev word_before : Text → List Text → List Text
word_before [] rest = rest
word_before (c ∷ word) rest = (c ∷ word) ∷ rest

abbrev split_onto : Text → Text → List Text
split_onto word [] = word_before word []
split_onto word (c ∷ s) =
    let between = split_onto [] s in
    let within = split_onto (word ++ c ∷ []) s in
    if is_space c then word_before word between else within

-- `s.split()`, which `s.strip().split()` is too
unfoldable pub split : Text → List Text
split s = split_onto [] s

-- the value of a digit, in any base up to 16
abbrev digit : ℕ → Option ℕ
digit c =
    if leb b'0' c && leb c b'9'
    then some (c - b'0')
    else if leb b'a' c && leb c b'f'
    then some (c - b'a' + 10)
    else if leb b'A' c && leb c b'F'
    then some (c - b'A' + 10)
    else none

-- Digits in a base, with single underscores before digits; `ready` says that the text may end here.
abbrev digits_in : ℕ → Bool → ℕ → Text → Option ℕ
digits_in base ready acc [] = if ready then some acc else none
digits_in base ready acc (c ∷ s) =
    let underscore = digits_in base false acc s in
    elim (digit c) [
      | some d ↦ if ltb d base then digits_in base true (base * acc + d) s else none
      | none ↦ if ready && c == b'_' then underscore else none
    ]

-- A number in decimal may start with 0 only if it is 0.
abbrev decimal : Text → Option ℕ
decimal [] = none
decimal (c ∷ s) = elim (digits_in 10 false 0 (c ∷ s)) [
  | none ↦ none
  | some n ↦ if c == b'0' then (if n == 0 then some 0 else none) else some n
]

-- An underscore may stand behind the prefix of a base.
abbrev prefixed : ℕ → Text → Option ℕ
prefixed base [] = none
prefixed base (c ∷ s) =
    if c == b'_' then digits_in base false 0 s else digits_in base false 0 (c ∷ s)

abbrev unsigned : Text → Option ℕ
unsigned (z ∷ x ∷ s) =
    if z == b'0'
    then (if x == b'x' || x == b'X'
        then prefixed 16 s
        else if x == b'o' || x == b'O'
        then prefixed 8 s
        else if x == b'b' || x == b'B'
        then prefixed 2 s
        else decimal (z ∷ x ∷ s))
    else decimal (z ∷ x ∷ s)
unsigned s = decimal s

-- 2^32, which no field of a packet takes
abbrev too_wide : ℕ
too_wide = 4294967296

abbrev signed_any : Text → Option ℕ
signed_any [] = none
signed_any (c ∷ s) =
    if c == b'+'
    then unsigned s
    else if c == b'-'
    then elim (unsigned s) [ none ↦ none | some n ↦ if n == 0 then some 0 else some too_wide ]
    else unsigned (c ∷ s)

-- `int(s, 0)`, or none where it raises ValueError. A negative number is given as 2^32: no field of a
-- packet takes either, and `struct.pack` raises the same error.
unfoldable pub int_any : Text → Option ℕ
int_any s = signed_any (strip s)
