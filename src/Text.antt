-- ===== src/Text.antt =====
-- What sw/ludp_host.py and tb/coverage_report.py use of Python's `str`, on ASCII text.
use Prim.Native.Char.{code}
use Prim.Native.String.{String}
use mini_corundum.Base.{
  ℕ, ◌+◌, ◌-◌, ◌*◌, ◌≡◌, refl, Bool, true, false, ◌&&◌, ◌||◌, Option, none, some, List, [], ◌∷◌,
  ◌++◌, map, arith, ◌==◌, leb, if◌then◌else◌,
}

-- the codes of the characters
abbrev pub Text : Type 0
Text = List ℕ

abbrev pub codes : String → Text
codes String.[] = []
codes (String.◌∷◌ c s) = code c ∷ codes s

-- `s == t`
abbrev pub same : Text → Text → Bool
same [] [] = true
same (a ∷ s) (b ∷ t) = a == b && same s t
same _ _ = false

abbrev pub is_empty : Text → Bool
is_empty [] = true
is_empty (a ∷ s) = false

-- `s.startswith(prefix)`
abbrev pub starts_with : Text → Text → Bool
starts_with s [] = true
starts_with [] (b ∷ prefix) = false
starts_with (a ∷ s) (b ∷ prefix) = a == b && starts_with s prefix

-- `sub in s`
abbrev pub is_in : Text → Text → Bool
is_in sub [] = is_empty sub
is_in sub (a ∷ s) = starts_with (a ∷ s) sub || is_in sub s

reverse_onto : Text → Text → Text
reverse_onto [] t = t
reverse_onto (a ∷ s) t = reverse_onto s (a ∷ t)

unfoldable pub reverse : Text → Text
unfolding reverse_onto
reverse s = reverse_onto s []

-- `s.endswith(suffix)`
unfoldable pub ends_with : Text → Text → Bool
unfolding reverse
ends_with s suffix = starts_with (reverse s) (reverse suffix)

-- `s.lower()`
abbrev lower_char : ℕ → ℕ
lower_char c = if leb b'A' c && leb c b'Z' then c + 32 else c

unfoldable pub lower : Text → Text
lower s = map lower_char s

abbrev pub is_space : ℕ → Bool
is_space c = (leb 9 c && leb c 13) || (leb 28 c && leb c 32)

skip_space : Text → Text
skip_space [] = []
skip_space (c ∷ s) = if is_space c then skip_space s else c ∷ s

-- `s.strip()`
unfoldable pub strip : Text → Text
unfolding skip_space reverse
strip s = reverse (skip_space (reverse (skip_space s)))

abbrev is_digit : ℕ → Bool
is_digit c = leb b'0' c && leb c b'9'

abbrev all_digits : Text → Bool
all_digits [] = true
all_digits (c ∷ s) = is_digit c && all_digits s

-- `s.isdigit()`
abbrev pub isdigit : Text → Bool
isdigit [] = false
isdigit (c ∷ s) = all_digits (c ∷ s)

abbrev digits_onto : ℕ → Text → ℕ
digits_onto acc [] = acc
digits_onto acc (c ∷ s) = digits_onto (10 * acc + (c - b'0')) s

-- `int(s)` of a text of digits
abbrev pub int_digits : Text → ℕ
int_digits s = digits_onto 0 s

-- digits with single underscores between them, as `int` reads them; `after` says that a digit has
-- just been read
abbrev digits_of : Bool → ℕ → Text → Option ℕ
digits_of after acc [] = if after then some acc else none
digits_of after acc (c ∷ s) =
    let digit = digits_of true (10 * acc + (c - b'0')) s in
    let underscore = digits_of false acc s in
    if is_digit c then digit else if after && c == b'_' then underscore else none

abbrev signed : Text → Option ℕ
signed [] = none
signed (c ∷ s) =
    if c == b'+'
    then digits_of false 0 s
    else if c == b'-'
    then elim (digits_of false 0 s) [ none ↦ none | some n ↦ some 0 ]
    else digits_of false 0 (c ∷ s)

-- `int(s)`, or none where it raises. A number below 0 is given as 0, since only `0 < l` is asked.
unfoldable pub line_number : Text → Option ℕ
unfolding strip
line_number s = signed (strip s)

-- `s.replace('../', '')`
abbrev remove_up : Text → Text
remove_up (a ∷ b ∷ c ∷ s) =
    let skipped = remove_up s in
    let kept = remove_up (b ∷ c ∷ s) in
    if same (a ∷ b ∷ c ∷ []) (codes "../") then skipped else a ∷ kept
remove_up s = s

-- `s.replace('\\', '/')`
abbrev slashes : Text → Text
slashes s = map (λ c. if c == 92 then b'/' else c) s

-- `s.split('/')[-1]`, with what has been read since the last slash
abbrev last_piece : Text → Text → Text
last_piece piece [] = piece
last_piece piece (c ∷ s) = if c == b'/' then last_piece [] s else last_piece (piece ++ c ∷ []) s

-- `sf.replace('../', '').replace('\\', '/').split('/')[-1]`
unfoldable pub base_name : Text → Text
base_name sf = last_piece [] (slashes (remove_up sf))

-- the order of `sorted` on texts: `s <= t`
abbrev pub text_leb : Text → Text → Bool
text_leb [] t = true
text_leb (a ∷ s) [] = false
text_leb (a ∷ s) (b ∷ t) = if a == b then text_leb s t else leb a b

pub same_self : (s : Text) → same s s ≡ true
same_self [] = refl
same_self (a ∷ s) = ground (arith, same_self s)

pub same→eq : (s t : Text) → same s t ≡ true → s ≡ t
same→eq [] [] e = refl
same→eq [] (b ∷ t) e = absurd (ground arith)
same→eq (a ∷ s) [] e = absurd (ground arith)
same→eq (a ∷ s) (b ∷ t) e = grind (arith, same→eq s t)
