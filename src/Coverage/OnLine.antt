-- ===== src/Coverage/OnLine.antt =====
-- What a match of a signature with a line of a source file is.
use mini_corundum.Base.{
  ℕ, zero, suc, ◌+◌, ◌≡◌, ◌≢◌, ap, refl, true, some, List, [], ◌∷◌, ◌++◌, arith, get_elem?,
  Bool-cases, inl, inr, Option-cases,
}
use mini_corundum.Text.{Text, strip, starts_with, is_in, is_empty}
use mini_corundum.Coverage.FileMap.{matches}

-- The text has `sub` in it.
pub record Contains (sub text : Text) : Type 0 where
  pub pre : Text
  pub post : Text
  pub split : text ≡ pre ++ sub ++ post

-- Line `l` of the file, counted from 1, has the signature, both without the space around them, and
-- the signature is not blank.
pub record IsOnLine (l : ℕ) (sig : Text) (text : List Text) : Type 0 where
  pub i : ℕ
  pub counted : l ≡ i + 1
  pub content : Text
  pub line_at : get_elem? text i ≡ some content
  pub not_blank : strip sig ≢ []
  pub holds : Contains (strip sig) (strip content)

starts_with-split : (s sub : Text) → starts_with s sub ≡ true → (post : Text) × (s ≡ sub ++ post)
starts_with-split s [] e = (s, refl)
starts_with-split [] (b ∷ sub) e = absurd (ground arith)
starts_with-split (a ∷ s) (b ∷ sub) e =
    let (post, split) = starts_with-split s sub (ground arith) in
    let head : a ≡ b = ground arith in (post, rw (head, split) refl)

is_in-Contains : (sub s : Text) → is_in sub s ≡ true → Contains sub s
is_in-Contains [] [] e = record { pre = []; post = []; split = refl }
is_in-Contains (b ∷ sub) [] e = absurd (ground arith)
is_in-Contains sub (a ∷ s) e = elim (Bool-cases (starts_with (a ∷ s) sub)) [
  | inl here ↦
      let (post, split) = starts_with-split (a ∷ s) sub here in
      record { pre = []; post = post; split = split }
  | inr later ↦
      let c = is_in-Contains sub s (ground arith) in
      record { pre = a ∷ c.pre; post = c.post; split = ap (λ t. a ∷ t) c.split }
]

pub matches-IsOnLine :
    (l : ℕ) (sig : Text) (text : List Text) → matches l sig text ≡ true → IsOnLine l sig text
matches-IsOnLine zero sig text e = absurd (ground arith)
matches-IsOnLine (suc i) sig text e = elim (Option-cases (get_elem? text i)) [
  | inl missing ↦ absurd (ground (arith, e, missing))
  | inr (content, found) ↦ elim (Bool-cases (is_empty (strip sig))) [
    | inl blank ↦ absurd (ground (arith, e, found, blank))
    | inr full ↦ record {
      i = i;
      counted = omega arith;
      content = content;
      line_at = found;
      not_blank = λ blank. ground (arith, full, blank);
      holds = is_in-Contains (strip sig) (strip content) (ground (arith, e, found, full));
    }
  ]
]
