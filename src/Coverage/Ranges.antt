-- ===== src/Coverage/Ranges.antt =====
-- The ranges of lines that are not covered, of which the report prints the first 30.
use mathlib.Core.List.{append_assoc}
use mini_corundum.Base.{
  ℕ, zero, suc, ◌+◌, ◌-◌, ◌≤◌, ◌≡◌, ◌∙◌, ap, refl, ⊤, inl, inr, ◌||◌, List, [], ◌∷◌, ◌++◌, arith,
  elem, ◌==◌, ltb, Bool-cases, ltb→lt,
}
use mini_corundum.Text.{Text}
use mini_corundum.Coverage.Report.{
  numbers, insert_number, sorted_set, ranges_from, ranges_of, uncovered_ranges,
}

-- `n` numbers from `a` on
abbrev pub count : ℕ → ℕ → List ℕ
count a zero = []
count a (suc n) = a ∷ count (suc a) n

-- the lines of a range, both ends included
unfoldable pub range_lines : ℕ → ℕ → List ℕ
range_lines first last = count first (suc last - first)

abbrev pub covers : List (ℕ × ℕ) → List ℕ
covers [] = []
covers ((first, last) ∷ ranges) = range_lines first last ++ covers ranges

-- strictly ascending from `lo` on
abbrev pub Ascending : ℕ → List ℕ → Type 0
Ascending lo [] = ⊤
Ascending lo (n ∷ ns) = (lo ≤ n) × Ascending (suc n) ns

-- Each range has a line, and between a range and the next there is a line of neither.
abbrev pub Apart : ℕ → List (ℕ × ℕ) → Type 0
Apart lo [] = ⊤
Apart lo ((first, last) ∷ ranges) = (lo ≤ first) × (first ≤ last) × Apart (last + 2) ranges

Ascending-mono : (lo hi : ℕ) (ns : List ℕ) → lo ≤ hi → Ascending hi ns → Ascending lo ns
Ascending-mono lo hi [] h a = tt
Ascending-mono lo hi (n ∷ ns) h a = (omega arith, a.1)

insert_number-Ascending :
    (lo n : ℕ) (ms : List ℕ) → lo ≤ n → Ascending lo ms → Ascending lo (insert_number n ms)
insert_number-Ascending lo n [] h a = (h, tt)
insert_number-Ascending lo n (m ∷ ms) h a = elim (Bool-cases (n == m)) [
  | inl same ↦ rw same a
  | inr other ↦ elim (Bool-cases (ltb n m)) [
    | inl less ↦ rw (other, less) ((h, (ltb→lt n m less, a.1)))
    | inr more ↦ rw (other, more) ((a.0, insert_number-Ascending (suc m) n ms (ground arith) a.1))
  ]
]

sorted_set-Ascending : (ns : List ℕ) → Ascending 0 (sorted_set ns)
sorted_set-Ascending [] = tt
sorted_set-Ascending (n ∷ ns) =
    insert_number-Ascending 0 n (sorted_set ns) (omega arith) (sorted_set-Ascending ns)

elem-insert_number : (k n : ℕ) (ms : List ℕ) → elem k (insert_number n ms) ≡ (k == n || elem k ms)
elem-insert_number k n [] = refl
elem-insert_number k n (m ∷ ms) = ground (arith, elem-insert_number k n ms)

elem-sorted_set : (k : ℕ) (ns : List ℕ) → elem k (sorted_set ns) ≡ elem k ns
elem-sorted_set k [] = refl
elem-sorted_set k (n ∷ ns) = rw (elem-insert_number k n (sorted_set ns), elem-sorted_set k ns) refl

count-snoc : (a n : ℕ) → count a (suc n) ≡ count a n ++ (a + n) ∷ []
count-snoc a zero = ground arith
count-snoc a (suc n) =
    let e : suc a + n ≡ a + suc n = omega arith in
    ap (◌∷◌ a) (count-snoc (suc a) n ∙ ap (λ m. count (suc a) n ++ m ∷ []) e)

range_lines-one : (n : ℕ) → range_lines n n ≡ n ∷ []
unfolding range_lines
range_lines-one n = ground arith

range_lines-next :
    (first last : ℕ)
    → first ≤ last
    → range_lines first (suc last) ≡ range_lines first last ++ suc last ∷ []
unfolding range_lines
range_lines-next first last h =
    let size : suc (suc last) - first ≡ suc (suc last - first) = omega arith in
    let end : first + (suc last - first) ≡ suc last = omega arith in
    ap (count first) size
    ∙ count-snoc first (suc last - first)
    ∙ ap (λ e. count first (suc last - first) ++ e ∷ []) end

covers-ranges_from :
    (first last : ℕ) (ls : List ℕ)
    → first ≤ last
    → Ascending (suc last) ls
    → covers (ranges_from first last ls) ≡ range_lines first last ++ ls
unfolding ranges_from
covers-ranges_from first last [] h a = refl
covers-ranges_from first last (l ∷ ls) h a = elim (Bool-cases (ltb 1 (l - last))) [
  | inl gap ↦ rw (gap) (
      ap (λ r. range_lines first last ++ r)
        (covers-ranges_from l l ls (omega arith) a.1 ∙ ap (λ r. r ++ ls) (range_lines-one l)))
  | inr next ↦
      let e : l ≡ suc last = ground arith in
      rw (next, covers-ranges_from first l ls (omega arith) a.1, e, range_lines-next first last h)
        (append_assoc (range_lines first last) (suc last ∷ []) ls)
]

ranges_from-Apart :
    (lo first last : ℕ) (ls : List ℕ)
    → lo ≤ first
    → first ≤ last
    → Ascending (suc last) ls
    → Apart lo (ranges_from first last ls)
unfolding ranges_from
ranges_from-Apart lo first last [] m h a = (m, h, tt)
ranges_from-Apart lo first last (l ∷ ls) m h a = elim (Bool-cases (ltb 1 (l - last))) [
  | inl gap ↦ rw gap (m, h, ranges_from-Apart (last + 2) l l ls (ground arith) (omega arith) a.1)
  | inr next ↦ rw next (ranges_from-Apart lo first l ls m (omega arith) a.1)
]

covers-ranges_of : (ls : List ℕ) → Ascending 0 ls → covers (ranges_of ls) ≡ ls
unfolding ranges_of
covers-ranges_of [] a = refl
covers-ranges_of (l ∷ ls) a =
    covers-ranges_from l l ls (omega arith) a.1 ∙ ap (λ r. r ++ ls) (range_lines-one l)

ranges_of-Apart : (ls : List ℕ) → Ascending 0 ls → Apart 0 (ranges_of ls)
unfolding ranges_of
ranges_of-Apart [] a = tt
ranges_of-Apart (l ∷ ls) a = ranges_from-Apart 0 l l ls (omega arith) (omega arith) a.1

-- Whatever texts are listed for a file, the ranges that are formed of them, before the report cuts
-- them to 30, contain exactly the lines that the texts of digits among them name, each line once
-- and in ascending order, and between two ranges there is a line that is in neither.
pub uncovered_ranges_lem :
    (lines : List Text)
    → Apart 0 (uncovered_ranges lines)
      × Ascending 0 (covers (uncovered_ranges lines))
      × ((n : ℕ) → elem n (covers (uncovered_ranges lines)) ≡ elem n (numbers lines))
unfolding uncovered_ranges
uncovered_ranges_lem lines =
    let a = sorted_set-Ascending (numbers lines) in
    let e = covers-ranges_of (sorted_set (numbers lines)) a in
    (
      ranges_of-Apart (sorted_set (numbers lines)) a,
      rw e a,
      λ n. ap (elem n) e ∙ elem-sorted_set n (numbers lines),
    )
