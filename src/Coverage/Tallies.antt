-- ===== src/Coverage/Tallies.antt =====
-- What the table adds up, against the sums over the files.
use mini_corundum.Coverage.Balance.{IsBalancedFile, has, Distinct}
use mini_corundum.Coverage.Parse.{FileStats, Stats, no_stats}
use mini_corundum.Coverage.Report.{
  names_any, insert_by, sorted_by, Tally, tally_file, tally_files, sum_of,
}
use mini_corundum.Base.{
  ℕ, ◌+◌, ◌≤◌, ◌<◌, ◌≡◌, refl, inl, inr, Bool, true, false, List, [], ◌∷◌, arith, All,
  if◌then◌else◌, Bool-cases, ◌==◌,
}
use mini_corundum.Text.{Text, same, same_self}
use mini_corundum.Coverage.Names.{find_or, keys}

-- the sum of a weight over a list of names
abbrev pub weigh : (Text → ℕ) → List Text → ℕ
weigh w [] = 0
weigh w (n ∷ names) = w n + weigh w names

weigh-insert_by :
    (le : Text → Text → Bool) (w : Text → ℕ) (x : Text) (names : List Text)
    → weigh w (insert_by le x names) ≡ w x + weigh w names
weigh-insert_by le w x [] = refl
weigh-insert_by le w x (y ∷ ys) = elim (Bool-cases (le x y)) [
  | inl before ↦ rw before refl
  | inr after ↦ rw after (omega (arith, weigh-insert_by le w x ys))
]

pub weigh-sorted_by :
    (le : Text → Text → Bool) (w : Text → ℕ) (names : List Text)
    → weigh w (sorted_by le names) ≡ weigh w names
weigh-sorted_by le w [] = refl
weigh-sorted_by le w (x ∷ xs) =
    omega (arith, weigh-insert_by le w x (sorted_by le xs), weigh-sorted_by le w xs)

-- what a name adds to the sum of a field over the names that satisfy `test`
abbrev pub share : (Text → Bool) → (FileStats → ℕ) → Stats → Text → ℕ
share test field stats n = if test n then field (find_or no_stats n stats) else 0

find_or-this :
    (n k : Text) (s : FileStats) (stats : Stats)
    → same n k ≡ true
    → find_or no_stats n ((k, s) ∷ stats) ≡ s
find_or-this n k s stats e = rw (find_or, e) refl

find_or-other :
    (n k : Text) (s : FileStats) (stats : Stats)
    → same n k ≡ false
    → find_or no_stats n ((k, s) ∷ stats) ≡ find_or no_stats n stats
find_or-other n k s stats e = rw (find_or, e) refl

module _ (test : Text → Bool) (field : FileStats → ℕ) where
  -- An entry of another name is passed over.
  weigh-skip :
      (k : Text) (s : FileStats) (stats : Stats) (names : List Text)
      → has k names ≡ false
      → weigh (share test field ((k, s) ∷ stats)) names ≡ weigh (share test field stats) names
  weigh-skip k s stats [] h = refl
  weigh-skip k s stats (n ∷ names) h =
      let other : same n k ≡ false = ground arith in
      let rest : has k names ≡ false = ground arith in
      rw (share, find_or-other n k s stats other, weigh-skip k s stats names rest) refl

  pub weigh-keys :
      (stats : Stats)
      → Distinct (keys stats)
      → weigh (share test field stats) (keys stats) ≡ sum_of test field stats
  weigh-keys [] d = refl
  weigh-keys ((k, s) ∷ stats) d =
      rw
        (
          share,
          find_or-this k k s stats (same_self k),
          weigh-skip k s stats (keys stats) d.0,
          weigh-keys stats d.1,
        )
        refl

find_or-covered :
    (n : Text) (stats : Stats)
    → All (λ entry. IsBalancedFile entry.1 × (0 < entry.1.total)) stats
    → (find_or no_stats n stats).covered ≤ (find_or no_stats n stats).total
find_or-covered n [] a = omega arith
find_or-covered n ((k, s) ∷ stats) a = elim (Bool-cases (same n k)) [
  | inl this ↦ rw (find_or-this n k s stats this) (omega (arith, a.0.0))
  | inr other ↦ rw (find_or-other n k s stats other) (find_or-covered n stats a.1)
]

module _ (keywords : List Text) (stats : Stats) where
  -- what the names have added between `t` and `t'`
  pub record Added (names : List Text) (t t' : Tally) : Type 0 where
    pub total_all :
        t'.total_all ≡ t.total_all + weigh (share (λ _. true) (λ s. s.total) stats) names
    pub covered_all :
        t'.covered_all ≡ t.covered_all + weigh (share (λ _. true) (λ s. s.covered) stats) names
    pub total_filtered :
        t'.total_filtered
        ≡ t.total_filtered + weigh (share (names_any keywords) (λ s. s.total) stats) names
    pub covered_filtered :
        t'.covered_filtered
        ≡ t.covered_filtered + weigh (share (names_any keywords) (λ s. s.covered) stats) names

  tally_file-Added :
      (n : Text) (t : Tally)
      → (find_or no_stats n stats).covered ≤ (find_or no_stats n stats).total
      → Added (n ∷ []) t (tally_file keywords stats n t)
  unfolding tally_file
  tally_file-Added n t le = elim (Bool-cases ((find_or no_stats n stats).total == 0)) [
    | inl nothing ↦ rw nothing (record {
      total_all = ground arith;
      covered_all = ground arith;
      total_filtered = ground arith;
      covered_filtered = ground arith;
    })
    | inr some_entries ↦ rw some_entries (record {
      total_all = ground arith;
      covered_all = ground arith;
      total_filtered = ground arith;
      covered_filtered = ground arith;
    })
  ]

  pub tally_files-Added :
      (names : List Text) (t : Tally)
      → All (λ entry. IsBalancedFile entry.1 × (0 < entry.1.total)) stats
      → Added names t (tally_files keywords stats names t)
  unfolding tally_files
  tally_files-Added [] t a = record {
    total_all = omega arith;
    covered_all = omega arith;
    total_filtered = omega arith;
    covered_filtered = omega arith;
  }
  tally_files-Added (n ∷ names) t a =
      let first = tally_file-Added n t (find_or-covered n stats a) in
      let rest = tally_files-Added names (tally_file keywords stats n t) a in
      record {
        total_all = omega (arith, first.total_all, rest.total_all);
        covered_all = omega (arith, first.covered_all, rest.covered_all);
        total_filtered = omega (arith, first.total_filtered, rest.total_filtered);
        covered_filtered = omega (arith, first.covered_filtered, rest.covered_filtered);
      }
