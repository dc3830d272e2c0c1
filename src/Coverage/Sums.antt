-- ===== src/Coverage/Sums.antt =====
-- The overall counts against the database: entries, and bits that are set.
use mini_corundum.Base.{
  ℕ, zero, suc, ◌+◌, ◌≡◌, ◌∙◌, ap, refl, inl, inr, Bool, true, false, Option, none, some, List, [],
  ◌∷◌, arith, length, take, drop, ◌==◌, if◌then◌else◌, Bool-cases,
}
use mini_corundum.Text.{Text, codes, same}
use mini_corundum.Coverage.Names.{Names, find, change}
use mini_corundum.Coverage.Xml.{Element, iter, attribute}
use mini_corundum.Coverage.FileMap.{Metric, for_each, Files, build_file_id_map}
use mini_corundum.Coverage.Parse.{
  Entry, FileStats, Stats, no_stats, chksum_to_entries, bit_set, count_bit, file_name,
  count_entries, count_instance, Parsed, parse_coverage,
}
use mini_corundum.Coverage.Report.{sum_of, overall}

-- how many bits are set
abbrev pub ones : Text → ℕ
ones [] = 0
ones (bit ∷ bits) = (if bit == b'1' then 1 else 0) + ones bits

-- the entries of an instance's definition
abbrev pub entries_of : Names (List Entry) → Element → List Entry
entries_of shapes inst = elim (find (attribute (codes "chksum") [] inst) shapes) [
  | none ↦ []
  | some entries ↦ entries
]

-- the entries of all instances
abbrev pub entries_total : Names (List Entry) → List Element → ℕ
entries_total shapes [] = 0
entries_total shapes (inst ∷ insts) = length (entries_of shapes inst) + entries_total shapes insts

-- the bits set for them, where a bit beyond the entries counts for nothing
abbrev pub bits_total : Names (List Entry) → List Element → ℕ
bits_total shapes [] = 0
bits_total shapes (inst ∷ insts) =
    ones (take (length (entries_of shapes inst)) (attribute (codes "value") [] inst))
    + bits_total shapes insts

-- a change by `d` of one file's field
sum_of-change :
    (field : FileStats → ℕ) (key : Text) (f : FileStats → FileStats) (d : ℕ) (stats : Stats)
    → field no_stats ≡ 0
    → ((s : FileStats) → field (f s) ≡ field s + d)
    → sum_of (λ _. true) field (change no_stats key f stats) ≡ sum_of (λ _. true) field stats + d
unfolding change
sum_of-change field key f d [] z h = omega (arith, z, h no_stats)
sum_of-change field key f d ((k, s) ∷ stats) z h = elim (Bool-cases (same key k)) [
  | inl this ↦ rw this (omega (arith, h s))
  | inr other ↦ rw other (omega (arith, sum_of-change field key f d stats z h))
]

ones-take :
    (bits : Text) (pos n : ℕ)
    → ones (take (suc n) (drop pos bits))
      ≡ (if bit_set bits pos then 1 else 0) + ones (take n (drop (suc pos) bits))
ones-take [] zero zero = refl
ones-take [] zero (suc n) = refl
ones-take [] (suc pos) zero = refl
ones-take [] (suc pos) (suc n) = refl
ones-take (bit ∷ bits) zero n = refl
ones-take (bit ∷ bits) (suc pos) n = ones-take bits pos n

ones-next :
    (bits : Text) (pos n : ℕ)
    → ones (take (suc n) (drop pos bits))
      ≡ (if bit_set bits pos then 1 else 0) + ones (take n (drop (pos + 1) bits))
ones-next bits pos n =
    let e : suc pos ≡ pos + 1 = omega arith in
    ones-take bits pos n
    ∙ ap (λ i. (if bit_set bits pos then 1 else 0) + ones (take n (drop i bits))) e

count_bit_covered :
    (set : Bool) (lnum : Text) (s : FileStats)
    → (count_bit set lnum s).covered ≡ s.covered + (if set then 1 else 0)
count_bit_covered true lnum s = refl
count_bit_covered false lnum s = omega arith

count_bit_total :
    (set : Bool) (lnum : Text) (s : FileStats) → (count_bit set lnum s).total ≡ s.total + 1
count_bit_total true lnum s = refl
count_bit_total false lnum s = refl

module _ (file_map : Names Text) where
  sum_of_total-count_entries :
      (bits : Text) (pos : ℕ) (es : List Entry) (stats : Stats)
      → sum_of (λ _. true) (λ s. s.total) (count_entries file_map bits pos es stats)
        ≡ sum_of (λ _. true) (λ s. s.total) stats + length es
  unfolding count_entries
  sum_of_total-count_entries bits pos [] stats = omega arith
  sum_of_total-count_entries bits pos (e ∷ es) stats =
      let f = count_bit (bit_set bits pos) e.lnum in
      omega (
        arith,
        sum_of_total-count_entries bits (pos + 1) es
            (change no_stats (file_name file_map e.fid) f stats),
        sum_of-change (λ s. s.total) (file_name file_map e.fid) f 1 stats refl
            (λ s. count_bit_total (bit_set bits pos) e.lnum s),
      )

  sum_of_covered-count_entries :
      (bits : Text) (pos : ℕ) (es : List Entry) (stats : Stats)
      → sum_of (λ _. true) (λ s. s.covered) (count_entries file_map bits pos es stats)
        ≡ sum_of (λ _. true) (λ s. s.covered) stats + ones (take (length es) (drop pos bits))
  unfolding count_entries
  sum_of_covered-count_entries bits pos [] stats = omega arith
  sum_of_covered-count_entries bits pos (e ∷ es) stats =
      let f = count_bit (bit_set bits pos) e.lnum in
      let d : ℕ = if bit_set bits pos then 1 else 0 in
      omega (
        arith,
        sum_of_covered-count_entries bits (pos + 1) es
            (change no_stats (file_name file_map e.fid) f stats),
        sum_of-change (λ s. s.covered) (file_name file_map e.fid) f d stats refl
            (λ s. count_bit_covered (bit_set bits pos) e.lnum s),
        ones-next bits pos (length es),
      )

  module _ (shapes : Names (List Entry)) where
    -- with the entries found, or none
    total_found :
        (bits : Text) (found : Option (List Entry)) (stats : Stats)
        → sum_of
            (λ _. true)
            (λ s. s.total)
            (elim found [
              | none ↦ stats
              | some entries ↦ count_entries file_map bits 0 entries stats
            ])
          ≡ sum_of (λ _. true) (λ s. s.total) stats
            + length (elim found as (λ _. List Entry) [ none ↦ [] | some entries ↦ entries ])
    total_found bits none stats = omega arith
    total_found bits (some es) stats = sum_of_total-count_entries bits 0 es stats

    covered_found :
        (bits : Text) (found : Option (List Entry)) (stats : Stats)
        → sum_of
            (λ _. true)
            (λ s. s.covered)
            (elim found [
              | none ↦ stats
              | some entries ↦ count_entries file_map bits 0 entries stats
            ])
          ≡ sum_of (λ _. true) (λ s. s.covered) stats
            + ones (
                take
                  (length (elim found as (λ _. List Entry) [ none ↦ [] | some entries ↦ entries ]))
                  bits)
    covered_found bits none stats = omega arith
    covered_found bits (some es) stats = sum_of_covered-count_entries bits 0 es stats

    sum_of_total-count_instance :
        (inst : Element) (stats : Stats)
        → sum_of (λ _. true) (λ s. s.total) (count_instance file_map shapes inst stats)
          ≡ sum_of (λ _. true) (λ s. s.total) stats + length (entries_of shapes inst)
    unfolding count_instance
    sum_of_total-count_instance inst stats =
        total_found (attribute (codes "value") [] inst)
          (find (attribute (codes "chksum") [] inst) shapes) stats

    sum_of_covered-count_instance :
        (inst : Element) (stats : Stats)
        → sum_of (λ _. true) (λ s. s.covered) (count_instance file_map shapes inst stats)
          ≡ sum_of (λ _. true) (λ s. s.covered) stats
            + ones (take (length (entries_of shapes inst)) (attribute (codes "value") [] inst))
    unfolding count_instance
    sum_of_covered-count_instance inst stats =
        covered_found (attribute (codes "value") [] inst)
          (find (attribute (codes "chksum") [] inst) shapes) stats

    totals :
        (insts : List Element) (stats : Stats)
        → sum_of (λ _. true) (λ s. s.total) (for_each (count_instance file_map shapes) insts stats)
          ≡ sum_of (λ _. true) (λ s. s.total) stats + entries_total shapes insts
    totals [] stats = omega arith
    totals (inst ∷ insts) stats = omega (
      arith,
      totals insts (count_instance file_map shapes inst stats),
      sum_of_total-count_instance inst stats,
    )

    covereds :
        (insts : List Element) (stats : Stats)
        → sum_of
            (λ _. true)
            (λ s. s.covered)
            (for_each (count_instance file_map shapes) insts stats)
          ≡ sum_of (λ _. true) (λ s. s.covered) stats + bits_total shapes insts
    covereds [] stats = omega arith
    covereds (inst ∷ insts) stats = omega (
      arith,
      covereds insts (count_instance file_map shapes inst stats),
      sum_of_covered-count_instance inst stats,
    )

both : {a b c d : ℕ} → a ≡ 0 + b → c ≡ 0 + d → ◌≡◌ {A = ℕ × ℕ} (a, c) (b, d)
both {a} {b} {c} {d} e f =
    let e' : a ≡ b = omega (arith, e) in
    let f' : c ≡ d = omega (arith, f) in ap (λ x. (x, c)) e' ∙ ap (λ y. (b, y)) f'

-- Where the files can be read, `parse_coverage` counts over all source files exactly the entries
-- of the definitions that the instances name, and as covered exactly the bits that are set at
-- their positions; a bit beyond the entries counts for nothing.
pub overall-parse_coverage :
    (fs : Files) (metric : Metric) (first root insts : Element)
    → (p : Parsed) × (parse_coverage fs metric (some first) (some root) (some insts) ≡ some p)
      × (overall p.stats ≡ (
        bits_total (chksum_to_entries metric root) (iter (codes "instance_data") insts),
        entries_total (chksum_to_entries metric root) (iter (codes "instance_data") insts),
      ))
unfolding parse_coverage build_file_id_map
overall-parse_coverage fs metric first root insts =
    let shapes = chksum_to_entries metric root in
    let all = iter (codes "instance_data") insts in
    (_, refl, both (covereds _ shapes all []) (totals _ shapes all []))
