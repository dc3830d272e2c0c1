-- ===== src/Coverage/Balance.antt =====
-- What holds of the counts of each file.
use mini_corundum.Base.{
  ℕ, ◌+◌, ◌<◌, ◌≡◌, refl, ⊤, inl, inr, Bool, true, false, ◌||◌, Option, none, some, List, [], ◌∷◌,
  arith, length, length-append, All, Bool-cases,
}
use mini_corundum.Text.{Text, codes, same}
use mini_corundum.Coverage.Names.{Names, find, change, keys}
use mini_corundum.Coverage.Xml.{Element, iter, attribute}
use mini_corundum.Coverage.FileMap.{Metric, for_each, Files, build_file_id_map}
use mini_corundum.Coverage.Parse.{
  Entry, FileStats, Stats, no_stats, chksum_to_entries, bit_set, count_bit, file_name,
  count_entries, count_instance, Parsed, parse_coverage,
}

-- Each entry of a file is covered, or its line is listed.
abbrev pub IsBalancedFile : FileStats → Type 0
IsBalancedFile s = s.covered + length s.lines ≡ s.total

-- `key` is one of the texts.
abbrev pub has : Text → List Text → Bool
has key [] = false
has key (k ∷ ks) = same k key || has key ks

abbrev pub Distinct : List Text → Type 0
Distinct [] = ⊤
Distinct (k ∷ ks) = (has k ks ≡ false) × Distinct ks

-- No file has two entries, each has something to cover, and its counts agree with its lines.
pub record IsBalanced (stats : Stats) : Type 0 where
  pub files : All (λ entry. IsBalancedFile entry.1 × (0 < entry.1.total)) stats
  pub distinct : Distinct (keys stats)

count_bit-IsBalancedFile :
    (set : Bool) (lnum : Text) (s : FileStats)
    → IsBalancedFile s
    → IsBalancedFile (count_bit set lnum s) × (0 < (count_bit set lnum s).total)
count_bit-IsBalancedFile true lnum s b = (omega arith, omega arith)
count_bit-IsBalancedFile false lnum s b =
    (omega (arith, length-append s.lines (lnum ∷ [])), omega arith)

module _ (set : Bool) (lnum key : Text) where
  has-change :
      (j : Text) (stats : Stats)
      → same key j ≡ false
      → has j (keys stats) ≡ false
      → has j (keys (change no_stats key (count_bit set lnum) stats)) ≡ false
  unfolding change
  has-change j [] e h = ground arith
  has-change j ((k, s) ∷ stats) e h = elim (Bool-cases (same key k)) [
    | inl this ↦ rw this h
    | inr other ↦ rw other (ground (arith, has-change j stats e))
  ]

  change-files :
      (stats : Stats)
      → All (λ entry. IsBalancedFile entry.1 × (0 < entry.1.total)) stats
      → All
          (λ entry. IsBalancedFile entry.1 × (0 < entry.1.total))
          (change no_stats key (count_bit set lnum) stats)
  unfolding change
  change-files [] a = (count_bit-IsBalancedFile set lnum no_stats refl, tt)
  change-files ((k, s) ∷ stats) a = elim (Bool-cases (same key k)) [
    | inl this ↦ rw this (count_bit-IsBalancedFile set lnum s a.0.0, a.1)
    | inr other ↦ rw other (a.0, change-files stats a.1)
  ]

  change-Distinct :
      (stats : Stats)
      → Distinct (keys stats)
      → Distinct (keys (change no_stats key (count_bit set lnum) stats))
  unfolding change
  change-Distinct [] d = (refl, tt)
  change-Distinct ((k, s) ∷ stats) d = elim (Bool-cases (same key k)) [
    | inl this ↦ rw this d
    | inr other ↦ rw other (has-change k stats other d.0, change-Distinct stats d.1)
  ]

  change-IsBalanced :
      (stats : Stats)
      → IsBalanced stats
      → IsBalanced (change no_stats key (count_bit set lnum) stats)
  change-IsBalanced stats b = record {
    files = change-files stats b.files;
    distinct = change-Distinct stats b.distinct;
  }

module _ (file_map : Names Text) where
  count_entries-IsBalanced :
      (bits : Text) (pos : ℕ) (es : List Entry) (stats : Stats)
      → IsBalanced stats
      → IsBalanced (count_entries file_map bits pos es stats)
  unfolding count_entries
  count_entries-IsBalanced bits pos [] stats b = b
  count_entries-IsBalanced bits pos (e ∷ es) stats b =
      count_entries-IsBalanced bits (pos + 1) es _
        (change-IsBalanced (bit_set bits pos) e.lnum (file_name file_map e.fid) stats b)

  found-IsBalanced :
      (bits : Text) (found : Option (List Entry)) (stats : Stats)
      → IsBalanced stats
      → IsBalanced
          (elim found [ none ↦ stats | some entries ↦ count_entries file_map bits 0 entries stats ])
  found-IsBalanced bits none stats b = b
  found-IsBalanced bits (some es) stats b = count_entries-IsBalanced bits 0 es stats b

  instances-IsBalanced :
      (shapes : Names (List Entry)) (insts : List Element) (stats : Stats)
      → IsBalanced stats
      → IsBalanced (for_each (count_instance file_map shapes) insts stats)
  unfolding count_instance
  instances-IsBalanced shapes [] stats b = b
  instances-IsBalanced shapes (inst ∷ insts) stats b = instances-IsBalanced shapes insts _ (
      found-IsBalanced (attribute (codes "value") [] inst)
        (find (attribute (codes "chksum") [] inst) shapes) stats b)

no_files : IsBalanced []
no_files = record { files = tt; distinct = tt }

-- what a call of `parse_coverage` gives, if it returns
abbrev pub Gives : (Stats → Type 0) → Option Parsed → Type 0
Gives P none = ⊤
Gives P (some p) = P p.stats

-- Whatever the files hold and whichever of them can be read, in what `parse_coverage` returns no
-- source file has two entries, each has at least one thing to cover, and what is covered and the
-- lines listed as not covered are together the total.
pub parse_coverage-IsBalanced :
    (fs : Files) (metric : Metric) (first shape insts_read : Option Element)
    → Gives IsBalanced (parse_coverage fs metric first shape insts_read)
unfolding parse_coverage build_file_id_map
parse_coverage-IsBalanced fs metric none shape insts_read = tt
parse_coverage-IsBalanced fs metric (some map_root) none insts_read = no_files
parse_coverage-IsBalanced fs metric (some map_root) (some root) none = no_files
parse_coverage-IsBalanced fs metric (some map_root) (some root) (some insts) =
    instances-IsBalanced _ (chksum_to_entries metric root) (iter (codes "instance_data") insts) []
      no_files
