-- ===== src/Coverage/Agreement.antt =====
-- The table and the summary give the same numbers.
use mini_corundum.Coverage.Balance.{IsBalancedFile, IsBalanced, Gives, parse_coverage-IsBalanced}
use mini_corundum.Coverage.FileMap.{Metric, line, branch, cond, Files, build_file_id_map}
use mini_corundum.Coverage.Parse.{FileStats, Stats, Parsed, parse_coverage}
use mini_corundum.Coverage.Xml.{Element}
use mini_corundum.Coverage.Report.{
  names_any, sorted_by, keyword_leb, no_tally, Report, print_report, sum_of, calc_overall, Summary,
  summary, filter_kws, Database, Printed, parse, print_all, main,
}
use mini_corundum.Base.{
  ℕ, ◌≤◌, ◌<◌, ◌≡◌, ◌∙◌, refl, ⊤, Bool, true, false, ◌||◌, Option, none, some, List, [], ◌∷◌, arith,
  All,
}
use mini_corundum.Text.{Text}
use mini_corundum.Coverage.Names.{keys}
use mini_corundum.Coverage.Tallies.{weigh, weigh-sorted_by, weigh-keys, share, tally_files-Added}

-- The table's two sums are the summary's.
pub record IsAgreeing (r : Report) (s : Summary) : Type 0 where
  pub covered_all : r.table.covered_all ≡ s.all.0
  pub total_all : r.table.total_all ≡ s.all.1
  pub covered_filtered : r.table.covered_filtered ≡ s.filtered.0
  pub total_filtered : r.table.total_filtered ≡ s.filtered.1

-- Nothing is covered more often than it is count_bit, and the files with a keyword are among all.
pub record IsBounded (s : Summary) : Type 0 where
  pub all : s.all.0 ≤ s.all.1
  pub filtered : s.filtered.0 ≤ s.filtered.1
  pub covered : s.filtered.0 ≤ s.all.0
  pub total : s.filtered.1 ≤ s.all.1

print_report-IsAgreeing :
    (stats : Stats) (keywords : List Text)
    → IsBalanced stats
    → IsAgreeing (print_report stats keywords) (summary stats keywords)
unfolding print_report summary calc_overall
print_report-IsAgreeing stats keywords b =
    let le = keyword_leb keywords in
    let a = tally_files-Added keywords stats (sorted_by le (keys stats)) no_tally b.files in
    let sums : (test : Text → Bool) (field : FileStats → ℕ)
        → weigh (share test field stats) (sorted_by le (keys stats)) ≡ sum_of test field stats =
      λ test field.
        weigh-sorted_by le (share test field stats) (keys stats)
        ∙ weigh-keys test field stats b.distinct in
    record {
      covered_all = omega (arith, a.covered_all, sums (λ _. true) (λ s. s.covered));
      total_all = omega (arith, a.total_all, sums (λ _. true) (λ s. s.total));
      covered_filtered =
          omega (arith, a.covered_filtered, sums (names_any keywords) (λ s. s.covered));
      total_filtered = omega (arith, a.total_filtered, sums (names_any keywords) (λ s. s.total));
    }

sum_of-covered :
    (test : Text → Bool) (stats : Stats)
    → All (λ entry. IsBalancedFile entry.1 × (0 < entry.1.total)) stats
    → sum_of test (λ s. s.covered) stats ≤ sum_of test (λ s. s.total) stats
sum_of-covered test [] a = omega arith
sum_of-covered test ((k, s) ∷ stats) a = ground (arith, sum_of-covered test stats a.1, a.0.0)

sum_of-filtered :
    (test : Text → Bool) (field : FileStats → ℕ) (stats : Stats)
    → sum_of test field stats ≤ sum_of (λ _. true) field stats
sum_of-filtered test field [] = omega arith
sum_of-filtered test field ((k, s) ∷ stats) = ground (arith, sum_of-filtered test field stats)

summary-IsBounded :
    (stats : Stats) (keywords : List Text) → IsBalanced stats → IsBounded (summary stats keywords)
unfolding summary calc_overall
summary-IsBounded stats keywords b = record {
  all = sum_of-covered (λ _. true) stats b.files;
  filtered = sum_of-covered (names_any keywords) stats b.files;
  covered = sum_of-filtered (names_any keywords) (λ s. s.covered) stats;
  total = sum_of-filtered (names_any keywords) (λ s. s.total) stats;
}

-- The reports and the summaries agree in pairs, and there are as many.
abbrev pub Told : List Report → List Summary → Type 0
Told [] [] = ⊤
Told (r ∷ rs) (s ∷ ss) = (IsAgreeing r s × IsBounded s) × Told rs ss
Told [] (s ∷ ss) = ⊥
Told (r ∷ rs) [] = ⊥

-- whether there is nothing
abbrev pub is_none : {A : Type 0} → Option A → Bool
is_none none = true
is_none (some a) = false

abbrev pub Prints : Option Printed → Type 0
Prints none = ⊤
Prints (some p) = Told p.reports p.summaries

told :
    (stats : Stats)
    → IsBalanced stats
    → IsAgreeing (print_report stats filter_kws) (summary stats filter_kws)
      × IsBounded (summary stats filter_kws)
told stats b = (print_report-IsAgreeing stats filter_kws b, summary-IsBounded stats filter_kws b)

print_all-Prints :
    (lines branches conds : Option Parsed)
    → Gives IsBalanced lines
    → Gives IsBalanced branches
    → Gives IsBalanced conds
    → Prints (print_all lines branches conds)
unfolding print_all
print_all-Prints none branches conds a b c = tt
print_all-Prints (some l) none conds a b c = tt
print_all-Prints (some l) (some m) none a b c = tt
print_all-Prints (some l) (some m) (some n) a b c =
    (told l.stats a, (told m.stats b, (told n.stats c, tt)))

parse-IsBalanced :
    (fs : Files) (db : Metric → Database) (metric : Metric) → Gives IsBalanced (parse fs db metric)
parse-IsBalanced fs db metric =
    parse_coverage-IsBalanced fs metric ((db metric).first) ((db metric).shape) ((db metric).insts)

print_all-is_none :
    (lines branches conds : Option Parsed)
    → is_none (print_all lines branches conds)
      ≡ (is_none lines || (is_none branches || is_none conds))
unfolding print_all
print_all-is_none none branches conds = refl
print_all-is_none (some l) none conds = refl
print_all-is_none (some l) (some m) none = refl
print_all-is_none (some l) (some m) (some n) = refl

parse_coverage-is_none :
    (fs : Files) (metric : Metric) (first shape insts_read : Option Element)
    → is_none (parse_coverage fs metric first shape insts_read) ≡ is_none first
unfolding parse_coverage build_file_id_map
parse_coverage-is_none fs metric none shape insts_read = refl
parse_coverage-is_none fs metric (some r) none insts_read = refl
parse_coverage-is_none fs metric (some r) (some s) none = refl
parse_coverage-is_none fs metric (some r) (some s) (some i) = refl

-- The coverage report is printed just if the shape file of each of the three metrics can be read
-- at its first reading. For each metric the line OVERALL TOTAL and the line FILTERED of the table,
-- which add up file by file in sorted order and pass over files with nothing to cover, give the
-- numbers that the summary computes from all values; no more is covered than there is, and the
-- filtered numbers are at most the overall ones.
pub main-print_report :
    (fs : Files) (db : Metric → Database)
    → (is_none (main fs db)
        ≡ (is_none ((db line).first) || (is_none ((db branch).first) || is_none ((db cond).first))))
      × Prints (main fs db)
unfolding main
main-print_report fs db = (
  rw
      (
        print_all-is_none (parse fs db line) (parse fs db branch) (parse fs db cond),
        parse_coverage-is_none fs line ((db line).first) ((db line).shape) ((db line).insts),
        parse_coverage-is_none fs branch ((db branch).first) ((db branch).shape)
            ((db branch).insts),
        parse_coverage-is_none fs cond ((db cond).first) ((db cond).shape) ((db cond).insts),
      )
      refl,
  print_all-Prints _ _ _ (parse-IsBalanced fs db line) (parse-IsBalanced fs db branch)
      (parse-IsBalanced fs db cond),
)
