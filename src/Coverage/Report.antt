-- ===== src/Coverage/Report.antt =====
-- `print_report`, `calc_overall` and the main program of `tb/coverage_report.py`: the numbers that
-- are printed. Percentages and the layout of the columns are left out.
use mini_corundum.Base.{
  ℕ, ◌+◌, ◌-◌, Bool, true, false, ◌&&◌, ◌||◌, Option, none, some, List, [], ◌∷◌, ◌++◌, length, take,
  ◌==◌, ltb, if◌then◌else◌,
}
use mini_corundum.Text.{Text, codes, lower, is_in, isdigit, int_digits, text_leb}
use mini_corundum.Coverage.Names.{keys, find_or}
use mini_corundum.Coverage.Xml.{Element}
use mini_corundum.Coverage.FileMap.{Metric, line, branch, cond, Files}
use mini_corundum.Coverage.Parse.{FileStats, Stats, no_stats, Parsed, parse_coverage}

-- `any(k in fname.lower() for k in keywords)`
unfoldable pub names_any : List Text → Text → Bool
unfolding lower
names_any [] fname = false
names_any (k ∷ keywords) fname = is_in k (lower fname) || names_any keywords fname

-- `sorted` by an order on the keys, which is stable
abbrev pub insert_by : (Text → Text → Bool) → Text → List Text → List Text
insert_by le x [] = x ∷ []
insert_by le x (y ∷ ys) = if le x y then x ∷ y ∷ ys else y ∷ insert_by le x ys

abbrev pub sorted_by : (Text → Text → Bool) → List Text → List Text
sorted_by le [] = []
sorted_by le (x ∷ xs) = insert_by le x (sorted_by le xs)

-- the names with a keyword before the others, and each group in its order
unfoldable pub keyword_leb : List Text → Text → Text → Bool
unfolding names_any
keyword_leb keywords x y =
    if names_any keywords x
    then (if names_any keywords y then text_leb x y else true)
    else (if names_any keywords y then false else text_leb x y)

pub record Row : Type 0 where
  pub file : Text
  pub covered : ℕ
  pub total : ℕ

-- `covered_all`, `total_all` and so on, with the rows so far
pub record Tally : Type 0 where
  pub covered_all : ℕ
  pub total_all : ℕ
  pub covered_filtered : ℕ
  pub total_filtered : ℕ
  pub shown : ℕ
  pub rows : List Row

should_show : Bool → Text → ℕ → Bool
unfolding lower
should_show filtered fname shown =
    filtered
    || (is_in (codes "ludp") (lower fname)
        || (is_in (codes "fpga") (lower fname)
            || (is_in (codes "tb_") (lower fname) || ltb shown 15)))

abbrev pub counted_in : Bool → ℕ → ℕ → ℕ
counted_in filtered sum n = if filtered then sum + n else sum

-- one file of the table
unfoldable pub tally_file : List Text → Stats → Text → Tally → Tally
unfolding names_any should_show
tally_file keywords stats fname t =
    let s = find_or no_stats fname stats in
    let filtered = names_any keywords fname in
    let show = should_show filtered fname t.shown in
    if s.total == 0 then t else record {
      covered_all = t.covered_all + s.covered;
      total_all = t.total_all + s.total;
      covered_filtered = counted_in filtered t.covered_filtered s.covered;
      total_filtered = counted_in filtered t.total_filtered s.total;
      shown = if show then t.shown + 1 else t.shown;
      rows =
          if show
          then t.rows ++ record { file = fname; covered = s.covered; total = s.total } ∷ []
          else t.rows;
    }

unfoldable pub tally_files : List Text → Stats → List Text → Tally → Tally
unfolding tally_file
tally_files keywords stats [] t = t
tally_files keywords stats (fname ∷ names) t =
    tally_files keywords stats names (tally_file keywords stats fname t)

abbrev pub no_tally : Tally
no_tally = record {
  covered_all = 0;
  total_all = 0;
  covered_filtered = 0;
  total_filtered = 0;
  shown = 0;
  rows = [];
}

-- `int(x) for x in lines if x.isdigit()`
abbrev pub numbers : List Text → List ℕ
numbers [] = []
numbers (x ∷ xs) = if isdigit x then int_digits x ∷ numbers xs else numbers xs

-- `sorted(set(ns))`
abbrev pub insert_number : ℕ → List ℕ → List ℕ
insert_number n [] = n ∷ []
insert_number n (m ∷ ms) =
    if n == m then m ∷ ms else if ltb n m then n ∷ m ∷ ms else m ∷ insert_number n ms

abbrev pub sorted_set : List ℕ → List ℕ
sorted_set [] = []
sorted_set (n ∷ ns) = insert_number n (sorted_set ns)

-- the loop over `lines[1:]`
unfoldable pub ranges_from : ℕ → ℕ → List ℕ → List (ℕ × ℕ)
ranges_from start prev [] = (start, prev) ∷ []
ranges_from start prev (l ∷ lines) =
    let cut = ranges_from l l lines in
    let joined = ranges_from start l lines in
    if ltb 1 (l - prev) then (start, prev) ∷ cut else joined

unfoldable pub ranges_of : List ℕ → List (ℕ × ℕ)
unfolding ranges_from
ranges_of [] = []
ranges_of (l ∷ lines) = ranges_from l l lines

-- the ranges that `print_report` computes from the entries of `s['lines']`
unfoldable pub uncovered_ranges : List Text → List (ℕ × ℕ)
unfolding ranges_of
uncovered_ranges lines = ranges_of (sorted_set (numbers lines))

-- the lines of a file that are not covered: how many, of how many, the ranges that are printed, and
-- how many more there are
pub record Uncovered : Type 0 where
  pub file : Text
  pub missed : ℕ
  pub total : ℕ
  pub ranges : List (ℕ × ℕ)
  pub more : ℕ

unfoldable pub uncovered_file : Stats → Text → List Uncovered
unfolding lower uncovered_ranges
uncovered_file stats fname =
    let s = find_or no_stats fname stats in
    let ranges = uncovered_ranges s.lines in
    let found : Uncovered = record {
      file = fname;
      missed = length s.lines;
      total = s.total;
      ranges = take 30 ranges;
      more = length ranges - 30;
    } in
    if is_in (codes "ludp") (lower fname) || is_in (codes "fpga") (lower fname)
    then (if ltb 0 s.total && ltb 0 (length s.lines) then found ∷ [] else [])
    else []

unfoldable pub uncovered_files : Stats → List Text → List Uncovered
unfolding uncovered_file
uncovered_files stats [] = []
uncovered_files stats (fname ∷ names) = uncovered_file stats fname ++ uncovered_files stats names

pub record Report : Type 0 where
  pub table : Tally
  pub uncovered : List Uncovered

unfoldable pub print_report : Stats → List Text → Report
unfolding keyword_leb tally_files uncovered_files
print_report stats keywords = record {
  table = tally_files keywords stats (sorted_by (keyword_leb keywords) (keys stats)) no_tally;
  uncovered = uncovered_files stats (sorted_by text_leb (keys stats));
}

-- the sum over the files that satisfy `test`
abbrev pub sum_of : (Text → Bool) → (FileStats → ℕ) → Stats → ℕ
sum_of test field [] = 0
sum_of test field ((fname, s) ∷ stats) =
    (if test fname then field s else 0) + sum_of test field stats

unfoldable pub calc_overall : Stats → List Text → ℕ × ℕ
unfolding names_any
calc_overall stats keywords = (
  sum_of (names_any keywords) (λ s. s.covered) stats,
  sum_of (names_any keywords) (λ s. s.total) stats,
)

-- `sum(v['covered'] for v in stats.values())`, and so for the totals
abbrev pub overall : Stats → ℕ × ℕ
overall stats = (sum_of (λ _. true) (λ s. s.covered) stats, sum_of (λ _. true) (λ s. s.total) stats)

-- a metric of the summary: covered and total of all files, then of those with a keyword
pub record Summary : Type 0 where
  pub all : ℕ × ℕ
  pub filtered : ℕ × ℕ

unfoldable pub summary : Stats → List Text → Summary
unfolding calc_overall
summary stats keywords = record { all = overall stats; filtered = calc_overall stats keywords }

abbrev pub filter_kws : List Text
filter_kws = codes "ludp" ∷ codes "fpga" ∷ codes "tb_" ∷ []

-- what the two files of a metric parse to, with the shape file read twice
pub record Database : Type 0 where
  pub first : Option Element
  pub shape : Option Element
  pub insts : Option Element

pub record Printed : Type 0 where
  pub reports : List Report
  pub summaries : List Summary

abbrev pub parse : Files → (Metric → Database) → Metric → Option Parsed
parse fs db metric =
    parse_coverage fs metric ((db metric).first) ((db metric).shape) ((db metric).insts)

-- what is printed of three metrics, if all three calls return
unfoldable pub print_all : Option Parsed → Option Parsed → Option Parsed → Option Printed
unfolding print_report summary
print_all (some lines) (some branches) (some conds) = some (record {
  reports =
      print_report lines.stats filter_kws
      ∷ print_report branches.stats filter_kws
      ∷ print_report conds.stats filter_kws
      ∷ [];
  summaries =
      summary lines.stats filter_kws
      ∷ summary branches.stats filter_kws
      ∷ summary conds.stats filter_kws
      ∷ [];
})
print_all _ _ _ = none

-- The reports are printed when all three metrics have been parsed.
unfoldable pub main : Files → (Metric → Database) → Option Printed
unfolding print_all
main fs db = print_all (parse fs db line) (parse fs db branch) (parse fs db cond)
