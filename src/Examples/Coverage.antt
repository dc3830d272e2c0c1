-- ===== src/Examples/Coverage.antt =====
-- The coverage report at concrete inputs.
use mini_corundum.Base.{ℕ, ◌≡◌, refl, ◌||◌, Option, none, some, List, [], ◌∷◌, All, elem}
use mini_corundum.Text.{Text, codes, ends_with, line_number}
use mini_corundum.Coverage.Names.{Names}
use mini_corundum.Coverage.Xml.{Element, element, none_left, then_element, iter}
use mini_corundum.Coverage.FileMap.{
  set_name, Metric, line, branch, cond, Files, file_id_to_bbsig, src_content, build_file_id_map,
  search_entries, search_files,
}
use mini_corundum.Coverage.Parse.{Parsed, chksum_to_entries, parse_coverage}
use mini_corundum.Coverage.Report.{
  Summary, Printed, numbers, uncovered_ranges, Database, overall, main,
}
use mini_corundum.Coverage.Ranges.{Apart, Ascending, covers, uncovered_ranges_lem}
use mini_corundum.Coverage.Sums.{bits_total, entries_total, overall-parse_coverage}
use mini_corundum.Coverage.Balance.{IsBalanced, Gives, parse_coverage-IsBalanced}
use mini_corundum.Coverage.Naming.{HasReason, build_file_id_map_lem}
use mini_corundum.Coverage.Agreement.{is_none, Prints, main-print_report}

abbrev linebb : Text → Text → Element
linebb lnum sig =
    element (codes "linebb")
      ((codes "file_id", codes "1") ∷ (codes "line_num", lnum) ∷ (codes "bbsig", sig) ∷ [])
      none_left

abbrev shape : Element
shape = element (codes "shape") [] (
    then_element
      (element (codes "linedef") ((codes "chksum", codes "c") ∷ []) (
        then_element (linebb (codes "1") (codes "x = 1"))
          (then_element (linebb (codes "2") (codes "y = x")) none_left)))
      none_left)

-- one instance of the definition, whose first entry is covered
abbrev instances : Element
instances = element (codes "data") [] (
    then_element
      (element (codes "instance_data")
        ((codes "chksum", codes "c") ∷ (codes "value", codes "10") ∷ []) none_left)
      none_left)

-- one source file, in the first directory
abbrev files : Files
files = record {
  isdir = λ d. ends_with d (codes "rtl");
  walk = λ d. (d, codes "ludp.v" ∷ codes "notes" ∷ []) ∷ [];
  readlines = λ f. some (codes "  x = 1;" ∷ codes "  y = x;" ∷ []);
}

-- The data file of the conditions cannot be read.
abbrev database : Metric → Database
database line = record { first = some shape; shape = some shape; insts = some instances }
database branch = record { first = some shape; shape = some shape; insts = some instances }
database cond = record { first = some shape; shape = some shape; insts = none }

abbrev summaries_of : Option Printed → List Summary
summaries_of none = []
summaries_of (some p) = p.summaries

-- covered and total of each metric, here the same for all files and for those with a keyword
reported :
    summaries_of (main files database)
    ≡ record { all = (1, 2); filtered = (1, 2) }
      ∷ record { all = (0, 0); filtered = (0, 0) }
      ∷ record { all = (0, 0); filtered = (0, 0) }
      ∷ []
unfolding main parse_coverage build_file_id_map set_name search_entries line_number search_files
reported = refl

-- lines as they stand in the counts of a file, with one that is no number
abbrev missed : List Text
missed = codes "7" ∷ codes "3" ∷ codes "12" ∷ codes "4" ∷ codes "" ∷ codes "3" ∷ codes "5" ∷ []

missed_ranges : uncovered_ranges missed ≡ (3, 5) ∷ (7, 7) ∷ (12, 12) ∷ []
unfolding uncovered_ranges
missed_ranges = refl

uncovered_ranges_lem_example :
    Apart 0 (uncovered_ranges missed)
    × Ascending 0 (covers (uncovered_ranges missed))
    × ((n : ℕ) → elem n (covers (uncovered_ranges missed)) ≡ elem n (numbers missed))
uncovered_ranges_lem_example = uncovered_ranges_lem missed

file_name_found :
    build_file_id_map files line (some shape) ≡ some ((codes "1", codes "ludp.v") ∷ [])
unfolding build_file_id_map search_entries search_files line_number set_name
file_name_found = refl

build_file_id_map_lem_example :
    (names : Names Text) × (build_file_id_map files line (some shape) ≡ some names)
    × All (HasReason (src_content files) (file_id_to_bbsig line shape)) names
build_file_id_map_lem_example = build_file_id_map_lem files line shape

overall-parse_coverage_example :
    (p : Parsed) × (parse_coverage files line (some shape) (some shape) (some instances) ≡ some p)
    × (overall p.stats ≡ (
      bits_total (chksum_to_entries line shape) (iter (codes "instance_data") instances),
      entries_total (chksum_to_entries line shape) (iter (codes "instance_data") instances),
    ))
overall-parse_coverage_example = overall-parse_coverage files line shape shape instances

parse_coverage-IsBalanced_example :
    Gives IsBalanced (parse_coverage files line (some shape) (some shape) (some instances))
parse_coverage-IsBalanced_example =
    parse_coverage-IsBalanced files line (some shape) (some shape) (some instances)

main-print_report_example :
    (is_none (main files database) ≡ (
      is_none (database line).first
      || (is_none (database branch).first || is_none (database cond).first)))
    × Prints (main files database)
main-print_report_example = main-print_report files database
