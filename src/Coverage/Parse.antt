-- ===== src/Coverage/Parse.antt =====
-- `parse_coverage` of `tb/coverage_report.py`: what is covered of each source file.
use mini_corundum.Base.{
  ℕ, ◌+◌, Bool, true, false, Option, none, some, List, [], ◌∷◌, ◌++◌, get_elem?, ◌==◌,
  if◌then◌else◌,
}
use mini_corundum.Text.{Text, codes}
use mini_corundum.Coverage.Names.{Names, find, find_or, change}
use mini_corundum.Coverage.Xml.{Element, iter, attribute}
use mini_corundum.Coverage.FileMap.{
  Metric, line, branch, cond, for_each, append_to, not_ignored, Files, build_file_id_map,
}

-- a thing to cover; `arm` is the third component that the entries of branches have
pub record Entry : Type 0 where
  pub fid : Text
  pub lnum : Text
  pub arm : Option Bool

-- the counts of a source file, with the line numbers of what is not covered
pub record FileStats : Type 0 where
  pub total : ℕ
  pub covered : ℕ
  pub lines : List Text

abbrev pub Stats : Type 0
Stats = Names FileStats

abbrev pub no_stats : FileStats
no_stats = record { total = 0; covered = 0; lines = [] }

add_line : Text → Element → Names (List Entry) → Names (List Entry)
unfolding change
add_line chksum linebb d =
    if not_ignored linebb
    then append_to chksum
        (record {
          fid = attribute (codes "file_id") [] linebb;
          lnum = attribute (codes "line_num") [] linebb;
          arm = none;
        })
        d
    else d

add_branch : Text → Element → Names (List Entry) → Names (List Entry)
unfolding change
add_branch chksum expr d =
    append_to chksum
      (record {
        fid = attribute (codes "file_id") [] expr;
        lnum = attribute (codes "false_clause_line") [] expr;
        arm = some false;
      })
      (append_to chksum
        (record {
          fid = attribute (codes "file_id") [] expr;
          lnum = attribute (codes "true_clause_line") [] expr;
          arm = some true;
        })
        d)

add_cond : Text → Element → Names (List Entry) → Names (List Entry)
unfolding change
add_cond chksum condspec d =
    append_to chksum
      (record {
        fid = attribute (codes "file_id") [] condspec;
        lnum = attribute (codes "line_num") [] condspec;
        arm = none;
      })
      d

-- the entries below one definition
add_below :
    Text
    → (Text → Element → Names (List Entry) → Names (List Entry))
    → Element
    → Names (List Entry)
    → Names (List Entry)
unfolding iter
add_below tag note def d = for_each (note (attribute (codes "chksum") [] def)) (iter tag def) d

unfoldable pub chksum_to_entries : Metric → Element → Names (List Entry)
unfolding iter add_below add_line add_branch add_cond
chksum_to_entries line root =
    for_each (add_below (codes "linebb") add_line) (iter (codes "linedef") root) []
chksum_to_entries branch root =
    for_each (add_below (codes "branch_expr") add_branch) (iter (codes "branch_def") root) []
chksum_to_entries cond root =
    for_each (add_below (codes "condspec") add_cond) (iter (codes "conddef") root) []

-- `pos < len(bits) and bits[pos] == '1'`
abbrev pub bit_set : Text → ℕ → Bool
bit_set bits pos = elim (get_elem? bits pos) [ none ↦ false | some bit ↦ bit == b'1' ]

abbrev pub count_bit : Bool → Text → FileStats → FileStats
count_bit set lnum s =
    if set
    then record s { total = s.total + 1; covered = s.covered + 1 }
    else record s { total = s.total + 1; lines = s.lines ++ lnum ∷ [] }

-- `file_map.get(fid, f'unknown_{fid}')`
abbrev pub file_name : Names Text → Text → Text
file_name file_map fid = find_or (codes "unknown_" ++ fid) fid file_map

-- the entries from position `pos` on
unfoldable pub count_entries : Names Text → Text → ℕ → List Entry → Stats → Stats
unfolding change
count_entries file_map bits pos [] stats = stats
count_entries file_map bits pos (e ∷ entries) stats =
    count_entries file_map bits (pos + 1) entries
      (change no_stats (file_name file_map e.fid) (count_bit (bit_set bits pos) e.lnum) stats)

unfoldable pub count_instance : Names Text → Names (List Entry) → Element → Stats → Stats
unfolding count_entries
count_instance file_map shapes inst stats =
    elim (find (attribute (codes "chksum") [] inst) shapes) [
      | none ↦ stats
      | some entries ↦ count_entries file_map (attribute (codes "value") [] inst) 0 entries stats
    ]

-- what is returned, and which of the two errors were printed
pub record Parsed : Type 0 where
  pub stats : Stats
  pub shape_error : Bool
  pub data_error : Bool

-- `first` and `shape` are the two readings of the shape file, `insts_read` that of the data file. Where
-- the first fails the call raises.
unfoldable pub parse_coverage :
    Files → Metric → Option Element → Option Element → Option Element → Option Parsed
unfolding build_file_id_map chksum_to_entries iter count_instance
parse_coverage fs metric first shape insts_read = elim (build_file_id_map fs metric first) [
  | none ↦ none
  | some file_map ↦ elim shape [
    | none ↦ some (record { stats = []; shape_error = true; data_error = false })
    | some root ↦ elim insts_read [
      | none ↦ some (record { stats = []; shape_error = false; data_error = true })
      | some insts ↦ some (record {
        stats =
            for_each (count_instance file_map (chksum_to_entries metric root))
              (iter (codes "instance_data") insts) [];
        shape_error = false;
        data_error = false;
      })
    ]
  ]
]
