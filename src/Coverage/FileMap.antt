-- ===== src/Coverage/FileMap.antt =====
-- `build_file_id_map` of `tb/coverage_report.py`: which source file a file id of the database means.
use mini_corundum.Base.{
  ℕ, zero, suc, Bool, true, false, ◌||◌, Option, none, some, List, [], ◌∷◌, ◌++◌, get_elem?, take,
  if◌then◌else◌,
}
use mini_corundum.Text.{
  Text, codes, same, is_empty, is_in, ends_with, strip, line_number, base_name,
}
use mini_corundum.Coverage.Names.{Names, change}
use mini_corundum.Coverage.Xml.{Element, iter, attribute}

pub data Metric : Type 0 where
  line branch cond : Metric

-- a `for` loop over a state
abbrev pub for_each : {A S : Type 0} → (A → S → S) → List A → S → S
for_each body [] s = s
for_each body (x ∷ xs) s = for_each body xs (body x s)

-- `d[key].append(value)` in a `defaultdict(list)`
abbrev pub append_to : {A : Type 0} → Text → A → Names (List A) → Names (List A)
append_to key value d = change [] key (λ values. values ++ value ∷ []) d

abbrev pub not_ignored : Element → Bool
not_ignored elem =
    if same (attribute (codes "line_ignore") (codes "0") elem) (codes "1") then false else true

abbrev file_id : Element → Text
file_id elem = attribute (codes "file_id") [] elem

note_line : Element → Names (List (Text × Text)) → Names (List (Text × Text))
unfolding change
note_line elem d =
    if not_ignored elem
    then append_to (file_id elem)
        (attribute (codes "line_num") [] elem, attribute (codes "bbsig") [] elem) d
    else d

note_branch : Element → Names (List (Text × Text)) → Names (List (Text × Text))
unfolding change
note_branch elem d =
    append_to (file_id elem)
      (
        attribute (codes "true_clause_line") (attribute (codes "false_clause_line") [] elem) elem,
        attribute (codes "exprstr") [] elem,
      )
      d

note_cond : Element → Names (List (Text × Text)) → Names (List (Text × Text))
unfolding change
note_cond elem d =
    append_to (file_id elem) (attribute (codes "line_num") [] elem, attribute (codes "sig") [] elem)
      d

-- the line numbers and signatures of each file id
pub file_id_to_bbsig : Metric → Element → Names (List (Text × Text))
unfolding iter note_line note_branch note_cond
file_id_to_bbsig line root = for_each note_line (iter (codes "linebb") root) []
file_id_to_bbsig branch root = for_each note_branch (iter (codes "branch_expr") root) []
file_id_to_bbsig cond root = for_each note_cond (iter (codes "condspec") root) []

is_source : Text → Bool
unfolding ends_with
is_source f =
    ends_with f (codes ".v")
    || (ends_with f (codes ".sv") || (ends_with f (codes ".svh") || ends_with f (codes ".vh")))

-- The file system: which directories there are, what `os.walk` lists below one, as a directory and
-- its files, and the lines of a file, if it can be read.
pub record Files : Type 0 where
  pub isdir : Text → Bool
  pub walk : Text → List (Text × List Text)
  pub readlines : Text → Option (List Text)

sources_in : Text → List Text → List Text
unfolding is_source
sources_in root_dir [] = []
sources_in root_dir (f ∷ files) =
    let rest = sources_in root_dir files in
    if is_source f then (root_dir ++ b'/' ∷ f) ∷ rest else rest

sources_below : List (Text × List Text) → List Text
unfolding sources_in
sources_below [] = []
sources_below ((root_dir, files) ∷ more) = sources_in root_dir files ++ sources_below more

sources_of : Files → List Text → List Text
unfolding sources_below
sources_of fs [] = []
sources_of fs (rtl_dir ∷ more) =
    let rest = sources_of fs more in
    if fs.isdir rtl_dir then sources_below (fs.walk rtl_dir) ++ rest else rest

pub src_files : Files → List Text
unfolding sources_of
src_files fs = sources_of fs (codes "../rtl" ∷ codes "../tb" ∷ codes "../lib" ∷ [])

-- a file that cannot be read is passed over
read_source : Files → Text → Names (List Text) → Names (List Text)
unfolding change
read_source fs sf d = elim (fs.readlines sf) [ none ↦ d | some lines ↦ change [] sf (λ _. lines) d ]

unfoldable pub src_content : Files → Names (List Text)
unfolding src_files read_source
src_content fs = for_each (read_source fs) (src_files fs) []

-- Line `l` of the file holds the signature.
abbrev pub matches : ℕ → Text → List Text → Bool
matches zero sig lines = false
matches (suc i) sig lines = elim (get_elem? lines i) [
  | none ↦ false
  | some content ↦ if is_empty (strip sig) then false else is_in (strip sig) (strip content)
]

-- the first file that matches
unfoldable pub search_files : ℕ → Text → Names (List Text) → Option Text
unfolding strip base_name
search_files l sig [] = none
search_files l sig ((sf, lines) ∷ rest) =
    let later = search_files l sig rest in
    if matches l sig lines then some (base_name sf) else later

or_later : Option Text → Option Text → Option Text
or_later none later = later
or_later (some name) later = some name

-- one entry, whose line number is `number`
unfoldable pub search_entry : Option ℕ → Text → Names (List Text) → Option Text → Option Text
unfolding or_later
search_entry none sig content later = later
search_entry (some l) sig content later = or_later (search_files l sig content) later

-- the first of the entries that has a file
unfoldable pub search_entries : List (Text × Text) → Names (List Text) → Option Text
unfolding search_entry
search_entries [] content = none
search_entries ((lnum, sig) ∷ entries) content =
    search_entry (line_number lnum) sig content (search_entries entries content)

-- `file_id_to_filename[fid] = short_name`, if a file has been found
unfoldable pub set_name : Text → Option Text → Names Text → Names Text
unfolding change
set_name fid none names = names
set_name fid (some name) names = change [] fid (λ _. name) names

unfoldable pub name_file : Names (List Text) → Text × List (Text × Text) → Names Text → Names Text
name_file content (fid, entries) names =
    set_name fid (search_entries (take 5 entries) content) names

-- `shape` is what the shape file parses to: where it cannot be read, the call raises.
unfoldable pub build_file_id_map : Files → Metric → Option Element → Option (Names Text)
unfolding file_id_to_bbsig src_content name_file
build_file_id_map fs metric none = none
build_file_id_map fs metric (some root) =
    some (for_each (name_file (src_content fs)) (file_id_to_bbsig metric root) [])
