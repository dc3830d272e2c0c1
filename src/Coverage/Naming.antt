-- ===== src/Coverage/Naming.antt =====
-- Which names `build_file_id_map` gives.
use mini_corundum.Base.{
  ℕ, ◌≡◌, ◌∙◌, refl, ◌⊎◌, inl, inr, some, List, [], ◌∷◌, arith, take, All, Bool-cases, Option, none,
  Option-cases,
}
use mini_corundum.Text.{Text, same, same→eq, line_number, base_name}
use mini_corundum.Coverage.Names.{Names, change}
use mini_corundum.Coverage.Xml.{Element}
use mini_corundum.Coverage.OnLine.{IsOnLine, matches-IsOnLine}
use mini_corundum.Coverage.FileMap.{
  Metric, for_each, Files, file_id_to_bbsig, src_content, matches, search_files, search_entry,
  search_entries, set_name, name_file, build_file_id_map,
}

abbrev pub Member : {A : Type 0} → A → List A → Type 0
Member a [] = ⊥
Member a (x ∷ xs) = (a ≡ x) ⊎ Member a xs

-- A source file of that base name has the signature on line `l`.
pub record IsFound (content : Names (List Text)) (l : ℕ) (sig name : Text) : Type 0 where
  pub path : Text
  pub text : List Text
  pub read : Member (path, text) content
  pub hit : IsOnLine l sig text
  pub base : name ≡ base_name path

-- One of the entries names the file.
pub record IsNamed (content : Names (List Text)) (entries : List (Text × Text)) (name : Text)
    : Type 0 where
  pub lnum : Text
  pub sig : Text
  pub entry : Member (lnum, sig) entries
  pub l : ℕ
  pub number : line_number lnum ≡ some l
  pub found : IsFound content l sig name

later_file :
    (l : ℕ) (sig name : Text) (file : Text × List Text) (content : Names (List Text))
    → IsFound content l sig name
    → IsFound (file ∷ content) l sig name
later_file l sig name file content f = record {
  path = f.path;
  text = f.text;
  read = inr f.read;
  hit = f.hit;
  base = f.base;
}

search_files_lem :
    (l : ℕ) (sig name : Text) (content : Names (List Text))
    → search_files l sig content ≡ some name
    → IsFound content l sig name
unfolding search_files
search_files_lem l sig name [] e = absurd (ground arith)
search_files_lem l sig name ((sf, lines) ∷ content) e = elim (Bool-cases (matches l sig lines)) [
  | inl hit ↦ record {
    path = sf;
    text = lines;
    read = inl refl;
    hit = matches-IsOnLine l sig lines hit;
    base = ground (arith, e, hit);
  }
  | inr missed ↦
      later_file l sig name (sf, lines) content
        (search_files_lem l sig name content (rw missed at e))
]

later_entry :
    (content : Names (List Text)) (entry : Text × Text) (entries : List (Text × Text)) (name : Text)
    → IsNamed content entries name
    → IsNamed content (entry ∷ entries) name
later_entry content entry entries name n = record {
  lnum = n.lnum;
  sig = n.sig;
  entry = inr n.entry;
  l = n.l;
  number = n.number;
  found = n.found;
}

-- One entry is searched, and the others come later.
search_entry_lem :
    (number : Option ℕ) (lnum sig name : Text) (content : Names (List Text))
    (entries : List (Text × Text)) (later : Option Text)
    → (later ≡ some name → IsNamed content entries name)
    → line_number lnum ≡ number
    → search_entry number sig content later ≡ some name
    → IsNamed content ((lnum, sig) ∷ entries) name
unfolding search_entry
search_entry_lem none lnum sig name content entries later go number e =
    later_entry content (lnum, sig) entries name (go e)
search_entry_lem (some l) lnum sig name content entries later go number e =
    elim (Option-cases (search_files l sig content)) [
      | inl missed ↦ later_entry content (lnum, sig) entries name (go (rw missed at e))
      | inr (other, found) ↦ record {
        lnum = lnum;
        sig = sig;
        entry = inl refl;
        l = l;
        number = number;
        found = search_files_lem l sig name content (found ∙ (rw found at e));
      }
    ]

search_entries_lem :
    (entries : List (Text × Text)) (content : Names (List Text)) (name : Text)
    → search_entries entries content ≡ some name
    → IsNamed content entries name
unfolding search_entries
search_entries_lem [] content name e = absurd (ground arith)
search_entries_lem ((lnum, sig) ∷ entries) content name e =
    search_entry_lem (line_number lnum) lnum sig name content entries
      (search_entries entries content) (search_entries_lem entries content name) refl e

module _ (content : Names (List Text)) (shapes : Names (List (Text × Text))) where
  -- The file id has the name from its first five entries.
  abbrev pub HasReason : Text × Text → Type 0
  HasReason (fid, name) =
      (entries : List (Text × Text)) × Member (fid, entries) shapes
      × IsNamed content (take 5 entries) name

  change-HasReason :
      (fid name : Text) (names : Names Text)
      → HasReason (fid, name)
      → All HasReason names
      → All HasReason (change [] fid (λ _. name) names)
  unfolding change
  change-HasReason fid name [] r a = (r, tt)
  change-HasReason fid name ((k, old) ∷ names) r a = elim (Bool-cases (same fid k)) [
    | inl this ↦ rw this ((rw (same→eq fid k this) at r), a.1)
    | inr other ↦ rw other (a.0, change-HasReason fid name names r a.1)
  ]

  set_name-HasReason :
      (fid : Text) (found : Option Text) (names : Names Text)
      → ((name : Text) → found ≡ some name → HasReason (fid, name))
      → All HasReason names
      → All HasReason (set_name fid found names)
  unfolding set_name
  set_name-HasReason fid none names r a = a
  set_name-HasReason fid (some name) names r a = change-HasReason fid name names (r name refl) a

  name_file-HasReason :
      (fid : Text) (entries : List (Text × Text)) (names : Names Text)
      → Member (fid, entries) shapes
      → All HasReason names
      → All HasReason (name_file content (fid, entries) names)
  unfolding name_file
  name_file-HasReason fid entries names m a =
      set_name-HasReason fid (search_entries (take 5 entries) content) names
        (λ name e. (entries, m, search_entries_lem (take 5 entries) content name e)) a

  all-HasReason :
      (some_shapes : Names (List (Text × Text))) (names : Names Text)
      → ((s : Text × List (Text × Text)) → Member s some_shapes → Member s shapes)
      → All HasReason names
      → All HasReason (for_each (name_file content) some_shapes names)
  all-HasReason [] names sub a = a
  all-HasReason ((fid, entries) ∷ rest) names sub a =
      all-HasReason rest (name_file content (fid, entries) names) (λ s m. sub s (inr m))
        (name_file-HasReason fid entries names (sub (fid, entries) (inl refl)) a)

-- Where the shape file can be read, every name that `build_file_id_map` gives to a file id has a
-- reason: one of the first five entries of that id has a line number `l`, and the `l`-th line,
-- counted from 1, of a source file of that base name that could be read contains the entry's
-- signature, which is not blank, where both are stripped of the space around them.
pub build_file_id_map_lem :
    (fs : Files) (metric : Metric) (root : Element)
    → (names : Names Text) × (build_file_id_map fs metric (some root) ≡ some names)
      × All (HasReason (src_content fs) (file_id_to_bbsig metric root)) names
unfolding build_file_id_map
build_file_id_map_lem fs metric root = (
  _,
  refl,
  all-HasReason _ (file_id_to_bbsig metric root) (file_id_to_bbsig metric root) [] (λ s m. m) tt,
)
