-- ===== src/Coverage/Xml.antt =====
-- The trees of `xml.etree.ElementTree`, as far as `tb/coverage_report.py` reads them.
use mini_corundum.Base.{List, [], ◌∷◌, ◌++◌, if◌then◌else◌}
use mini_corundum.Text.{Text, same}
use mini_corundum.Coverage.Names.{Names, find_or}

mutual
  pub data Element : Type 0 where
    element : Text → Names Text → Elements → Element

  pub data Elements : Type 0 where
    none_left : Elements
    then_element : Element → Elements → Elements

unfoldable mutual
  -- `elem.iter(tag)`: the element itself, then what is below it, in the order of the document
  pub iter : Text → Element → List Element
  iter tag (element t attributes below) =
      let rest = iter_all tag below in
      if same t tag then element t attributes below ∷ rest else rest

  pub iter_all : Text → Elements → List Element
  iter_all tag none_left = []
  iter_all tag (then_element e rest) = iter tag e ++ iter_all tag rest

-- `elem.get(name, default)`
abbrev pub attribute : Text → Text → Element → Text
attribute name default (element tag attributes below) = find_or default name attributes
