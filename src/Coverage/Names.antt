-- ===== src/Coverage/Names.antt =====
-- A Python dict whose keys are texts, as the list of its entries in their order of insertion.
use mini_corundum.Base.{Option, none, some, List, [], ◌∷◌, map, if◌then◌else◌}
use mini_corundum.Text.{Text, same}

abbrev pub Names : Type 0 → Type 0
Names V = List (Text × V)

module _ {V : Type 0} where
  -- `d.get(key)`
  abbrev pub find : Text → Names V → Option V
  find key [] = none
  find key ((k, value) ∷ rest) = if same key k then some value else find key rest

  -- `d[key]` in a defaultdict that makes `fresh`
  abbrev pub find_or : V → Text → Names V → V
  find_or fresh key d = elim (find key d) [ none ↦ fresh | some value ↦ value ]

  -- `d[key]` changed by `f`, in a defaultdict that makes `fresh`
  unfoldable pub change : V → Text → (V → V) → Names V → Names V
  change fresh key f [] = (key, f fresh) ∷ []
  change fresh key f ((k, value) ∷ rest) =
      if same key k then (k, f value) ∷ rest else (k, value) ∷ change fresh key f rest

  -- `d.keys()`
  abbrev pub keys : Names V → List Text
  keys d = map (λ entry. entry.0) d
