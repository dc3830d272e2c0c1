-- ===== src/Dict.antt =====
-- A Python dict whose keys are numbers, as the list of its entries.
use mini_corundum.Base.{
  ℕ, ◌≡◌, refl, Bool, true, false, Option, none, some, List, [], ◌∷◌, arith, ◌==◌, if◌then◌else◌,
  Option-cases, inl, inr,
}

-- the entries
abbrev pub Dict {ℓ} : Type ℓ → Type ℓ
Dict A = List (ℕ × A)

module _ {ℓ} {V : Type ℓ} where
  -- `d[key] = value`, at the entry of the key or behind all others
  unfoldable pub insert : ℕ → V → Dict V → Dict V
  insert key value [] = (key, value) ∷ []
  insert key value (entry ∷ rest) =
      if key == entry.0 then (key, value) ∷ rest else entry ∷ insert key value rest

  -- `del d[key]`
  unfoldable pub erase : ℕ → Dict V → Dict V
  erase key [] = []
  erase key (entry ∷ rest) = if key == entry.0 then erase key rest else entry ∷ erase key rest

  -- `d.get(key)`
  abbrev pub lookup : ℕ → Dict V → Option V
  lookup key [] = none
  lookup key ((k, value) ∷ rest) = if key == k then some value else lookup key rest

  -- `key in d`
  abbrev pub contains : ℕ → Dict V → Bool
  contains key entries = elim (lookup key entries) [ none ↦ false | some value ↦ true ]

  pub lookup-insert :
      (j k : ℕ) (v : V) (d : Dict V)
      → lookup j (insert k v d) ≡ (if j == k then some v else lookup j d)
  unfolding insert
  lookup-insert j k v [] = refl
  lookup-insert j k v (e ∷ d) = ground (arith, lookup-insert j k v d)

  pub lookup-erase :
      (j k : ℕ) (d : Dict V) → lookup j (erase k d) ≡ (if j == k then none else lookup j d)
  unfolding erase
  lookup-erase j k [] = ground arith
  lookup-erase j k (e ∷ d) = ground (arith, lookup-erase j k d)

  pub contains-insert :
      (j k : ℕ) (v : V) (d : Dict V)
      → contains j (insert k v d) ≡ (if j == k then true else contains j d)
  contains-insert j k v d = ground (arith, lookup-insert j k v d)

  pub contains-erase :
      (j k : ℕ) (d : Dict V) → contains j (erase k d) ≡ (if j == k then false else contains j d)
  contains-erase j k d = ground (arith, lookup-erase j k d)

  pub lookup-absent : (k : ℕ) (d : Dict V) → contains k d ≡ false → lookup k d ≡ none
  lookup-absent k d h = ground arith

  pub lookup-present : (k : ℕ) (d : Dict V) → contains k d ≡ true → (v : V) × (lookup k d ≡ some v)
  lookup-present k d h = elim (Option-cases (lookup k d)) [
    | inl missing ↦ absurd (ground arith)
    | inr found ↦ found
  ]
