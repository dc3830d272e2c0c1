-- ===== src/Reassembly/Heap.antt =====
-- The heap of stored sequence numbers (`ooo_heap`) as an ascending list.
use mini_corundum.Base.{
  ℕ, suc, ◌≤◌, ◌<◌, ◌≡◌, refl, ⊤, false, List, [], ◌∷◌, ◌||◌, length, elem, ◌==◌, arith,
}
use mini_corundum.Host.Receive.{heappush, drop_stale}

-- ascending, with no number twice, from `lo` on
abbrev pub Above : ℕ → List ℕ → Type 0
Above lo [] = ⊤
Above lo (x ∷ xs) = (lo ≤ x) × Above (suc x) xs

pub Above-mono : (lo hi : ℕ) (xs : List ℕ) → lo ≤ hi → Above hi xs → Above lo xs
Above-mono lo hi [] h a = tt
Above-mono lo hi (x ∷ xs) h a = (omega arith, a.1)

pub elem-below : (lo s : ℕ) (xs : List ℕ) → Above lo xs → s < lo → elem s xs ≡ false
elem-below lo s [] a h = refl
elem-below lo s (x ∷ xs) a h = ground (arith, elem-below (suc x) s xs a.1)

pub drop_stale-Above : (lo : ℕ) (xs : List ℕ) → Above lo xs → drop_stale lo xs ≡ xs
unfolding drop_stale
drop_stale-Above lo [] a = refl
drop_stale-Above lo (x ∷ xs) a = ground arith

pub heappush-Above :
    (lo s : ℕ) (xs : List ℕ) → Above lo xs → lo ≤ s → elem s xs ≡ false → Above lo (heappush s xs)
unfolding heappush
heappush-Above lo s [] a h n = (h, tt)
heappush-Above lo s (x ∷ xs) a h n = ground (arith, heappush-Above (suc x) s xs a.1)

pub elem-heappush : (j s : ℕ) (xs : List ℕ) → elem j (heappush s xs) ≡ (j == s || elem j xs)
unfolding heappush
elem-heappush j s [] = refl
elem-heappush j s (x ∷ xs) = ground (arith, elem-heappush j s xs)

pub length-heappush : (s : ℕ) (xs : List ℕ) → length (heappush s xs) ≡ suc (length xs)
unfolding heappush
length-heappush s [] = refl
length-heappush s (x ∷ xs) = ground (arith, length-heappush s xs)
