-- ===== src/Threads/Room.antt =====
-- Room below 2^32 for the next packet and its credit, and that no event uses it up.
use mini_corundum.Base.{
  ℕ, suc, ◌+◌, ◌-◌, ◌≤◌, ◌<◌, ◌≡◌, true, some, List, [], ◌∷◌, All, length, elem, arith,
}
use mini_corundum.Dict.{lookup, lookup-present}
use mini_corundum.Host.State.{LudpDataPacket, LudpHost}
use mini_corundum.Reassembly.Heap.{Above}
use mini_corundum.Reassembly.Trace.{Consecutive}
use mini_corundum.Reassembly.Accept.{IsConsistent}
use mini_corundum.Flow.Skip.{FitsCredit, SkipsTo}

-- no stored number is too high for a bound that holds of all of them
ascending-fits :
    (lo bound : ℕ) (xs : List ℕ)
    → Above lo xs
    → lo ≤ bound
    → ((s : ℕ) → elem s xs ≡ true → s < bound)
    → lo + length xs ≤ bound
ascending-fits lo bound [] a h f = omega arith
ascending-fits lo bound (x ∷ xs) a h f =
    omega
      (arith, ascending-fits (suc x) bound xs a.1 (ground (arith, f x)) λ s e. ground (arith, f s))

-- the last of a row of packets
pub last_of :
    {P : LudpDataPacket → Type 0} (n : ℕ) (ps : List LudpDataPacket)
    → Consecutive n ps
    → All P ps
    → 0 < length ps
    → (q : LudpDataPacket) × (suc q.seq_num ≡ n + length ps) × P q
last_of n (p ∷ []) c a h = (p, omega (arith, c.0), a.0)
last_of n (p ∷ q ∷ ps) c a h =
    let (r, e, w) = last_of (suc n) (q ∷ ps) c.1 a.1 (omega arith) in (r, omega arith, w)
last_of n [] c a h = absurd (omega arith)

module _ {App : Type 0} where
  -- the next two packets, and those behind any that is stored, have a credit of 32 bits
  pub record HasRoom (h : LudpHost App) : Type 0 where
    pub now : h.expected_seq + 1 + h.window_size < 4294967296
    pub stored :
        (s : ℕ) (q : LudpDataPacket)
        → lookup s h.out_of_order ≡ some q
        → s + 2 + h.window_size < 4294967296

  pub HasRoom-FitsCredit : (h : LudpHost App) → HasRoom h → FitsCredit h
  HasRoom-FitsCredit h r = record {
    now = omega (arith, r.now);
    stored = λ s e. let (q, l) = lookup-present s h.out_of_order e in omega (arith, r.stored s q l);
  }

  pub HasRoom-heap :
      (h : LudpHost App)
      → IsConsistent h
      → HasRoom h
      → h.expected_seq + length h.ooo_heap + 1 + h.window_size < 4294967296
  HasRoom-heap h c r = omega (
    arith,
    r.now,
    ascending-fits (suc h.expected_seq) (4294967295 - h.window_size) h.ooo_heap c.above
        (omega (arith, r.now))
        λ s e.
          let (q, l) = lookup-present s h.out_of_order (ground (arith, c.indexed.keys s)) in
          omega (arith, r.stored s q l),
  )

  pub SkipsTo-HasRoom :
      (x : ℕ) (ps : List LudpDataPacket) (h h' : LudpHost App)
      → SkipsTo x ps h h'
      → HasRoom h
      → HasRoom h'
  SkipsTo-HasRoom x ps h h' s r =
      let (q, e, l) = last_of x ps s.in_order s.stored s.some_fed in
      record {
        now = omega (arith, r.stored q.seq_num q l, s.next, s.same.window, e);
        stored = λ n p l. omega (arith, r.stored n p (s.kept n p l), s.same.window);
      }
