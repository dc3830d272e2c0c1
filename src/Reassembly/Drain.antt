-- ===== src/Reassembly/Drain.antt =====
-- The loop that hands over the stored packets which have become due.
use native.Mathlib.Numerals.{add-one}
use mini_corundum.Base.{
  ℕ, suc, ◌+◌, ◌≤◌, ◌<◌, true, ◌≡◌, refl, ap, ◌∙◌, ⊤, none, some, List, [], ◌∷◌, length, elem, ltb,
  All, ◌==◌, if◌then◌else◌, ==→eq, Bool-cases, inl, inr, arith, Returns, returns, Returns-map,
}
use mini_corundum.Dict.{
  Dict, lookup, contains, erase, lookup-erase, contains-erase, lookup-absent, lookup-present,
}
use mini_corundum.Host.State.{LudpDataPacket, LudpHost}
use mini_corundum.Host.Receive.{call, deliver, deliver_next, drain_from, drain}
use mini_corundum.Reassembly.Heap.{Above, elem-below}
use mini_corundum.Reassembly.Trace.{feed, Delivers, SameSetup}

-- The heap lists the keys of the dict, and each packet stands under its own number.
pub record IsIndexed (heap : List ℕ) (d : Dict LudpDataPacket) : Type 0 where
  pub keys : (s : ℕ) → contains s d ≡ elem s heap
  pub seqs : (s : ℕ) (p : LudpDataPacket) → lookup s d ≡ some p → p.seq_num ≡ s

taken-IsIndexed :
    (x : ℕ) (rest : List ℕ) (d : Dict LudpDataPacket)
    → Above (suc x) rest
    → IsIndexed (x ∷ rest) d
    → IsIndexed rest (erase x d)
taken-IsIndexed x rest d a i = record {
  keys = λ s. ground (arith, contains-erase s x d, i.keys s, elem-below (suc x) x rest a);
  seqs = λ s p e. ground (arith, lookup-erase s x d, i.seqs s p);
}

stored-erase :
    (x : ℕ) (d : Dict LudpDataPacket) (ps : List LudpDataPacket)
    → All (λ p. lookup p.seq_num (erase x d) ≡ some p) ps
    → All (λ p. lookup p.seq_num d ≡ some p) ps
stored-erase x d [] a = tt
stored-erase x d (p ∷ ps) a = (ground (arith, lookup-erase p.seq_num x d), stored-erase x d ps a.1)

module _ {App : Type 0} where
  -- The fields that the loop leaves alone.
  pub record SameFlow (h h' : LudpHost App) : Type 0 where
    pub setup : SameSetup h h'
    pub sent : h'.sent ≡ h.sent
    pub cmds : h'.pending_cmds ≡ h.pending_cmds
    pub credit : h'.abs_credit ≡ h.abs_credit
    pub highest : h'.highest_seq ≡ h.highest_seq
    pub received : h'.stats.packets_received ≡ h.stats.packets_received
    pub ooo : h'.stats.packets_out_of_order ≡ h.stats.packets_out_of_order
    pub gaps : h'.stats.gap_count ≡ h.stats.gap_count
    pub credits : h'.stats.credits_sent ≡ h.stats.credits_sent

  -- From `h` to `h'` exactly the stored packets `ps` were handed over, as far as they are due.
  pub record DrainedBy (ps : List LudpDataPacket) (h h' : LudpHost App) : Type 0 where
    pub delivers : Delivers ps h h'
    pub stored : All (λ p. lookup p.seq_num h.out_of_order ≡ some p) ps
    pub above : Above (suc h'.expected_seq) h'.ooo_heap
    pub indexed : IsIndexed h'.ooo_heap h'.out_of_order
    pub left :
        (s : ℕ)
        → lookup s h'.out_of_order
          ≡ (if ltb s h'.expected_seq then none else lookup s h.out_of_order)
    pub due : (s : ℕ) → h.expected_seq ≤ s → s < h'.expected_seq → contains s h.out_of_order ≡ true
    pub size : h'.expected_seq + length h'.ooo_heap ≡ h.expected_seq + length h.ooo_heap
    pub same : SameFlow h h'

  abbrev pub Drained : LudpHost App → ⊤ → LudpHost App → Type 0
  Drained h _ h' = (ps : List LudpDataPacket) × DrainedBy ps h h'

  -- nothing is due
  drain_stop :
      (h : LudpHost App)
      → Above (suc h.expected_seq) h.ooo_heap
      → IsIndexed h.ooo_heap h.out_of_order
      → DrainedBy [] h h
  unfolding feed
  drain_stop h a i = record {
    delivers = ground arith;
    stored = tt;
    above = a;
    indexed = i;
    left = λ s. ground (
      arith,
      elem-below (suc h.expected_seq) s h.ooo_heap a,
      i.keys s,
      lookup-absent s h.out_of_order,
    );
    due = λ s lo hi. absurd (omega arith);
    size = refl;
    same = ground arith;
  }

  -- the state after one round of the loop
  abbrev taken : ℕ → List ℕ → LudpDataPacket → LudpHost App → LudpHost App
  taken x rest pkt h = record h {
    ooo_heap = rest;
    out_of_order = erase x h.out_of_order;
    stats = record (h.stats) { packets_processed = h.stats.packets_processed + 1 };
    app = call h.on_data pkt h.app;
    expected_seq = h.expected_seq + 1;
  }

  drain_step :
      (x : ℕ) (rest : List ℕ) (pkt : LudpDataPacket) (ps : List LudpDataPacket)
      (h h' : LudpHost App)
      → h.ooo_heap ≡ x ∷ rest
      → x ≡ h.expected_seq
      → pkt.seq_num ≡ x
      → lookup x h.out_of_order ≡ some pkt
      → DrainedBy ps (taken x rest pkt h) h'
      → DrainedBy (pkt ∷ ps) h h'
  unfolding feed
  drain_step x rest pkt ps h h' e q n l d = record {
    delivers = record {
      fed = d.delivers.fed;
      in_order = (n ∙ q, rw add-one at (d.delivers.in_order));
      next = omega (arith, d.delivers.next);
      counted = omega (arith, d.delivers.counted);
    };
    stored = (simp n l, stored-erase x h.out_of_order ps d.stored);
    above = d.above;
    indexed = d.indexed;
    left = λ s. ground (arith, d.left s, lookup-erase s x h.out_of_order, d.delivers.next);
    due = λ s lo hi. ground (arith, d.due s, contains-erase s x h.out_of_order);
    size = omega (arith, d.size, ap length e);
    same = ground arith;
  }

  drain_from_lem :
      (xs : List ℕ) (h : LudpHost App)
      → h.ooo_heap ≡ xs
      → Above h.expected_seq xs
      → IsIndexed xs h.out_of_order
      → Returns (Drained h) (drain_from xs h)
  unfolding drain_from deliver_next deliver
  drain_from_lem [] h e a i = returns ([], drain_stop h (rw e tt) (rw e i))
  drain_from_lem (x ∷ xs) h e a i = elim (Bool-cases (x == h.expected_seq)) [
    | inl due ↦
        let q = ==→eq x h.expected_seq due in
        let (pkt, l) = lookup-present x h.out_of_order (ground (arith, i.keys x)) in
        rw (due, l)
          (Returns-map
            (drain_from_lem xs (taken x xs pkt h) refl (rw (add-one, ← q) (a.1))
              (taken-IsIndexed x xs h.out_of_order a.1 i))
            λ _ h' (ps, d). (pkt ∷ ps, drain_step x xs pkt ps h h' e q (i.seqs x pkt l) l d))
    | inr later ↦ rw later (returns ([], drain_stop h (rw e (ground arith)) (rw e i)))
  ]

  -- With a heap that lists the stored packets, each at least `expected_seq`, the loop ends and
  -- raises nothing, no missing key either; it hands over exactly the stored packets that are due,
  -- and the heap still lists the others.
  pub drain_lem :
      (h : LudpHost App)
      → Above h.expected_seq h.ooo_heap
      → IsIndexed h.ooo_heap h.out_of_order
      → Returns (Drained h) (drain h)
  unfolding drain
  drain_lem h a i = drain_from_lem h.ooo_heap h refl a i
