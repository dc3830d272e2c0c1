-- ===== src/Reassembly/Accept.antt =====
-- One DATA packet: in order, from the future, or old.
use native.Mathlib.Numerals.{add-one}
use mini_corundum.Base.{
  ℕ, All, All-map, ◌⊎◌, suc, ◌+◌, ◌%◌, ◌≤◌, ◌<◌, ◌≡◌, ◌≢◌, refl, ⊤, Bool, some, List, [], ◌∷◌, ◌||◌,
  length, ltb, ◌==◌, if◌then◌else◌, Bool-cases, inl, inr, ==→eq, ltb→lt, arith, Returns, returns,
  Returns-bind,
}
use mini_corundum.Dict.{lookup, contains, lookup-insert, contains-insert}
use mini_corundum.Host.State.{LudpDataPacket, LudpHost}
use mini_corundum.Host.Receive.{
  heappush, call, deliver, deliver_next, drain, credit_if_due, accept_in_order, store_future,
  accept,
}
use mini_corundum.Reassembly.Heap.{
  Above, drop_stale-Above, heappush-Above, elem-heappush, length-heappush,
}
use mini_corundum.Reassembly.Trace.{feed, Delivers, SameSetup}
use mini_corundum.Reassembly.Drain.{IsIndexed, DrainedBy, drain_lem}
use mini_corundum.Reassembly.Credit.{advanced, credit_updated, credit_if_due_lem}

module _ {App : Type 0} where
  -- The invariant of a host between two calls of its handlers.
  pub record IsConsistent (h : LudpHost App) : Type 0 where
    pub above : Above (suc h.expected_seq) h.ooo_heap
    pub indexed : IsIndexed h.ooo_heap h.out_of_order
    pub granted : h.abs_credit ≤ h.expected_seq + h.window_size
    pub accounts :
        h.expected_seq + h.stats.packets_out_of_order
        ≡ h.stats.packets_processed + h.stats.gap_count
    pub quiet : h.stats.nacks_sent ≡ 0

  -- whether the packet `s` was handed over, skipped or stored
  abbrev pub seen : LudpHost App → ℕ → Bool
  seen h s = ltb s h.expected_seq || contains s h.out_of_order

  -- Between `h` and `h'` the packet `p` was taken in, and the packets `ps` were handed over.
  pub record AcceptedBy (p : LudpDataPacket) (ps : List LudpDataPacket) (h h' : LudpHost App)
      : Type 0 where
    pub delivers : Delivers ps h h'
    pub setup : SameSetup h h'
    pub consistent : IsConsistent h'
    pub seen_next : (s : ℕ) → seen h' s ≡ (s == p.seq_num || seen h s)
    pub origin : All (λ q. (q ≡ p) ⊎ (lookup q.seq_num h.out_of_order ≡ some q)) ps
    pub kept :
        (s : ℕ) (q : LudpDataPacket)
        → lookup s h'.out_of_order ≡ some q
        → (q ≡ p) ⊎ (lookup s h.out_of_order ≡ some q)
    pub size : h'.expected_seq + length h'.ooo_heap ≤ h.expected_seq + length h.ooo_heap + 1
    pub received : h'.stats.packets_received ≡ h.stats.packets_received
    pub cmds : h'.pending_cmds ≡ h.pending_cmds
    pub grows : h.abs_credit ≤ h'.abs_credit

  abbrev pub Accepted : LudpDataPacket → LudpHost App → ⊤ → LudpHost App → Type 0
  Accepted p h _ h' = (ps : List LudpDataPacket) × AcceptedBy p ps h h'

  advanced-AcceptedBy :
      (p : LudpDataPacket) (ps : List LudpDataPacket) (h h' : LudpHost App)
      → AcceptedBy p ps h h'
      → AcceptedBy p ps h (advanced h')
  advanced-AcceptedBy p ps h h' a =
      elim (Bool-cases (ltb h'.abs_credit (h'.expected_seq + h'.window_size))) [
        | inl more ↦ rw more (record {
          delivers = record {
            fed = a.delivers.fed;
            in_order = a.delivers.in_order;
            next = a.delivers.next;
            counted = a.delivers.counted;
          };
          setup = ground arith;
          consistent = record {
            above = a.consistent.above;
            indexed = a.consistent.indexed;
            granted = omega arith;
            accounts = a.consistent.accounts;
            quiet = a.consistent.quiet;
          };
          seen_next = a.seen_next;
          origin = a.origin;
          kept = a.kept;
          size = a.size;
          received = a.received;
          cmds = a.cmds;
          grows = omega (arith, ltb→lt h'.abs_credit (h'.expected_seq + h'.window_size) more);
        })
        | inr same ↦ rw same a
      ]

  credit_updated-AcceptedBy :
      (p : LudpDataPacket) (ps : List LudpDataPacket) (h h' : LudpHost App)
      → AcceptedBy p ps h h'
      → AcceptedBy p ps h (credit_updated h')
  credit_updated-AcceptedBy p ps h h' a =
      elim (Bool-cases (h'.expected_seq % h'.credit_interval == 0)) [
        | inl due ↦ rw due (advanced-AcceptedBy p ps h h' a)
        | inr early ↦ rw early a
      ]

  -- the state after the packet that was expected
  abbrev handed : LudpDataPacket → LudpHost App → LudpHost App
  handed p h = record h {
    stats = record (h.stats) { packets_processed = h.stats.packets_processed + 1 };
    app = call h.on_data p h.app;
    expected_seq = h.expected_seq + 1;
  }

  drained-AcceptedBy :
      (p : LudpDataPacket) (ps : List LudpDataPacket) (h h' : LudpHost App)
      → IsConsistent h
      → p.seq_num ≡ h.expected_seq
      → DrainedBy ps (handed p h) h'
      → AcceptedBy p (p ∷ ps) h h'
  unfolding feed
  drained-AcceptedBy p ps h h' c q d = record {
    delivers = record {
      fed = d.delivers.fed;
      in_order = (q, rw add-one at (d.delivers.in_order));
      next = omega (arith, d.delivers.next);
      counted = omega (arith, d.delivers.counted);
    };
    setup = ground arith;
    consistent = record {
      above = d.above;
      indexed = d.indexed;
      granted = ground (arith, c.granted, d.delivers.next);
      accounts = ground (arith, c.accounts, d.delivers.next, d.delivers.counted);
      quiet = ground (arith, c.quiet);
    };
    seen_next = λ s. ground (arith, d.left s, d.due s, d.delivers.next);
    origin = (inl refl, All-map (λ q. inr) ps d.stored);
    kept = λ s q e. inr (ground (arith, d.left s));
    size = ground (arith, d.size);
    received = ground arith;
    cmds = ground arith;
    grows = ground arith;
  }

  accept_in_order_lem :
      (p : LudpDataPacket) (h : LudpHost App)
      → IsConsistent h
      → h.credit_interval ≢ 0
      → h.expected_seq + length h.ooo_heap + 1 + h.window_size < 4294967296
      → p.seq_num ≡ h.expected_seq
      → Returns (Accepted p h) (accept_in_order p h)
  unfolding accept_in_order deliver_next deliver
  accept_in_order_lem p h c nz fits q =
      let a : Above (h.expected_seq + 1) h.ooo_heap = rw add-one (c.above) in
      rw (drop_stale-Above (h.expected_seq + 1) h.ooo_heap a) (
        Returns-bind drain (λ _. credit_if_due) (drain_lem (handed p h) a c.indexed)
          λ _ h' (ps, d).
            let same = d.same.setup in
            let due =
              credit_if_due_lem h' (omega (arith, d.size, same.window)) (rw (same.interval) nz) in
            rw due (
              returns (
                p ∷ ps,
                credit_updated-AcceptedBy p (p ∷ ps) h h' (drained-AcceptedBy p ps h h' c q d),
              )))

  push_future :
      (p : LudpDataPacket) (h : LudpHost App)
      → IsConsistent h
      → h.expected_seq < p.seq_num
      → Above
          (suc h.expected_seq)
          (if contains p.seq_num h.out_of_order then h.ooo_heap else heappush p.seq_num h.ooo_heap)
  push_future p h c later = elim (Bool-cases (contains p.seq_num h.out_of_order)) [
    | inl old ↦ rw old (c.above)
    | inr new ↦ rw new (
        heappush-Above (suc h.expected_seq) p.seq_num h.ooo_heap c.above later
          (ground (arith, c.indexed.keys p.seq_num)))
  ]

  -- a packet from the future, that was not stored or that was
  store_future_lem :
      (p : LudpDataPacket) (h : LudpHost App)
      → IsConsistent h
      → h.expected_seq < p.seq_num
      → Returns (Accepted p h) (store_future p h)
  unfolding store_future feed
  store_future_lem p h c later = returns (
    [],
    record {
      delivers = ground arith;
      setup = ground arith;
      consistent = record {
        above = push_future p h c later;
        indexed = record {
          keys = λ s. ground (
            arith,
            contains-insert s p.seq_num p h.out_of_order,
            c.indexed.keys s,
            c.indexed.keys p.seq_num,
            elem-heappush s p.seq_num h.ooo_heap,
          );
          seqs = λ s q e.
              ground (arith, lookup-insert s p.seq_num p h.out_of_order, c.indexed.seqs s q);
        };
        granted = c.granted;
        accounts = omega (arith, c.accounts);
        quiet = c.quiet;
      };
      seen_next = λ s. ground (arith, contains-insert s p.seq_num p h.out_of_order);
      origin = tt;
      kept = λ s q e. ground (arith, lookup-insert s p.seq_num p h.out_of_order);
      size = ground (arith, length-heappush p.seq_num h.ooo_heap);
      received = refl;
      cmds = refl;
      grows = omega arith;
    },
  )

  -- A DATA packet on a consistent host, with a credit interval other than 0 and room below 2^32:
  -- nothing is raised and the host stays consistent. Exactly the number of this packet is seen in
  -- addition; what is handed over continues the sequence, and is this packet or was stored under
  -- its number; the credit does not fall, and the commands are left alone.
  pub accept_lem :
      (p : LudpDataPacket) (h : LudpHost App)
      → IsConsistent h
      → h.credit_interval ≢ 0
      → h.expected_seq + length h.ooo_heap + 1 + h.window_size < 4294967296
      → Returns (Accepted p h) (accept p h)
  unfolding accept feed
  accept_lem p h c nz fits = elim (Bool-cases (p.seq_num == h.expected_seq)) [
    | inl due ↦ rw due (accept_in_order_lem p h c nz fits (==→eq p.seq_num h.expected_seq due))
    | inr other ↦ elim (Bool-cases (ltb h.expected_seq p.seq_num)) [
      | inl later ↦
          rw (other, later) (store_future_lem p h c (ltb→lt h.expected_seq p.seq_num later))
      | inr old ↦
          rw (other, old)
            (returns (
              [],
              record {
                delivers = ground arith;
                setup = ground arith;
                consistent = c;
                seen_next = λ s. ground arith;
                origin = tt;
                kept = λ s q e. inr e;
                size = omega arith;
                received = refl;
                cmds = refl;
                grows = omega arith;
              },
            ))
    ]
  ]
