-- ===== src/Flow/Skip.antt =====
-- The skip of a gap to the least stored packet.
use mini_corundum.Base.{
  ℕ, suc, ◌+◌, ◌-◌, ◌≤◌, ◌<◌, ◌≡◌, refl, Bool, true, false, none, some, List, ◌∷◌, All, length,
  arith, ◌>>=◌, Returns, returns, Returns-bind,
}
use mini_corundum.Dict.{lookup, contains}
use mini_corundum.Host.State.{LudpDataPacket, LudpHost}
use mini_corundum.Host.Receive.{drain}
use mini_corundum.Host.Poll.{PollLocals, skip_to_head, skip_gap}
use mini_corundum.Reassembly.Heap.{Above, Above-mono, elem-below, drop_stale-Above}
use mini_corundum.Reassembly.Trace.{Consecutive, feed, SameSetup}
use mini_corundum.Reassembly.Drain.{DrainedBy, Drained, drain_lem}
use mini_corundum.Reassembly.Credit.{credited, send_credit_lem}
use mini_corundum.Reassembly.Accept.{IsConsistent}

module _ {App : Type 0} where
  -- Every credit that the host can have to send fits the 32 bits of its field.
  pub record FitsCredit (h : LudpHost App) : Type 0 where
    pub now : h.expected_seq + h.window_size < 4294967296
    pub stored : (s : ℕ) → contains s h.out_of_order ≡ true → s + 1 + h.window_size < 4294967296

  -- Between `h` and `h'` the packets below `x` were given up, and `ps`, from `x` on, handed over.
  pub record SkipsTo (x : ℕ) (ps : List LudpDataPacket) (h h' : LudpHost App) : Type 0 where
    pub fed : h'.app ≡ feed h.on_data ps h.app
    pub in_order : Consecutive x ps
    pub stored : All (λ p. lookup p.seq_num h.out_of_order ≡ some p) ps
    pub next : h'.expected_seq ≡ x + length ps
    pub some_fed : 0 < length ps
    pub ahead : h.expected_seq < x
    pub given_up : (s : ℕ) → h.expected_seq ≤ s → s < x → contains s h.out_of_order ≡ false
    pub kept :
        (s : ℕ) (q : LudpDataPacket)
        → lookup s h'.out_of_order ≡ some q
        → lookup s h.out_of_order ≡ some q
    pub counted : h'.stats.packets_processed ≡ h.stats.packets_processed + length ps
    pub gaps : h'.stats.gap_count ≡ h.stats.gap_count + (x - h.expected_seq)
    pub same : SameSetup h h'
    pub consistent : IsConsistent h'

  -- the state at the packet that is skipped to
  abbrev at_skip : ℕ → LudpHost App → LudpHost App
  at_skip x h = record h {
    stats = record (h.stats) { gap_count = h.stats.gap_count + (x - h.expected_seq) };
    expected_seq = x;
  }

  -- The packet that is skipped to is due at once.
  skip_feeds :
      (x : ℕ) (rest : List ℕ) (ps : List LudpDataPacket) (h h' : LudpHost App)
      → IsConsistent h
      → h.ooo_heap ≡ x ∷ rest
      → DrainedBy ps (at_skip x h) h'
      → x < h'.expected_seq
  skip_feeds x rest ps h h' c e d = ground (
    arith,
    d.delivers.next,
    d.left x,
    d.indexed.keys x,
    c.indexed.keys x,
    elem-below (suc h'.expected_seq) x h'.ooo_heap d.above,
  )

  drained-SkipsTo :
      (x : ℕ) (rest : List ℕ) (ps : List LudpDataPacket) (h h' : LudpHost App)
      → IsConsistent h
      → h.ooo_heap ≡ x ∷ rest
      → DrainedBy ps (at_skip x h) h'
      → SkipsTo x ps h (record (credited (h'.expected_seq + h'.window_size) h') {
        abs_credit = h'.expected_seq + h'.window_size;
      })
  drained-SkipsTo x rest ps h h' c e d =
      let a : Above (suc h.expected_seq) (x ∷ rest) = rw e at (c.above) in
      record {
        fed = d.delivers.fed;
        in_order = d.delivers.in_order;
        stored = d.stored;
        next = d.delivers.next;
        some_fed = omega (arith, skip_feeds x rest ps h h' c e d, d.delivers.next);
        ahead = omega arith;
        given_up =
            λ s lo hi. rw (c.indexed.keys s, e) (elem-below x s (x ∷ rest) (omega arith, a.1) hi);
        kept = λ s q l. ground (arith, d.left s);
        counted = d.delivers.counted;
        gaps = d.same.gaps;
        same = ground arith;
        consistent = record {
          above = d.above;
          indexed = d.indexed;
          granted = omega arith;
          accounts = ground (arith, c.accounts, d.delivers.next, d.delivers.counted);
          quiet = ground (arith, c.quiet);
        };
      }

  -- What a skip from `h` leaves: the gap's clock is off, and the credit is the window ahead.
  pub record Skipped (loc : PollLocals) (h : LudpHost App) (r : Bool × PollLocals)
      (h' : LudpHost App) : Type 0 where
    pub target : ℕ
    pub fed : List LudpDataPacket
    pub skips : SkipsTo target fed h h'
    pub tight : h'.abs_credit ≡ h'.expected_seq + h'.window_size
    pub bounded : h'.expected_seq + h'.window_size < 4294967296
    pub received : h'.stats.packets_received ≡ h.stats.packets_received
    pub goes_on :
        r ≡ (false, record loc { gap_stall_start = none; last_expected_seq = h'.expected_seq })

  skip_to_head_lem :
      (x : ℕ) (rest : List ℕ) (loc : PollLocals) (h : LudpHost App)
      → IsConsistent h
      → FitsCredit h
      → h.ooo_heap ≡ x ∷ rest
      → Returns (Skipped loc h) (skip_to_head (x ∷ rest) loc h)
  unfolding skip_to_head
  skip_to_head_lem x rest loc h c f e =
      let a : Above (suc h.expected_seq) (x ∷ rest) = rw e at (c.above) in
      Returns-bind {P = Drained (at_skip x h)} drain _
        (drain_lem (at_skip x h) (rw e (omega arith, a.1)) c.indexed)
        λ _ h' (ps, d).
          let more = skip_feeds x rest ps h h' c e d in
          let fits : h'.expected_seq + h'.window_size < 4294967296 = ground (
            arith,
            f.stored (h'.expected_seq - 1),
            d.due (h'.expected_seq - 1),
            d.same.setup.window,
          ) in
          rw (send_credit_lem (h'.expected_seq + h'.window_size) h' fits, ◌>>=◌)
            (returns (record {
              target = x;
              fed = ps;
              skips = drained-SkipsTo x rest ps h h' c e d;
              tight = refl;
              bounded = fits;
              received = d.same.received;
              goes_on = refl;
            }))

  -- From a consistent host with a stored packet, on which every credit that can come up fits 32
  -- bits, the skip happens: `expected_seq` moves past the least stored number, at least the packet
  -- of that number is handed over, no stored packet is given up, `gap_count` grows by the packets
  -- that were, and the credit is the window ahead.
  pub skip_gap_lem :
      (x : ℕ) (rest : List ℕ) (loc : PollLocals) (h : LudpHost App)
      → IsConsistent h
      → FitsCredit h
      → h.ooo_heap ≡ x ∷ rest
      → Returns (Skipped loc h) (skip_gap loc h)
  unfolding skip_gap
  skip_gap_lem x rest loc h c f e =
      rw
        (drop_stale-Above h.expected_seq h.ooo_heap
          (Above-mono h.expected_seq (suc h.expected_seq) h.ooo_heap (omega arith) c.above))
        (to_head h.ooo_heap e)
    where
      to_head : (xs : List ℕ) → xs ≡ x ∷ rest → Returns (Skipped loc h) (skip_to_head xs loc h)
      to_head xs q = rw q (skip_to_head_lem x rest loc h c f e)
