-- ===== src/Flow/Credit.antt =====
-- The credit after a round of the polling thread, and what the round hands over.
use mini_corundum.Base.{
  ℕ, ◌+◌, ◌≤◌, ◌≡◌, ◌∙◌, ◌⊎◌, inl, inr, ap, refl, Bool, true, false, List, ltb, if◌then◌else◌,
  arith, ◌>>=◌, pure, Returns, Returns-bind, Returns-map, Bool-cases, ltb→lt, ltb→le,
}
use mini_corundum.Host.State.{LudpDataPacket, LudpHost}
use mini_corundum.Host.Poll.{PollLocals, check_gap, keep_alive, note_data, poll_round}
use mini_corundum.Reassembly.Credit.{credited, advanced, advance_credit_lem}
use mini_corundum.Reassembly.Accept.{IsConsistent}
use mini_corundum.Flow.Skip.{FitsCredit, SkipsTo, Skipped}
use mini_corundum.Flow.Round.{
  is_due, Waits, Polled, Early, check_gap-Early, check_gap-skips, keep_alive_lem,
}

noted-same :
    (b : Bool) (now : ℕ) (loc : PollLocals)
    → let loc' = if b then record loc { last_data_time = now } else loc in
      (loc'.last_expected_seq ≡ loc.last_expected_seq)
      × (loc'.gap_stall_start ≡ loc.gap_stall_start)
noted-same true now loc = (refl, refl)
noted-same false now loc = (refl, refl)

module _ {App : Type 0} where
  -- After `advance_credit` the credit is the window ahead, and nothing else has changed.
  record Ready (h h' : LudpHost App) : Type 0 where
    consistent : IsConsistent h'
    fits : FitsCredit h'
    tight : h'.abs_credit ≡ h'.expected_seq + h'.window_size
    grows : h.abs_credit ≤ h'.abs_credit
    waits : Waits h h'

  advanced-Ready : (h : LudpHost App) → IsConsistent h → FitsCredit h → Ready h (advanced h)
  advanced-Ready h c f = elim (Bool-cases (ltb h.abs_credit (h.expected_seq + h.window_size))) [
    | inl more ↦ rw more (record {
      consistent = record {
        above = c.above;
        indexed = c.indexed;
        granted = omega arith;
        accounts = c.accounts;
        quiet = c.quiet;
      };
      fits = record { now = f.now; stored = f.stored };
      tight = refl;
      grows = omega (arith, ltb→lt h.abs_credit (h.expected_seq + h.window_size) more);
      waits = ground arith;
    })
    | inr same ↦ rw same (record {
      consistent = c;
      fits = f;
      tight = omega (arith, c.granted, ltb→le h.abs_credit (h.expected_seq + h.window_size) same);
      grows = omega arith;
      waits = ground arith;
    })
  ]

  credited-SkipsTo :
      (n x : ℕ) (ps : List LudpDataPacket) (h h' : LudpHost App)
      → SkipsTo x ps h h'
      → SkipsTo x ps h (credited n h')
  credited-SkipsTo n x ps h h' s = record {
    fed = s.fed;
    in_order = s.in_order;
    stored = s.stored;
    next = s.next;
    some_fed = s.some_fed;
    ahead = s.ahead;
    given_up = s.given_up;
    kept = s.kept;
    counted = s.counted;
    gaps = s.gaps;
    same = ground arith;
    consistent = record {
      above = s.consistent.above;
      indexed = s.consistent.indexed;
      granted = s.consistent.granted;
      accounts = s.consistent.accounts;
      quiet = s.consistent.quiet;
    };
  }

  -- one more CREDIT packet changes none of this
  credited-Polled :
      (n now : ℕ) (loc : PollLocals) (h h' : LudpHost App)
      → Polled now loc h h'
      → Polled now loc h (credited n h')
  credited-Polled n now loc h h' p = record {
    consistent = record {
      above = p.consistent.above;
      indexed = p.consistent.indexed;
      granted = p.consistent.granted;
      accounts = p.consistent.accounts;
      quiet = p.consistent.quiet;
    };
    tight = p.tight;
    grows = p.grows;
    waits = λ e. let w = p.waits e in ground arith;
    skips = λ e. let (x, ps, s) = p.skips e in (x, ps, credited-SkipsTo n x ps h h' s);
  }

  -- a skip from the state with the credit advanced is one from the state before
  Skips-Waits :
      (x : ℕ) (ps : List LudpDataPacket) (h h' h'' : LudpHost App)
      → Waits h h'
      → SkipsTo x ps h' h''
      → SkipsTo x ps h h''
  Skips-Waits x ps h h' h'' w s = record {
    fed = s.fed ∙ rw (w.same.callback, w.app);
    in_order = s.in_order;
    stored = rw (w.buffer) at (s.stored);
    next = s.next;
    some_fed = s.some_fed;
    ahead = omega (arith, s.ahead, w.expected);
    given_up = λ n lo hi. rw (w.buffer) at (s.given_up n (omega (arith, w.expected)) hi);
    kept = λ n q l. rw (w.buffer) at (s.kept n q l);
    counted = omega (arith, s.counted, w.processed);
    gaps = omega (arith, s.gaps, w.gaps, w.expected);
    same = ground arith;
    consistent = s.consistent;
  }

  -- the rest of a round, after the locals are brought up to date
  module _ (now : ℕ) (loc : PollLocals) (h : LudpHost App) (r : Ready h (advanced h)) where
    waited-Polled : is_due now loc h ≡ false → Polled now loc h (advanced h)
    waited-Polled e = record {
      consistent = r.consistent;
      tight = r.tight;
      grows = r.grows;
      waits = λ _. r.waits;
      skips = λ e'. absurd (ground arith);
    }

    Skipped-Polled :
        (loc' : PollLocals) (res : Bool × PollLocals) (h' : LudpHost App)
        → is_due now loc h ≡ true
        → Skipped loc' (advanced h) res h'
        → Polled now loc h h'
    Skipped-Polled loc' res h' e s = record {
      consistent = s.skips.consistent;
      tight = s.tight;
      grows =
          omega
            (arith, s.tight, s.skips.next, s.skips.ahead, r.grows, r.tight, s.skips.same.window);
      waits = λ e'. absurd (ground arith);
      skips = λ _. (s.target, s.fed, Skips-Waits s.target s.fed h (advanced h) h' r.waits s.skips);
    }

    settled :
        (h' h'' : LudpHost App)
        → Polled now loc h h'
        → (h'' ≡ h') ⊎ (h'' ≡ credited h'.abs_credit h')
        → Polled now loc h h''
    settled h' h'' p (inl e) = rw e p
    settled h' h'' p (inr e) = rw e (credited-Polled h'.abs_credit now loc h h' p)

  due-same :
      (now : ℕ) (loc loc' : PollLocals) (h h' : LudpHost App)
      → (loc'.last_expected_seq ≡ loc.last_expected_seq)
      → (loc'.gap_stall_start ≡ loc.gap_stall_start)
      → Waits h h'
      → is_due now loc' h' ≡ is_due now loc h
  due-same now loc loc' h h' a b w = rw (a, b, w.expected, w.buffer)

  module _ (now : ℕ) (loc loc' : PollLocals) (h : LudpHost App) (r : Ready h (advanced h)) where
    finish :
        is_due now loc' (advanced h) ≡ is_due now loc h
        → Returns
            (λ _ h'. Polled now loc h h')
            ((check_gap now loc' >>= λ (skipped, loc'').
                if skipped then pure loc'' else keep_alive now loc'')
              (advanced h))
    finish same = elim (Bool-cases (is_due now loc h)) [
      | inl due ↦
          Returns-bind {P = Skipped loc' (advanced h)} (check_gap now loc') _
            (check_gap-skips now loc' (advanced h) r.consistent r.fits (same ∙ due))
            λ res h' s.
              let p = Skipped-Polled now loc h r loc' res h' due s in
              rw (ap (λ (t : Bool × PollLocals). t.0) s.goes_on) (
                Returns-map (keep_alive_lem now res.1 h' (omega (arith, s.tight, s.bounded)))
                  λ _ h'' e. settled now loc h r h' h'' p e)
      | inr early ↦
          Returns-bind {P = Early loc' (advanced h)} (check_gap now loc') _
            (check_gap-Early now loc' (advanced h) (same ∙ early))
            λ res h' (e, go, _).
              rw (go, e)
                (Returns-map
                  (keep_alive_lem now res.1 (advanced h) (omega (arith, r.tight, r.fits.now)))
                  λ _ h'' e.
                    settled now loc h r (advanced h) h'' (waited-Polled now loc h r early) e)
    ]

  -- From a consistent host on which every credit that can come up fits 32 bits, a round of the
  -- polling thread raises nothing, keeps the host consistent, never lowers the credit and leaves
  -- it at exactly the window ahead of the next packet. If no gap has stalled for more than 5 ms it
  -- hands over nothing and leaves the buffer alone; if one has, it gives up the missing packets
  -- before the least stored one and hands over at least that one, in order.
  pub poll_round_lem :
      (now : ℕ) (loc : PollLocals) (h : LudpHost App)
      → IsConsistent h
      → FitsCredit h
      → Returns (λ _ h'. Polled now loc h h') (poll_round now loc h)
  unfolding poll_round note_data
  poll_round_lem now loc h c f =
      let r = advanced-Ready h c f in
      let b = ltb 0 h.stats.packets_received in
      let loc' = if b then record loc { last_data_time = now } else loc in
      let (last, clock) = noted-same b now loc in
      rw (advance_credit_lem h f.now, ◌>>=◌)
        (finish now loc loc' h r (due-same now loc loc' h (advanced h) last clock r.waits))
