-- ===== src/Threads/Moves.antt =====
-- What one packet, one round, or a call of the application is to a run.
use mini_corundum.Base.{
  ℕ, ◌+◌, ◌≤◌, ◌<◌, inl, inr, refl, Bool, List, [], ◌∷◌, All-map, length, arith, ltb→lt, ltb→le, ap,
  Bool-cases, ltb,
}
use mini_corundum.Dict.{Dict}
use mini_corundum.Host.State.{LudpDataPacket, PendingCmd, LudpHost}
use mini_corundum.Host.Poll.{PollLocals}
use mini_corundum.Reassembly.Trace.{feed}
use mini_corundum.Reassembly.Accept.{IsConsistent}
use mini_corundum.Reassembly.Stream.{StreamedBy}
use mini_corundum.Flow.Skip.{SkipsTo}
use mini_corundum.Flow.Round.{is_due, Waits, Polled}
use mini_corundum.Threads.Room.{HasRoom, SkipsTo-HasRoom, last_of}
use mini_corundum.Threads.Ran.{RanBy, Rising-mono, Consecutive-Rising}

module _ {App : Type 0} where
  -- after one packet, the room is still there
  streamed-HasRoom :
      (p : LudpDataPacket) (ps : List LudpDataPacket) (h h' : LudpHost App)
      → p.seq_num + 2 + h.window_size < 4294967296
      → StreamedBy (p ∷ []) ps h h'
      → HasRoom h
      → HasRoom h'
  streamed-HasRoom p ps h h' fits a r = record {
    now = elim (Bool-cases (ltb 0 (length ps))) [
      | inl fed ↦
          let (q, e, o) =
            last_of h.expected_seq ps a.delivers.in_order a.origin (ltb→lt 0 (length ps) fed) in
          elim o [
            | inl (inl same) ↦
                omega (arith, e, ap LudpDataPacket.seq_num same, a.delivers.next, a.same.window)
            | inl (inr nothing) ↦ elim nothing [ ]
            | inr old ↦ omega (arith, e, r.stored q.seq_num q old, a.delivers.next, a.same.window)
          ]
      | inr none_fed ↦
          omega (arith, ltb→le 0 (length ps) none_fed, a.delivers.next, a.same.window, r.now)
    ];
    stored = λ s q l. elim (a.kept s q l) [
      | inl (inl same) ↦
          omega
            (arith, a.consistent.indexed.seqs s q l, ap LudpDataPacket.seq_num same, a.same.window)
      | inl (inr nothing) ↦ elim nothing [ ]
      | inr old ↦ omega (arith, r.stored s q old, a.same.window)
    ];
  }

  pub streamed-RanBy :
      (p : LudpDataPacket) (ps : List LudpDataPacket) (h h' : LudpHost App)
      → p.seq_num + 2 + h.window_size < 4294967296
      → StreamedBy (p ∷ []) ps h h'
      → HasRoom h
      → RanBy (p ∷ []) 0 ps h h'
  streamed-RanBy p ps h h' fits a r = record {
    fed = a.delivers.fed;
    rising = rw (a.delivers.next) (Consecutive-Rising h.expected_seq ps a.delivers.in_order);
    origin = a.origin;
    kept = a.kept;
    counted = a.delivers.counted;
    consistent = a.consistent;
    room = streamed-HasRoom p ps h h' fits a r;
    grows = a.grows;
    window = a.same.window;
    interval = a.same.interval;
    callback = a.same.callback;
    ids = omega (arith, a.same.ids);
  }

  -- the fields that no packet depends on
  abbrev touched : ℕ → List (List ℕ) → Bool → Dict PendingCmd → ℕ → LudpHost App → LudpHost App
  touched next sent running cmds credits h = record h {
    next_cmd_id = next;
    sent = sent;
    running = running;
    pending_cmds = cmds;
    stats = record (h.stats) { credits_sent = credits };
  }

  pub touched-RanBy :
      (log : List LudpDataPacket) (calls next : ℕ) (sent : List (List ℕ)) (running : Bool)
      (cmds : Dict PendingCmd) (credits : ℕ) (h : LudpHost App)
      → next ≤ h.next_cmd_id + calls
      → IsConsistent h
      → HasRoom h
      → RanBy log calls [] h (touched next sent running cmds credits h)
  unfolding feed
  touched-RanBy log calls next sent running cmds credits h n c r = record {
    fed = refl;
    rising = omega arith;
    origin = tt;
    kept = λ s q l. inr l;
    counted = omega arith;
    consistent = record {
      above = c.above;
      indexed = c.indexed;
      granted = c.granted;
      accounts = c.accounts;
      quiet = c.quiet;
    };
    room = record { now = r.now; stored = r.stored };
    grows = omega arith;
    window = refl;
    interval = refl;
    callback = refl;
    ids = n;
  }

  Waited-RanBy :
      (h h' : LudpHost App)
      → Waits h h'
      → IsConsistent h'
      → HasRoom h
      → h.abs_credit ≤ h'.abs_credit
      → RanBy [] 0 [] h h'
  unfolding feed
  Waited-RanBy h h' w c r g = record {
    fed = w.app;
    rising = omega (arith, w.expected);
    origin = tt;
    kept = λ s q l. inr (rw (w.buffer) at l);
    counted = omega (arith, w.processed);
    consistent = c;
    room = record {
      now = omega (arith, r.now, w.expected, w.same.window);
      stored = λ s q l. omega (arith, r.stored s q (rw (w.buffer) at l), w.same.window);
    };
    grows = g;
    window = w.same.window;
    interval = w.same.interval;
    callback = w.same.callback;
    ids = omega (arith, w.same.ids);
  }

  Skipped-RanBy :
      (x : ℕ) (ps : List LudpDataPacket) (h h' : LudpHost App)
      → SkipsTo x ps h h'
      → HasRoom h
      → h.abs_credit ≤ h'.abs_credit
      → RanBy [] 0 ps h h'
  Skipped-RanBy x ps h h' s r g = record {
    fed = s.fed;
    rising = rw (s.next) (
        Rising-mono h.expected_seq x (x + length ps) ps (omega (arith, s.ahead))
          (Consecutive-Rising x ps s.in_order));
    origin = All-map (λ q. inr) ps s.stored;
    kept = λ n q l. inr (s.kept n q l);
    counted = s.counted;
    consistent = s.consistent;
    room = SkipsTo-HasRoom x ps h h' s r;
    grows = g;
    window = s.same.window;
    interval = s.same.interval;
    callback = s.same.callback;
    ids = omega (arith, s.same.ids);
  }

  pub Polled-RanBy :
      (now : ℕ) (loc : PollLocals) (h h' : LudpHost App)
      → HasRoom h
      → Polled now loc h h'
      → (ps : List LudpDataPacket) × RanBy [] 0 ps h h'
  Polled-RanBy now loc h h' r p = elim (Bool-cases (is_due now loc h)) [
    | inl due ↦ let (x, ps, s) = p.skips due in (ps, Skipped-RanBy x ps h h' s r p.grows)
    | inr early ↦ ([], Waited-RanBy h h' (p.waits early) p.consistent r p.grows)
  ]

  pub RanBy-one :
      (log ps : List LudpDataPacket) (h h' : LudpHost App)
      → RanBy log 0 ps h h'
      → RanBy log 1 ps h h'
  RanBy-one log ps h h' a = record {
    fed = a.fed;
    rising = a.rising;
    origin = a.origin;
    kept = a.kept;
    counted = a.counted;
    consistent = a.consistent;
    room = a.room;
    grows = a.grows;
    window = a.window;
    interval = a.interval;
    callback = a.callback;
    ids = omega (arith, a.ids);
  }
