-- ===== src/Threads/Ran.antt =====
-- What a run of the threads hands over, and what it keeps.
use mini_corundum.Base.{
  ℕ, suc, ◌+◌, ◌≤◌, ◌≡◌, ◌⊎◌, inl, inr, refl, ◌∙◌, none, some, List, [], ◌∷◌, ◌++◌, All, All-map,
  All-append, length, length-append, arith,
}
use mini_corundum.Dict.{lookup}
use mini_corundum.Host.State.{LudpDataPacket, LudpHost}
use mini_corundum.Reassembly.Trace.{Consecutive, feed, feed-append}
use mini_corundum.Reassembly.Wire.{data_packet}
use mini_corundum.Reassembly.Accept.{IsConsistent}
use mini_corundum.Reassembly.Stream.{Among}
use mini_corundum.Threads.{Event, received}
use mini_corundum.Threads.Room.{HasRoom}

-- the DATA packets that came in
abbrev pub came : List Event → List LudpDataPacket
came [] = []
came (received bytes ∷ es) = elim (data_packet bytes) [ none ↦ came es | some p ↦ p ∷ came es ]
came (_ ∷ es) = came es

pub Among-append-left :
    (q : LudpDataPacket) (ps qs : List LudpDataPacket) → Among q ps → Among q (ps ++ qs)
Among-append-left q (p ∷ ps) qs (inl e) = inl e
Among-append-left q (p ∷ ps) qs (inr a) = inr (Among-append-left q ps qs a)
Among-append-left q [] qs a = elim a [ ]

pub Among-append-right :
    (q : LudpDataPacket) (ps qs : List LudpDataPacket) → Among q qs → Among q (ps ++ qs)
Among-append-right q [] qs a = a
Among-append-right q (p ∷ ps) qs a = inr (Among-append-right q ps qs a)

-- the sequence numbers rise strictly, from `lo` on and below `hi`
abbrev pub Rising : ℕ → ℕ → List LudpDataPacket → Type 0
Rising lo hi [] = lo ≤ hi
Rising lo hi (p ∷ ps) = (lo ≤ p.seq_num) × Rising (suc p.seq_num) hi ps

pub Rising-mono :
    (lo hi top : ℕ) (ps : List LudpDataPacket) → lo ≤ hi → Rising hi top ps → Rising lo top ps
Rising-mono lo hi top [] h r = omega arith
Rising-mono lo hi top (p ∷ ps) h r = (omega arith, r.1)

pub Rising-append :
    (lo mid hi : ℕ) (ps qs : List LudpDataPacket)
    → Rising lo mid ps
    → Rising mid hi qs
    → Rising lo hi (ps ++ qs)
Rising-append lo mid hi [] qs r s = Rising-mono lo mid hi qs r s
Rising-append lo mid hi (p ∷ ps) qs r s = (r.0, Rising-append (suc p.seq_num) mid hi ps qs r.1 s)

pub Consecutive-Rising :
    (n : ℕ) (ps : List LudpDataPacket) → Consecutive n ps → Rising n (n + length ps) ps
Consecutive-Rising n [] c = omega arith
Consecutive-Rising n (p ∷ ps) c =
    let e : suc n + length ps ≡ n + length (p ∷ ps) = omega arith in
    let same : suc n ≡ suc p.seq_num = omega (arith, c.0) in
    (omega (arith, c.0), rw same at (rw e at (Consecutive-Rising (suc n) ps c.1)))

module _ {App : Type 0} where
  -- Between `h` and `h'` the packets `log` came in, `ps` were handed over, and at most `calls`
  -- commands were sent.
  pub record RanBy (log : List LudpDataPacket) (calls : ℕ) (ps : List LudpDataPacket)
      (h h' : LudpHost App) : Type 0 where
    pub fed : h'.app ≡ feed h.on_data ps h.app
    pub rising : Rising h.expected_seq h'.expected_seq ps
    pub origin : All (λ q. Among q log ⊎ (lookup q.seq_num h.out_of_order ≡ some q)) ps
    pub kept :
        (s : ℕ) (q : LudpDataPacket)
        → lookup s h'.out_of_order ≡ some q
        → Among q log ⊎ (lookup s h.out_of_order ≡ some q)
    pub counted : h'.stats.packets_processed ≡ h.stats.packets_processed + length ps
    pub consistent : IsConsistent h'
    pub room : HasRoom h'
    pub grows : h.abs_credit ≤ h'.abs_credit
    pub window : h'.window_size ≡ h.window_size
    pub interval : h'.credit_interval ≡ h.credit_interval
    pub callback : h'.on_data ≡ h.on_data
    pub ids : h'.next_cmd_id ≤ h.next_cmd_id + calls

  pub RanBy-nil : (h : LudpHost App) → IsConsistent h → HasRoom h → RanBy [] 0 [] h h
  unfolding feed
  RanBy-nil h c r = record {
    fed = refl;
    rising = omega arith;
    origin = tt;
    kept = λ s q l. inr l;
    counted = omega arith;
    consistent = c;
    room = r;
    grows = omega arith;
    window = refl;
    interval = refl;
    callback = refl;
    ids = omega arith;
  }

  pub RanBy-trans :
      (log more : List LudpDataPacket) (m n : ℕ) (ps qs : List LudpDataPacket)
      (h h' h'' : LudpHost App)
      → RanBy log m ps h h'
      → RanBy more n qs h' h''
      → RanBy (log ++ more) (m + n) (ps ++ qs) h h''
  RanBy-trans log more m n ps qs h h' h'' a b =
      let before : (s : ℕ) (q : LudpDataPacket)
          → Among q more ⊎ (lookup s h'.out_of_order ≡ some q)
          → Among q (log ++ more) ⊎ (lookup s h.out_of_order ≡ some q) =
        λ s q o. elim o [
          | inl new ↦ inl (Among-append-right q log more new)
          | inr old ↦ elim (a.kept s q old) [
            | inl new ↦ inl (Among-append-left q log more new)
            | inr older ↦ inr older
          ]
        ] in
      record {
        fed = rw (b.fed, a.callback, a.fed, feed-append h.on_data ps qs h.app);
        rising =
            Rising-append h.expected_seq h'.expected_seq h''.expected_seq ps qs a.rising b.rising;
        origin =
            All-append _ ps qs
              (All-map
                (λ q o. elim o [
                  | inl new ↦ inl (Among-append-left q log more new)
                  | inr old ↦ inr old
                ])
                ps a.origin)
              (All-map (λ q o. before q.seq_num q o) qs b.origin);
        kept = λ s q l. before s q (b.kept s q l);
        counted = omega (arith, length-append ps qs, a.counted, b.counted);
        consistent = b.consistent;
        room = b.room;
        grows = omega (arith, a.grows, b.grows);
        window = b.window ∙ a.window;
        interval = b.interval ∙ a.interval;
        callback = b.callback ∙ a.callback;
        ids = omega (arith, a.ids, b.ids);
      }

  -- more packets may have come in, and more commands been sent
  pub RanBy-weaken :
      (log more : List LudpDataPacket) (m n : ℕ) (ps : List LudpDataPacket) (h h' : LudpHost App)
      → ((q : LudpDataPacket) → Among q log → Among q more)
      → m ≤ n
      → RanBy log m ps h h'
      → RanBy more n ps h h'
  RanBy-weaken log more m n ps h h' sub le a =
      let over : (s : ℕ) (q : LudpDataPacket)
          → Among q log ⊎ (lookup s h.out_of_order ≡ some q)
          → Among q more ⊎ (lookup s h.out_of_order ≡ some q) =
        λ s q o. elim o [ inl new ↦ inl (sub q new) | inr old ↦ inr old ] in
      record {
        fed = a.fed;
        rising = a.rising;
        origin = All-map (λ q o. over q.seq_num q o) ps a.origin;
        kept = λ s q l. over s q (a.kept s q l);
        counted = a.counted;
        consistent = a.consistent;
        room = a.room;
        grows = a.grows;
        window = a.window;
        interval = a.interval;
        callback = a.callback;
        ids = omega (arith, a.ids);
      }
