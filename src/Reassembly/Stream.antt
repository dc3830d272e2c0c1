-- ===== src/Reassembly/Stream.antt =====
-- Any sequence of datagrams, one after the other.
use mini_corundum.Base.{
  ℕ, ap, ◌>>=◌, ◌∙◌, ◌+◌, ◌≤◌, ◌<◌, ◌≡◌, ◌≢◌, refl, ⊤, true, none, some, List, [], ◌∷◌, ◌++◌, ◌||◌,
  map, All, All-map, All-append, ◌⊎◌, length, elem, Option-cases, inl, inr, arith, Returns, returns,
  Returns-bind, Returns-map,
}
use mini_corundum.Dict.{Dict, lookup}
use mini_corundum.Host.State.{LudpDataPacket, PendingCmd, LudpHost}
use mini_corundum.Host.Receive.{
  count_received, track_highest, recv_datagram, Received, datagram, recv_loop,
}
use mini_corundum.Reassembly.Trace.{feed, Delivers, Delivers-trans, SameSetup}
use mini_corundum.Reassembly.Wire.{
  data_packet, answer_id, answer_id-data, answered, answer_all, take_data, recv_datagram-data,
  recv_datagram-other,
}
use mini_corundum.Reassembly.Accept.{IsConsistent, seen, accept_lem}

-- the DATA packets among the datagrams
unfoldable pub data_packets : List (List ℕ) → List LudpDataPacket
data_packets [] = []
data_packets (bytes ∷ rest) = elim (data_packet bytes) [
  | none ↦ data_packets rest
  | some p ↦ p ∷ data_packets rest
]

pub data_packets-skip :
    (bytes : List ℕ) (ds : List (List ℕ))
    → data_packet bytes ≡ none
    → data_packets (bytes ∷ ds) ≡ data_packets ds
unfolding data_packets
data_packets-skip bytes ds e = ground arith

pub data_packets-take :
    (bytes : List ℕ) (ds : List (List ℕ)) (p : LudpDataPacket)
    → data_packet bytes ≡ some p
    → data_packets (bytes ∷ ds) ≡ p ∷ data_packets ds
unfolding data_packets
data_packets-take bytes ds p e = ground arith

abbrev pub seq_nums : List LudpDataPacket → List ℕ
seq_nums = map LudpDataPacket.seq_num

abbrev pub Among : LudpDataPacket → List LudpDataPacket → Type 0
Among q [] = ⊥
Among q (p ∷ ps) = (q ≡ p) ⊎ Among q ps

module _ {App : Type 0} where
  -- Between `h` and `h'` the packets `log` came in, and `ps` were handed over.
  pub record StreamedBy (log ps : List LudpDataPacket) (h h' : LudpHost App) : Type 0 where
    pub delivers : Delivers ps h h'
    pub same : SameSetup h h'
    pub consistent : IsConsistent h'
    pub seen_next : (s : ℕ) → seen h' s ≡ (elem s (seq_nums log) || seen h s)
    pub origin : All (λ q. Among q log ⊎ (lookup q.seq_num h.out_of_order ≡ some q)) ps
    pub kept :
        (s : ℕ) (q : LudpDataPacket)
        → lookup s h'.out_of_order ≡ some q
        → Among q log ⊎ (lookup s h.out_of_order ≡ some q)
    pub size :
        h'.expected_seq + length h'.ooo_heap ≤ h.expected_seq + length h.ooo_heap + length log
    pub received : h'.stats.packets_received ≡ h.stats.packets_received + length log
    pub grows : h.abs_credit ≤ h'.abs_credit

  -- The packet `p` came in, and no command was answered.
  abbrev pub Taken : LudpDataPacket → LudpHost App → ⊤ → LudpHost App → Type 0
  Taken p h _ h' =
      (ps : List LudpDataPacket) × StreamedBy (p ∷ []) ps h h' × (h'.pending_cmds ≡ h.pending_cmds)

  -- Between `h` and `h'` the datagrams `ds` were read, with the DATA packets `log` among them.
  abbrev pub Read : List LudpDataPacket → List (List ℕ) → LudpHost App → ⊤ → LudpHost App → Type 0
  Read log ds h _ h' =
      (ps : List LudpDataPacket) × StreamedBy log ps h h'
      × (h'.pending_cmds ≡ answer_all ds h.pending_cmds)

  pub one_packet :
      (size : ℕ) (p : LudpDataPacket) (h : LudpHost App)
      → IsConsistent h
      → h.credit_interval ≢ 0
      → h.expected_seq + length h.ooo_heap + 1 + h.window_size < 4294967296
      → Returns (Taken p h) (take_data size p h)
  unfolding count_received track_highest
  one_packet size p h c nz fits =
      Returns-map
        (accept_lem p _
          (record {
            above = c.above;
            indexed = c.indexed;
            granted = c.granted;
            accounts = c.accounts;
            quiet = c.quiet;
          })
          nz fits)
        λ _ h' (ps, a). (
          ps,
          record {
            delivers = record {
              fed = a.delivers.fed;
              in_order = a.delivers.in_order;
              next = a.delivers.next;
              counted = a.delivers.counted;
            };
            same = record {
              window = a.setup.window;
              interval = a.setup.interval;
              poll = a.setup.poll;
              callback = a.setup.callback;
              running = a.setup.running;
              ids = a.setup.ids;
              nacks = a.setup.nacks;
            };
            consistent = a.consistent;
            seen_next = λ s. ground (arith, a.seen_next s);
            origin = All-map (λ q o. ground arith) ps a.origin;
            kept = λ s q e. ground (arith, a.kept s q e);
            size = a.size;
            received = a.received;
            grows = a.grows;
          },
          a.cmds,
        )

  Streamed-cons :
      (p : LudpDataPacket) (log ps qs : List LudpDataPacket) (h h' h'' : LudpHost App)
      → StreamedBy (p ∷ []) ps h h'
      → StreamedBy log qs h' h''
      → StreamedBy (p ∷ log) (ps ++ qs) h h''
  Streamed-cons p log ps qs h h' h'' a b = record {
    delivers = Delivers-trans ps qs h h' h'' a.same.callback a.delivers b.delivers;
    same = ground arith;
    consistent = b.consistent;
    seen_next = λ s. ground (arith, a.seen_next s, b.seen_next s);
    origin =
        All-append _ ps qs (All-map (λ q o. ground arith) ps a.origin)
          (All-map (λ q o. ground (arith, a.kept q.seq_num q)) qs b.origin);
    kept = λ s q e. ground (arith, b.kept s q e, a.kept s q);
    size = omega (arith, a.size, b.size);
    received = omega (arith, a.received, b.received);
    grows = omega arith;
  }

  -- what no packet changes
  pub other_datagram :
      (d : Dict PendingCmd) (log ps : List LudpDataPacket) (h h' : LudpHost App)
      → StreamedBy log ps (record h { pending_cmds = d }) h'
      → StreamedBy log ps h h'
  other_datagram d log ps h h' a = record {
    delivers = record {
      fed = a.delivers.fed;
      in_order = a.delivers.in_order;
      next = a.delivers.next;
      counted = a.delivers.counted;
    };
    same = record {
      window = a.same.window;
      interval = a.same.interval;
      poll = a.same.poll;
      callback = a.same.callback;
      running = a.same.running;
      ids = a.same.ids;
      nacks = a.same.nacks;
    };
    consistent = a.consistent;
    seen_next = a.seen_next;
    origin = a.origin;
    kept = a.kept;
    size = a.size;
    received = a.received;
    grows = a.grows;
  }

  pub nothing_read : (h : LudpHost App) → IsConsistent h → StreamedBy [] [] h h
  unfolding feed
  nothing_read h c = record {
    delivers = ground arith;
    same = ground arith;
    consistent = c;
    seen_next = λ s. refl;
    origin = tt;
    kept = λ s q e. inr e;
    size = omega arith;
    received = omega arith;
    grows = omega arith;
  }

  pub recv_loop-next :
      (bytes : List ℕ) (rs : List Received) (h : LudpHost App)
      → h.running ≡ true
      → recv_loop (datagram bytes ∷ rs) h ≡ (recv_datagram bytes >>= λ _. recv_loop rs) h
  unfolding recv_loop
  recv_loop-next bytes rs h on = simp on

  -- From a consistent host that runs, with a credit interval other than 0 and room below 2^32, the
  -- receive loop raises nothing on any datagrams and leaves a consistent host. What has been seen
  -- grows by exactly the numbers of the DATA packets that came in; what is handed over continues
  -- the sequence, and came in or was stored before; the credit does not fall; and the pending
  -- commands are those after the answers that came in.
  pub recv_loop_lem :
      (ds : List (List ℕ)) (h : LudpHost App)
      → IsConsistent h
      → h.running ≡ true
      → h.credit_interval ≢ 0
      → h.expected_seq + length h.ooo_heap + length (data_packets ds) + h.window_size < 4294967296
      → Returns (Read (data_packets ds) ds h) (recv_loop (map datagram ds) h)
  unfolding recv_loop data_packets answer_all
  recv_loop_lem [] h c on nz fits = returns ([], nothing_read h c, refl)
  recv_loop_lem (bytes ∷ ds) h c on nz fits = elim (Option-cases (data_packet bytes)) [
    | inl other ↦
        rw
          (
            recv_loop-next bytes (map datagram ds) h on,
            recv_datagram-other bytes h other,
            ◌>>=◌,
            data_packets-skip bytes ds other,
          )
          (Returns-map
            (recv_loop_lem ds
              (record h { pending_cmds = answered (answer_id bytes) bytes h.pending_cmds })
              (record {
                above = c.above;
                indexed = c.indexed;
                granted = c.granted;
                accounts = c.accounts;
                quiet = c.quiet;
              })
              on nz (omega (arith, ap length (data_packets-skip bytes ds other))))
            λ _ h' (ps, a, e). (ps, other_datagram _ (data_packets ds) ps h h' a, e))
    | inr (p, e) ↦
        rw (recv_loop-next bytes (map datagram ds) h on, data_packets-take bytes ds p e)
          (Returns-bind {P = Taken p h} (recv_datagram bytes) (λ _. recv_loop (map datagram ds))
            (rw (recv_datagram-data bytes p h e) (
              one_packet (length bytes) p h c nz
                (omega (arith, ap length (data_packets-take bytes ds p e)))))
            λ _ h' (ps, a, k).
              Returns-map
                (recv_loop_lem ds h' a.consistent (a.same.running ∙ on) (rw (a.same.interval) nz) (
                  omega (arith, ap length (data_packets-take bytes ds p e), a.size, a.same.window)))
                λ _ h'' (qs, b, l). (
                  ps ++ qs,
                  Streamed-cons p (data_packets ds) ps qs h h' h'' a b,
                  l ∙ rw (answer_id-data bytes p e, k),
                ))
  ]
