-- ===== src/Threads/Ready.antt =====
-- When the threads of a host can go on, and that those of a new one can.
use mini_corundum.Base.{
  ℕ, ◌+◌, ◌≤◌, ◌<◌, ◌≡◌, ◌≢◌, ◌∙◌, refl, inl, inr, List, [], All, All-map, arith,
}
use mini_corundum.Host.State.{LudpDataPacket, LudpHost}
use mini_corundum.Reassembly.Accept.{IsConsistent}
use mini_corundum.Reassembly.Stream.{Among}
use mini_corundum.Threads.Room.{HasRoom}
use mini_corundum.Threads.Ran.{RanBy}

module _ {App : Type 0} where
  -- The host can go on.
  pub record IsReady (window calls : ℕ) (h : LudpHost App) : Type 0 where
    pub consistent : IsConsistent h
    pub room : HasRoom h
    pub interval : h.credit_interval ≢ 0
    pub window_kept : h.window_size ≡ window
    pub ids : h.next_cmd_id + calls < 4294967296

  pub RanBy-IsReady :
      (window calls more total : ℕ) (log ps : List LudpDataPacket) (h h' : LudpHost App)
      → calls + more ≤ total
      → IsReady window total h
      → RanBy log calls ps h h'
      → IsReady window more h'
  RanBy-IsReady window calls more total log ps h h' le r a = record {
    consistent = a.consistent;
    room = a.room;
    interval = rw (a.interval) (r.interval);
    window_kept = a.window ∙ r.window_kept;
    ids = omega (arith, r.ids, a.ids);
  }

  -- a host right after `start`, or after `reset_state`
  pub record IsNew (h : LudpHost App) : Type 0 where
    pub first : h.expected_seq ≡ 0
    pub heap : h.ooo_heap ≡ []
    pub buffer : h.out_of_order ≡ []
    pub grant : h.abs_credit ≡ h.window_size
    pub accounts : h.stats.packets_out_of_order ≡ h.stats.packets_processed + h.stats.gap_count
    pub quiet : h.stats.nacks_sent ≡ 0

  pub IsNew-IsReady :
      (window calls : ℕ) (h : LudpHost App)
      → IsNew h
      → h.window_size ≡ window
      → window + 1 < 4294967296
      → h.credit_interval ≢ 0
      → h.next_cmd_id + calls < 4294967296
      → IsReady window calls h
  IsNew-IsReady window calls h n w fits nz ids = record {
    consistent = record {
      above = rw (n.heap) tt;
      indexed = rw (n.heap, n.buffer) (record { keys = λ s. refl; seqs = λ s p e. ground arith });
      granted = omega (arith, n.grant, n.first);
      accounts = omega (arith, n.first, n.accounts);
      quiet = n.quiet;
    };
    room = record {
      now = omega (arith, n.first, w);
      stored = λ s q l. absurd (ground (arith, rw (n.buffer) at l));
    };
    interval = nz;
    window_kept = w;
    ids = ids;
  }

  -- From an empty buffer on, what is handed over has come in.
  pub from_empty :
      (log : List LudpDataPacket) (calls : ℕ) (ps : List LudpDataPacket) (h h' : LudpHost App)
      → h.out_of_order ≡ []
      → RanBy log calls ps h h'
      → All (λ q. Among q log) ps
  from_empty log calls ps h h' e a =
      All-map (λ q o. elim o [ inl new ↦ new | inr old ↦ absurd (ground (arith, rw e at old)) ]) ps
        a.origin
