-- ===== src/Reassembly/Complete.antt =====
-- A run of the receive thread from a fresh host: what the application gets, against the packets
-- that came in.
use mini_corundum.Base.{
  ℕ, ap, suc, ◌+◌, ◌<◌, ◌≡◌, ◌≢◌, refl, true, false, Option, List, [], map, All, All-map, length,
  elem, arith, Returns, returns, Returns-map,
}
use mini_corundum.Host.State.{LudpDataPacket, LudpHost, new_host, start, reset_state, initial_stats}
use mini_corundum.Host.Receive.{datagram, recv_loop}
use mini_corundum.Reassembly.Heap.{elem-below}
use mini_corundum.Reassembly.Trace.{Consecutive, feed}
use mini_corundum.Reassembly.Accept.{IsConsistent}
use mini_corundum.Reassembly.Stream.{data_packets, seq_nums, Among, recv_loop_lem}

module _ {App : Type 0} where
  -- a host on which no packet has come in since its state was set
  pub record IsFresh (h : LudpHost App) : Type 0 where
    pub first : h.expected_seq ≡ 0
    pub empty_heap : h.ooo_heap ≡ []
    pub empty_buffer : h.out_of_order ≡ []
    pub window : h.abs_credit ≡ h.window_size
    pub counters : h.stats ≡ record initial_stats { start_time = h.stats.start_time }

  pub IsFresh-IsConsistent : (h : LudpHost App) → IsFresh h → IsConsistent h
  IsFresh-IsConsistent h f = record {
    above = rw (f.empty_heap) tt;
    indexed =
        rw (f.empty_heap, f.empty_buffer)
          (record { keys = λ s. refl; seqs = λ s p e. ground arith });
    granted = omega (arith, f.window, f.first);
    accounts = ground arith;
    quiet = ground arith;
  }

  -- A new host that is started is fresh, and its threads run.
  pub start-IsFresh :
      (window interval poll_us now : ℕ) (callback : Option (LudpDataPacket → App → App)) (app : App)
      → Returns
          (λ _ h. IsFresh h × (h.running ≡ true))
          (start now (new_host window interval poll_us callback app))
  unfolding start new_host
  start-IsFresh window interval poll_us now callback app = returns (ground arith, refl)

  -- `reset_state` raises nothing and leaves a fresh host with no pending command; its window, its
  -- callback, its threads, its application and the packets it has sent are as they were.
  pub reset_state-IsFresh :
      (h : LudpHost App)
      → Returns
          (λ _ h'.
            IsFresh h'
            × (h'.window_size ≡ h.window_size)
            × (h'.on_data ≡ h.on_data)
            × (h'.running ≡ h.running)
            × (h'.app ≡ h.app)
            × (h'.sent ≡ h.sent)
            × (h'.pending_cmds ≡ []))
          (reset_state h)
  unfolding reset_state
  reset_state-IsFresh h = returns (ground arith, refl, refl, refl, refl, refl, refl)

  -- The application got `ps`: the packets 0, 1, 2, ... that came in, up to the first that did not.
  pub record Reassembled (ds : List (List ℕ)) (ps : List LudpDataPacket) (h h' : LudpHost App)
      : Type 0 where
    pub fed : h'.app ≡ feed h.on_data ps h.app
    pub in_order : Consecutive 0 ps
    pub all_came : All (λ p. Among p (data_packets ds)) ps
    pub expected : h'.expected_seq ≡ length ps
    pub came_before : (s : ℕ) → s < length ps → elem s (seq_nums (data_packets ds)) ≡ true
    pub first_missing : elem (length ps) (seq_nums (data_packets ds)) ≡ false
    pub processed : h'.stats.packets_processed ≡ length ps
    pub received : h'.stats.packets_received ≡ length (data_packets ds)

  -- From a fresh host whose threads run, with a credit interval other than 0 and fewer than 2^32
  -- for packets and window together, whatever datagrams come in and in whatever order: the receive
  -- loop raises nothing, and the application has got, in order and once each, packets that came in
  -- with the numbers 0, 1, 2, ... up to the first number that has not come. `expected_seq` and the
  -- counters of packets received and processed agree with that.
  pub recv_loop_reassembles :
      (ds : List (List ℕ)) (h : LudpHost App)
      → IsFresh h
      → h.running ≡ true
      → h.credit_interval ≢ 0
      → length (data_packets ds) + h.window_size < 4294967296
      → Returns
          (λ _ h'. (ps : List LudpDataPacket) × Reassembled ds ps h h')
          (recv_loop (map datagram ds) h)
  recv_loop_reassembles ds h f on nz fits =
      Returns-map
        (recv_loop_lem ds h (IsFresh-IsConsistent h f) on nz
          (omega (arith, f.first, ap length f.empty_heap)))
        λ _ h' (ps, a, _). (
          ps,
          record {
            fed = a.delivers.fed;
            in_order = rw (f.first) at (a.delivers.in_order);
            all_came = All-map (λ p o. ground (arith, f.empty_buffer)) ps a.origin;
            expected = omega (arith, a.delivers.next, f.first);
            came_before =
                λ s lt. ground (arith, a.seen_next s, f.first, f.empty_buffer, a.delivers.next);
            first_missing = ground (
              arith,
              a.seen_next (length ps),
              a.consistent.indexed.keys (length ps),
              elem-below (suc h'.expected_seq) (length ps) h'.ooo_heap a.consistent.above,
              f.first,
              f.empty_buffer,
              a.delivers.next,
            );
            processed = ground (arith, f.counters, a.delivers.counted);
            received = ground (arith, f.counters, a.received);
          },
        )
