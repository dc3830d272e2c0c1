-- ===== src/Race/Skipping.antt =====
-- The skip of a gap, and the hand-over of the missing packet, as steps of the threads.
use mini_corundum.Base.{
  ℕ, ◌+◌, ◌-◌, ◌≤◌, ◌<◌, ◌≡◌, refl, true, some, [], ◌∷◌, arith, ltb, ==_self, le→ltb, lt→ltb,
  if◌then◌else◌,
}
use mini_corundum.Dict.{erase}
use mini_corundum.Host.State.{LudpDataPacket, is_retransmit}
use mini_corundum.Host.Poll.{PollLocals}
use mini_corundum.Race.Machine.{at, left, Reaches, Reaches-trans, Reaches-within, stay, go}
use mini_corundum.Race.Receiver.{count_in, hand_over, step_handling}
use mini_corundum.Race.Poller.{
  advance, has_moved, skip_old, skip_any, skip_drain, skip_grant, count_skip, step_polling,
}
use mini_corundum.Race.Loops.{
  load_credit, renew, any_stale, any_ready, pop_ready, handing, processed_up, step_handing,
  step_dropping, step_draining, step_granting,
}
use mini_corundum.Race.Copies.{recorded}
use mini_corundum.Race.KeptSections.{Recorder}

-- The host waits for the packet `p`, and the only stored one is `q`.
abbrev pub waits_for : LudpDataPacket → LudpDataPacket → Recorder → Recorder
waits_for p q h = record h {
  running = true;
  on_data = some recorded;
  expected_seq = p.seq_num;
  ooo_heap = q.seq_num ∷ [];
  out_of_order = (q.seq_num, q) ∷ [];
}

-- the locals of a polling thread that has seen the gap at `since`
abbrev pub stalled_since : ℕ → ℕ → LudpDataPacket → PollLocals
stalled_since seen since p = record {
  last_data_time = seen;
  last_expected_seq = p.seq_num;
  gap_stall_start = some since;
}

-- the host with a packet counted
abbrev pub counted : ℕ → LudpDataPacket → Recorder → Recorder
counted size p h = record h {
  stats = record (h.stats) {
    packets_received = h.stats.packets_received + 1;
    bytes_received = h.stats.bytes_received + size;
    last_seq = some p.seq_num;
    packets_retransmitted =
        if is_retransmit p
        then h.stats.packets_retransmitted + 1
        else h.stats.packets_retransmitted;
  };
  highest_seq = if ltb h.highest_seq p.seq_num then p.seq_num else h.highest_seq;
}

-- the host with the gap counted and skipped, and the stored packet `q` taken out
abbrev pub emptied : LudpDataPacket → Recorder → Recorder
emptied q h = record h {
  stats = record (h.stats) { gap_count = h.stats.gap_count + q.seq_num - h.expected_seq };
  expected_seq = q.seq_num;
  ooo_heap = [];
  out_of_order = [];
}

-- the host with the gap counted and skipped
abbrev pub jumped : LudpDataPacket → Recorder → Recorder
jumped q h = record h {
  stats = record (h.stats) { gap_count = h.stats.gap_count + q.seq_num - h.expected_seq };
  expected_seq = q.seq_num;
}

-- the host with a packet handed over
abbrev pub given : LudpDataPacket → Recorder → Recorder
given p h = record h {
  stats = record (h.stats) { packets_processed = h.stats.packets_processed + 1 };
  app = p ∷ h.app;
  expected_seq = h.expected_seq + 1;
}

pub handed :
    (p : LudpDataPacket) (h : Recorder)
    → h.on_data ≡ some recorded
    → Reaches step_handing (at (processed_up p), h) (left tt, given p h)
unfolding step_handing
handed p h e = go (go (rw e (go (go stay))))

module _ (now since : ℕ) (p q : LudpDataPacket) (loc : PollLocals)
    (ahead : p.seq_num < q.seq_num) where
  -- The polling thread comes to the skip.
  pub found_gap :
      (h : Recorder)
      → p.seq_num + h.window_size ≤ h.abs_credit
      → loc.last_expected_seq ≡ p.seq_num
      → loc.gap_stall_start ≡ some since
      → since + 5000 < now
      → Reaches
          (step_polling now)
          (at (advance load_credit, loc), waits_for p q h)
          (at (count_skip q.seq_num, loc), waits_for p q h)
  unfolding step_polling step_dropping step_granting
  found_gap h granted e s due =
      Reaches-trans credit (Reaches-trans stalled (Reaches-trans dropped (go (go stay))))
    where
      credit :
          Reaches
            (step_polling now)
            (at (advance load_credit, loc), waits_for p q h)
            (at (has_moved, loc), waits_for p q h)
      credit = go (go (rw (le→ltb h.abs_credit (p.seq_num + h.window_size) granted) stay))

      stalled :
          Reaches
            (step_polling now)
            (at (has_moved, loc), waits_for p q h)
            (at (skip_old any_stale, loc), waits_for p q h)
      stalled =
          go (rw (e, ==_self p.seq_num) (go (rw (s, lt→ltb 5000 (now - since) (omega arith)) stay)))

      dropped :
          Reaches
            (step_polling now)
            (at (skip_old any_stale, loc), waits_for p q h)
            (at (skip_any, loc), waits_for p q h)
      dropped = go (go (go (rw (le→ltb q.seq_num p.seq_num (omega arith)) stay)))

  pub skipped_gap :
      (h : Recorder)
      → Reaches
          (step_polling now)
          (at (count_skip q.seq_num, loc), waits_for p q h)
          (at (skip_drain (handing (processed_up q)), loc), emptied q (waits_for p q h))
  unfolding step_polling step_draining erase
  skipped_gap h = Reaches-trans skip (
      Reaches-within {n = step_polling now} (λ r. (skip_drain r, loc))
        (λ _. at (skip_grant renew, loc)) (λ p s. refl) took_only)
    where
      at_place : Recorder
      at_place = record (emptied q (waits_for p q h)) {
        ooo_heap = q.seq_num ∷ [];
        out_of_order = (q.seq_num, q) ∷ [];
      }

      skip :
          Reaches
            (step_polling now)
            (at (count_skip q.seq_num, loc), waits_for p q h)
            (at (skip_drain any_ready, loc), at_place)
      skip = go (go stay)

      took_only :
          Reaches step_draining
            (at any_ready, at_place)
            (at (handing (processed_up q)), emptied q (waits_for p q h))
      took_only = go (
          go (
            go (
              rw (==_self q.seq_num)
                (go (go (rw (==_self q.seq_num) (rw (==_self q.seq_num) stay)))))))

  pub taken_up :
      (size : ℕ) (h : Recorder)
      → Reaches step_handling
          (at (count_in size p), waits_for p q h)
          (at (hand_over (processed_up p)), waits_for p q (counted size p h))
  unfolding step_handling
  taken_up size h = go (go (go (rw (==_self p.seq_num) stay)))

-- The polling thread is about to take the entry of `q` off the heap.
pub about_to_pop :
    (now : ℕ) (p q : LudpDataPacket) (loc : PollLocals) (h : Recorder)
    → Reaches
        (step_polling now)
        (at (count_skip q.seq_num, loc), waits_for p q h)
        (at (skip_drain pop_ready, loc), jumped q (waits_for p q h))
unfolding step_polling step_draining
about_to_pop now p q loc h = go (go (go (go (go (rw (==_self q.seq_num) stay)))))

-- The receive thread takes the entry of `q` off the heap when `expected_seq` has passed it.
pub all_stale :
    (q : LudpDataPacket) (h : Recorder)
    → h.ooo_heap ≡ q.seq_num ∷ []
    → h.expected_seq ≡ q.seq_num + 1
    → Reaches step_dropping (at any_stale, h) (left tt, record h { ooo_heap = [] })
unfolding step_dropping
all_stale q h e s =
    go (rw e (go (go (rw (lt→ltb q.seq_num h.expected_seq (omega (arith, s))) (go (go stay))))))
