-- ===== src/Race/Overtaken.antt =====
-- The gap is skipped while the missing packet is on its way through the receive thread.
use mini_corundum.Base.{
  ℕ, ◌+◌, ◌≤◌, ◌<◌, ◌≡◌, refl, ⊤, Bool, true, false, List, [], ◌∷◌, index_error, arith, ltb,
  if◌then◌else◌, ok,
}
use mini_corundum.Host.State.{LudpDataPacket}
use mini_corundum.Host.Receive.{accept}
use mini_corundum.Host.Poll.{PollLocals}
use mini_corundum.Race.Machine.{within, Next, at, left, broken, Reaches-within, stay, go}
use mini_corundum.Race.System.{poller_steps, arrives, wakes, Race, at_rest, turn}
use mini_corundum.Race.Receiver.{Handling, hand_over, drop_old, drain_ready, step_handling}
use mini_corundum.Race.Poller
use mini_corundum.Race.Poller.{Polling, advance, skip_drain, skip_grant, count_skip, step_polling}
use mini_corundum.Race.Loops.{
  renew, any_stale, any_ready, handing, processed_up, pop_ready, Handing, Draining, Dropping,
  step_handing, step_draining, step_dropping,
}
use mini_corundum.Race.KeptSections.{Recorder}
use mini_corundum.Race.Chances.{Possible, now_so, turned, receiver_runs, poller_runs}
use mini_corundum.Race.Skipping.{
  waits_for, stalled_since, counted, emptied, jumped, about_to_pop, all_stale, given, handed,
  found_gap, skipped_gap, taken_up,
}

-- the locals of a polling thread behind the first test of its round
abbrev noted : Bool → ℕ → PollLocals → PollLocals
noted some_data now loc = if some_data then record loc { last_data_time = now } else loc

noted-seq :
    (b : Bool) (now : ℕ) (loc : PollLocals)
    → (noted b now loc).last_expected_seq ≡ loc.last_expected_seq
noted-seq true now loc = refl
noted-seq false now loc = refl

noted-stall :
    (b : Bool) (now : ℕ) (loc : PollLocals)
    → (noted b now loc).gap_stall_start ≡ loc.gap_stall_start
noted-stall true now loc = refl
noted-stall false now loc = refl

late_is_old :
    (n : ℕ) (h : Recorder)
    → h.expected_seq ≡ n + 2
    → (late : LudpDataPacket) → late.seq_num ≡ n + 1
    → accept late h ≡ ok tt h
unfolding accept
late_is_old n h e late l = ground (arith)

-- how the sections stand in the code around them
polled :
    (now : ℕ) (loc : PollLocals) (d : Draining) (s : Recorder)
    → step_polling now (skip_drain d, loc) s
      ≡ within (λ d. (skip_drain d, loc)) (λ _. at (skip_grant renew, loc)) (step_draining d s)
unfolding step_polling
polled now loc d s = refl

drained :
    (d : Handing) (s : Recorder)
    → step_draining (handing d) s ≡ within handing (λ _. at any_ready) (step_handing d s)
unfolding step_draining
drained d s = refl

handled :
    (d : Handing) (s : Recorder)
    → step_handling (hand_over d) s
      ≡ within hand_over (λ _. at (drop_old any_stale)) (step_handing d s)
unfolding step_handling
handled d s = refl

dropped :
    (d : Dropping) (s : Recorder)
    → step_handling (drop_old d) s
      ≡ within drop_old (λ _. at (drain_ready any_ready)) (step_dropping d s)
unfolding step_handling
dropped d s = refl

module _ (size now seen since : ℕ) (p q : LudpDataPacket) (h : Recorder)
    (ahead : p.seq_num < q.seq_num) (due : since + 5000 < now)
    (granted : p.seq_num + h.window_size ≤ h.abs_credit) where
  abbrev locals : PollLocals
  locals = noted (ltb 0 h.stats.packets_received) now (stalled_since seen since p)

  abbrev racing :
      Next Handling ⊤
      → Next (Polling × PollLocals) PollLocals
      → Recorder
      → Race (List LudpDataPacket)
  racing n m g = record { receiver = n; poller = m; now = now; shared = g }

  -- Before either thread has handed over: the poller is about to count the gap, and the receiver to
  -- hand over `p`.
  contended :
      (P : Race (List LudpDataPacket) → Type 0)
      → Possible P (
          racing
            (at (hand_over (processed_up p)))
            (at (count_skip q.seq_num, locals))
            (waits_for p q (counted size p h)))
      → Possible P (at_rest (stalled_since seen since p) (waits_for p q h))
  unfolding turn step_polling
  contended P k = turned (wakes now) (
      poller_runs r {c = (at (Poller.note_data, stalled_since seen since p), waits_for p q h)}
        (go stay)
        (poller_runs r
          (found_gap now since p q locals ahead h granted
            (noted-seq (ltb 0 h.stats.packets_received) now (stalled_since seen since p))
            (noted-stall (ltb 0 h.stats.packets_received) now (stalled_since seen since p)) due)
          (turned (arrives size p)
            (receiver_runs r' (taken_up now since p q locals ahead size h) k))))
    where
      r : Race (List LudpDataPacket)
      r = racing (left tt) (left locals) (waits_for p q h)

      r' : Race (List LudpDataPacket)
      r' = racing (left tt) (at (count_skip q.seq_num, locals)) (waits_for p q h)

  -- A host waits for the packet `p`, only the later packet `q` is stored, the gap has stalled for
  -- more than 5 ms and the credit needs no update. If `p` comes in now, some order of the steps of
  -- the two threads hands over `q` and then `p`, and leaves the host so that it drops the packet
  -- behind `q` as an old one.
  pub overtaken :
      Possible
        (λ r.
          (r.shared.app ≡ p ∷ q ∷ h.app)
          × ((late : LudpDataPacket)
              → late.seq_num ≡ q.seq_num + 1
              → accept late r.shared ≡ ok tt r.shared))
        (at_rest (stalled_since seen since p) (waits_for p q h))
  overtaken = contended _ (
      poller_runs start (skipped_gap now since p q locals ahead (counted size p h)) (
        poller_runs start
          (Reaches-within {n = step_polling now} (λ d. (skip_drain d, locals))
            (λ _. at (skip_grant renew, locals)) (polled now locals)
            (Reaches-within {n = step_draining} handing (λ _. at any_ready) drained
              (handed q _ refl)))
          (receiver_runs both
            (Reaches-within {n = step_handling} hand_over (λ _. at (drop_old any_stale)) handled
              (handed p _ refl))
            (now_so (refl, late_is_old q.seq_num _ (omega arith))))))
    where
      start : Race (List LudpDataPacket)
      start =
          racing (at (hand_over (processed_up p))) (at (count_skip q.seq_num, locals))
            (waits_for p q (counted size p h))

      both : Race (List LudpDataPacket)
      both =
          racing (at (hand_over (processed_up p))) (at (skip_drain any_ready, locals))
            (given q (emptied q (waits_for p q (counted size p h))))

  -- A host waits for the packet `p`, only the later packet `q` is stored, the gap has stalled for
  -- more than 5 ms and the credit needs no update. If `p` comes in now, some order of the steps of
  -- the two threads ends the polling thread with an IndexError; `p` alone is handed over, and `q`
  -- is left in the dict with no entry in the heap.
  pub poller_breaks :
      Possible
        (λ r.
          (r.poller ≡ broken index_error)
          × (r.shared.app ≡ p ∷ h.app)
          × (r.shared.out_of_order ≡ (q.seq_num, q) ∷ [])
          × (r.shared.ooo_heap ≡ []))
        (at_rest (stalled_since seen since p) (waits_for p q h))
  unfolding turn step_polling step_draining
  poller_breaks = contended _ (
      poller_runs start (about_to_pop now p q locals (counted size p h)) (
        receiver_runs both
          (Reaches-within {n = step_handling} hand_over (λ _. at (drop_old any_stale)) handled
            (handed p _ refl))
          (receiver_runs both
            (Reaches-within {n = step_handling} drop_old (λ _. at (drain_ready any_ready)) dropped
              (all_stale q (given p (jumped q (waits_for p q (counted size p h)))) refl refl))
            (turned poller_steps (now_so (refl, refl, refl, refl))))))
    where
      start : Race (List LudpDataPacket)
      start =
          racing (at (hand_over (processed_up p))) (at (count_skip q.seq_num, locals))
            (waits_for p q (counted size p h))

      both : Race (List LudpDataPacket)
      both =
          racing (at (hand_over (processed_up p))) (at (skip_drain pop_ready, locals))
            (jumped q (waits_for p q (counted size p h)))
