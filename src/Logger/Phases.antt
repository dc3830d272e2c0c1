-- ===== src/Logger/Phases.antt =====
-- The phases of a session of the data logger, each as a part of a run.
use mini_corundum.Threads.Ready.{IsReady, RanBy-IsReady}
use mini_corundum.Base.{
  ℕ, ◌+◌, ◌≡◌, refl, false, List, [], ◌++◌, ap, map, All, length, arith, ◌>>=◌, Returns, returns,
  Returns-bind, ⊤,
}
use mini_corundum.Host.State.{LudpDataPacket, LudpHost, clear_running, get_stats}
use mini_corundum.Host.Packets.{cmd_stop}
use mini_corundum.Host.Poll.{PollLocals}
use mini_corundum.Host.Receive.{datagram}
use mini_corundum.Host.Commands.{send_stop}
use mini_corundum.Reassembly.Accept.{IsConsistent}
use mini_corundum.Reassembly.Credit.{send_credit_lem, credited}
use mini_corundum.Threads.{received, run}
use mini_corundum.Threads.Room.{HasRoom}
use mini_corundum.Threads.Ran.{came, RanBy, RanBy-trans, RanBy-weaken}
use mini_corundum.Threads.Moves.{touched-RanBy}
use mini_corundum.Threads.Steps.{EventFits}
use mini_corundum.Threads.Safety.{Ran, run_lem}
use mini_corundum.Threads.Serving.{rounds_log, rounds_calls, Handed, send_cmd_wait_ack-Handed}
use mini_corundum.Logger.{Logger, flush}
use mini_corundum.Logger.Session.{event, Surroundings, close, acquire}

-- the host with the flag of its threads cleared
abbrev pub stopped_host : LudpHost Logger → LudpHost Logger
stopped_host h = record h { running = false }

-- the host with its buffer written
abbrev pub flushed : LudpHost Logger → LudpHost Logger
flushed h = record h { app = flush h.app }

module _ (s : Surroundings) where
  -- what the threads do last
  abbrev pub Closed : LudpHost Logger → ⊤ → LudpHost Logger → Type 0
  Closed h _ h' =
      (mid : LudpHost Logger) × (ps : List LudpDataPacket) × RanBy (came (map event s.late))
        (length (map event s.late)) ps h mid
      × (h' ≡ stopped_host mid)

  pub close_lem :
      (window : ℕ) (loc : PollLocals) (h : LudpHost Logger)
      → IsReady window (length (map event s.late)) h
      → All (EventFits window) (map event s.late)
      → Returns (Closed h) (close s loc h)
  unfolding close clear_running
  close_lem window loc h r fits =
      Returns-bind {P = Ran (map event s.late) h} (run (map event s.late) loc) (λ _. clear_running)
        (run_lem (map event s.late) loc h r.consistent r.room r.interval r.ids
          (rw (r.window_kept) fits))
        λ _ mid (ps, a). returns (mid, ps, a, refl)

  -- the packets that can come in after a START that succeeded
  abbrev pub acquired_log : List LudpDataPacket
  acquired_log =
      came (map event s.acquiring) ++ (rounds_log 3 0 s.stopping ++ came (map event s.late))

  abbrev pub acquired_calls : ℕ
  acquired_calls =
      length (map event s.acquiring) + (rounds_calls 3 0 s.stopping + length (map event s.late))

  abbrev pub Acquired : LudpHost Logger → ℕ → LudpHost Logger → Type 0
  Acquired h status h' =
      (mid : LudpHost Logger) × (ps : List LudpDataPacket) × RanBy acquired_log acquired_calls ps h
        mid
      × (h' ≡ flushed (stopped_host mid))
      × (status ≡ 0)

  credited-RanBy :
      (n : ℕ) (h : LudpHost Logger) → IsConsistent h → HasRoom h → RanBy [] 0 [] h (credited n h)
  credited-RanBy n h c r =
      touched-RanBy [] 0 h.next_cmd_id _ h.running h.pending_cmds (h.stats.credits_sent + 1) h
        (omega arith) c r

  pub acquire_lem :
      (window : ℕ) (loc : PollLocals) (h : LudpHost Logger)
      → IsReady window acquired_calls h
      → All (EventFits window) (map event s.acquiring)
      → ((n : ℕ) → All (EventFits window) (map received (s.stopping n)))
      → All (EventFits window) (map event s.late)
      → Returns (Acquired h) (acquire s loc h)
  unfolding acquire send_stop get_stats
  acquire_lem window loc h r acquiring stopping late =
      let h1 = credited h.abs_credit h in
      let a1 = credited-RanBy h.abs_credit h r.consistent r.room in
      let r1 : IsReady window acquired_calls h1 =
        RanBy-IsReady window 0 acquired_calls acquired_calls [] [] h h1 (omega arith) r a1 in
      rw (send_credit_lem h.abs_credit h (omega (arith, r.consistent.granted, r.room.now)), ◌>>=◌)
        (Returns-bind {P = Ran (map event s.acquiring) h1} (run (map event s.acquiring) loc) _
          (run_lem (map event s.acquiring) loc h1 r1.consistent r1.room r1.interval
            (omega (arith, r1.ids)) (rw (r1.window_kept) acquiring))
          λ loc' h2 (ps2, a2).
            let r2 =
              RanBy-IsReady window (length (map event s.acquiring))
                (rounds_calls 3 0 s.stopping + length (map event s.late)) acquired_calls _ ps2 h1 h2
                (omega arith) r1 a2 in
            Returns-bind {P = Handed (rounds_log 3 0 s.stopping) (rounds_calls 3 0 s.stopping) h2}
              (send_stop (λ n. map datagram (s.stopping n))) _
              (send_cmd_wait_ack-Handed cmd_stop 0 0 3 s.stopping h2 (omega arith) (omega arith)
                (omega arith) (omega (arith, r2.ids)) r2.consistent r2.room r2.interval
                (λ n. rw (r2.window_kept) (stopping n)))
              λ _ h3 (ps3, a3).
                let r3 =
                  RanBy-IsReady window (rounds_calls 3 0 s.stopping) (length (map event s.late)) _ _
                    ps3 h2 h3 (omega arith) r2 a3 in
                Returns-bind {P = Closed h3} (close s loc') _ (close_lem window loc' h3 r3 late)
                  λ _ h4 (mid, ps4, a4, e). returns (
                    mid,
                    ps2 ++ (ps3 ++ ps4),
                    RanBy-weaken acquired_log acquired_log (0 + acquired_calls) acquired_calls _ h
                        mid (λ q i. i) (omega arith)
                        (RanBy-trans [] acquired_log 0 acquired_calls [] _ h h1 mid a1 (
                          RanBy-trans _ _ _ _ ps2 _ h1 h2 mid a2
                            (RanBy-trans _ _ _ _ ps3 ps4 h2 h3 mid a3 a4))),
                    ap flushed e,
                    refl,
                  ))
