-- ===== src/Logger/Recorded.antt =====
-- What the output file holds when the data logger has ended.
use mathlib.Core.List.{append-nil}
use mini_corundum.Threads.Serving.{rounds_log, rounds_calls, Handed, send_cmd_wait_ack-Handed}
use mini_corundum.Logger.{Logger, join, opened, on_data}
use mini_corundum.Host.Commands.{send_start}
use mini_corundum.Host.Packets.{cmd_start}
use mini_corundum.Host.Poll.{PollLocals, poll_start}
use mini_corundum.Host.Receive.{datagram}
use mini_corundum.Threads.{received, run}
use mini_corundum.Host.State.{LudpDataPacket, LudpHost, new_host, start, reset_state}
use mini_corundum.Logger.Alive.{run-Alive}
use mini_corundum.Reply.Attempt.{IsServing}
use mini_corundum.Reply.Retry.{any_round, room, send_cmd_wait_ack_lem}
use mini_corundum.Logger.Session.{
  event, Surroundings, close, acquire, give_up, run_logger, logger_host,
}
use mini_corundum.Threads.Ready.{IsReady, RanBy-IsReady, IsNew, IsNew-IsReady, from_empty}
use mini_corundum.Base.{
  ℕ, ◌+◌, ◌<◌, ◌≡◌, ◌≢◌, ◌∙◌, sym, ap, refl, inl, inr, true, false, some, List, [], ◌∷◌, ◌++◌, map,
  All, All-map, length, arith, ◌>>=◌, Returns, returns, Returns-map, Returns-bind, Returns-and,
  Returns-at, Action, ok, ◌>>◌, if◌then◌else◌, ◌==◌, Bool-cases,
}
use mini_corundum.Reassembly.Stream.{Among}
use mini_corundum.Reassembly.Trace.{feed, feed-append}
use mini_corundum.Threads.Ran.{came, Among-append-right, Rising, RanBy, RanBy-nil, RanBy-trans}
use mini_corundum.Threads.Steps.{EventFits}
use mini_corundum.Threads.Safety.{Ran, run_lem}
use mini_corundum.Logger.Output.{payloads, pending, feed-pending, flush-output}
use mini_corundum.Logger.Phases.{
  stopped_host, flushed, Closed, close_lem, acquired_log, acquired_calls, acquire_lem,
}
use mini_corundum.Logger.Fresh.{resetted, resetted-IsNew, started_host}

-- The events stay below the ends of their fields.
pub record IsSized (s : Surroundings) (window : ℕ) : Type 0 where
  pub before : All (EventFits window) (map event s.before)
  pub starting : (n : ℕ) → All (EventFits window) (map received (s.starting n))
  pub acquiring : All (EventFits window) (map event s.acquiring)
  pub stopping : (n : ℕ) → All (EventFits window) (map received (s.stopping n))
  pub late : All (EventFits window) (map event s.late)
  pub window_fits : window + 1 < 4294967296
  pub start_room : room 3 0 s.starting + window < 4294967296
  pub before_ids : 1 + length (map event s.before) < 4294967296
  pub ids : 1 + rounds_calls 3 0 s.starting + acquired_calls s < 4294967296

-- the DATA packets that came in after the reset
abbrev pub session_log : Surroundings → List LudpDataPacket
session_log s = rounds_log 3 0 s.starting ++ acquired_log s

-- What is known at the end, with `before` the host that was reset: `old` are the packets that it
-- counts as processed, and `ps` those that the host in the end counts as processed.
pub record IsRecorded (s : Surroundings) (status : ℕ) (old ps : List LudpDataPacket)
    (before h : LudpHost Logger) : Type 0 where
  pub status_known : status ≡ (if any_round 3 0 1 s.starting then 0 else 1)
  pub written :
      h.app.output ++ (if status == 0 then [] else join h.app.write_buf) ≡ payloads (old ++ ps)
  pub before_reset : All (λ q. Among q (came (map event s.before))) old
  pub after_reset : All (λ q. Among q (session_log s)) ps
  pub old_in_order : Rising 0 before.expected_seq old
  pub in_order : Rising 0 h.expected_seq ps
  pub old_counted : before.stats.packets_processed ≡ length old
  pub counted : h.stats.packets_processed ≡ length ps
  pub cleared : h.running ≡ false

-- more behind the same packets
Among-behind :
    (q : LudpDataPacket) (xs ys zs : List LudpDataPacket)
    → (Among q ys → Among q zs)
    → Among q (xs ++ ys)
    → Among q (xs ++ zs)
Among-behind q [] ys zs f a = f a
Among-behind q (x ∷ xs) ys zs f (inl e) = inl e
Among-behind q (x ∷ xs) ys zs f (inr a) = inr (Among-behind q xs ys zs f a)

-- What has been handed over since the file was opened, before the reset and after it.
handed_over :
    (old ps log : List LudpDataPacket) (calls : ℕ) (h1 h3 : LudpHost Logger)
    → h1.app ≡ feed (some on_data) old opened
    → h1.on_data ≡ some on_data
    → RanBy log calls ps (resetted h1) h3
    → pending h3.app ≡ payloads (old ++ ps)
unfolding join
handed_over old ps log calls h1 h3 first callback a =
    let e : h3.app ≡ feed (some on_data) (old ++ ps) opened =
      rw (a.fed, callback, first) (sym (feed-append (some on_data) old ps opened)) in
    ap pending e ∙ feed-pending (old ++ ps) opened

module _ (s : Surroundings) (old : List LudpDataPacket) (h1 : LudpHost Logger)
    (first : h1.app ≡ feed (some on_data) old opened) (callback : h1.on_data ≡ some on_data)
    (came_in : All (λ q. Among q (came (map event s.before))) old)
    (in_order : Rising 0 h1.expected_seq old)
    (counted : h1.stats.packets_processed ≡ length old) where
  -- a START that failed
  gave_up :
      any_round 3 0 1 s.starting ≡ false
      → (ps log : List LudpDataPacket) (calls : ℕ) (mid : LudpHost Logger)
      → ((q : LudpDataPacket) → Among q log → Among q (session_log s))
      → RanBy log calls ps (resetted h1) mid
      → IsRecorded s 1 old ps h1 (stopped_host mid)
  gave_up unanswered ps log calls mid sub a = record {
    status_known = rw unanswered refl;
    written = handed_over old ps log calls h1 mid first callback a;
    before_reset = came_in;
    after_reset = All-map sub ps (from_empty log calls ps (resetted h1) mid refl a);
    old_in_order = in_order;
    in_order = a.rising;
    old_counted = counted;
    counted = omega (arith, a.counted);
    cleared = refl;
  }

  -- a START that succeeded
  acquired :
      any_round 3 0 1 s.starting ≡ true
      → (ps : List LudpDataPacket) (calls : ℕ) (mid : LudpHost Logger)
      → RanBy (session_log s) calls ps (resetted h1) mid
      → IsRecorded s 0 old ps h1 (flushed (stopped_host mid))
  acquired answered ps calls mid a = record {
    status_known = rw answered refl;
    written =
        append-nil _
        ∙ flush-output mid.app
        ∙ handed_over old ps (session_log s) calls h1 mid first callback a;
    before_reset = came_in;
    after_reset = from_empty (session_log s) calls ps (resetted h1) mid refl a;
    old_in_order = in_order;
    in_order = a.rising;
    old_counted = counted;
    counted = omega (arith, a.counted);
    cleared = refl;
  }

  -- what follows the reset
  after_reset_lem :
      (window : ℕ) (loc : PollLocals)
      → IsSized s window
      → h1.running ≡ true
      → h1.window_size ≡ window
      → IsReady window (rounds_calls 3 0 s.starting + acquired_calls s) (resetted h1)
      → Returns
          (λ status h'. (ps : List LudpDataPacket) × IsRecorded s status old ps h1 h')
          ((send_start (λ n. map datagram (s.starting n)) >>= λ started.
              if started then acquire s loc else give_up s loc)
            (resetted h1))
  unfolding send_start give_up
  after_reset_lem window loc z on w r =
      let log = rounds_log 3 0 s.starting in
      let calls = rounds_calls 3 0 s.starting in
      let serving : IsServing (room 3 0 s.starting) (resetted h1) = record {
        consistent = r.consistent;
        running = on;
        interval = r.interval;
        fits = omega (arith, z.start_room, w);
      } in
      Returns-bind
        {P = λ started h3.
          (any_round 3 0 1 s.starting ≡ started) × Handed log calls (resetted h1) started h3}
        (send_start (λ n. map datagram (s.starting n))) _
        (Returns-map
          (Returns-and
            (send_cmd_wait_ack_lem cmd_start 0 0 3 s.starting (resetted h1) (omega arith)
              (omega arith) (omega arith) (omega arith) serving)
            (send_cmd_wait_ack-Handed cmd_start 0 0 3 s.starting (resetted h1) (omega arith)
              (omega arith) (omega arith) (omega (arith, r.ids)) r.consistent r.room r.interval
              (λ n. rw (r.window_kept) (z.starting n))))
          λ started h3 (t, handed). (sym t.succeeds, handed))
        λ started h3 (found, (ps, a)).
          let r3 =
            RanBy-IsReady window calls (acquired_calls s) _ log ps (resetted h1) h3 (omega arith) r
              a in
          elim (Bool-cases started) [
            | inl succeeded ↦ rw succeeded (
                Returns-map (acquire_lem s window loc h3 r3 z.acquiring z.stopping z.late)
                  λ status h' (mid, qs, b, e, zero_status). (
                    ps ++ qs,
                    rw (e, zero_status)
                        (acquired (found ∙ succeeded) (ps ++ qs) _ mid (
                          RanBy-trans log (acquired_log s) calls (acquired_calls s) ps qs
                            (resetted h1) h3 mid a b)),
                  ))
            | inr failed ↦ rw failed (
                Returns-bind {P = Closed s h3} (close s loc) _
                  (close_lem s window loc h3
                    (RanBy-IsReady window 0 (length (map event s.late)) _ [] [] h3 h3 (omega arith)
                      r3 (RanBy-nil h3 r3.consistent r3.room))
                    z.late)
                  λ _ h' (mid, qs, b, e). returns (
                    ps ++ qs,
                    rw e (
                        gave_up (found ∙ failed) (ps ++ qs) (log ++ came (map event s.late)) _ mid
                          (λ q i.
                            Among-behind q log (came (map event s.late)) (acquired_log s)
                              (λ l. Among-append-right q (came (map event s.acquiring)) _ (
                                Among-append-right q (rounds_log 3 0 s.stopping)
                                  (came (map event s.late)) l))
                              i)
                          (RanBy-trans log (came (map event s.late)) calls _ ps qs (resetted h1) h3
                            mid a b)),
                  ))
          ]

-- what `run_logger` does before the reset
abbrev pub until_reset : Surroundings → ℕ → Action (LudpHost Logger) PollLocals
until_reset s now = do start now; loc ← poll_start now; run (map event s.before) loc

-- A whole session of the data logger, with a credit interval other than 0 and any work of the two
-- threads between the calls, where the sequence numbers with the window, the count of the DATA
-- packets that come in during START with the window, and one more than the number of all events
-- stay below 2^32: nothing is raised. The exit status is 0 just if one of the three rounds of
-- START is answered. After status 0 the file holds, and after status 1 the file with the lost
-- buffer would hold, the payloads of packets that came in before `reset_state`, as many as the
-- host counts as processed right before it, followed by those of packets that came in after it, as
-- many as the host counts as processed in the end. Each of the two rows has rising numbers below
-- the `expected_seq` of its host, and the flag `running` is cleared.
pub run_logger-IsRecorded :
    (s : Surroundings) (window interval now : ℕ)
    → interval ≢ 0
    → IsSized s window
    → Returns
        (λ status h'.
          (old : List LudpDataPacket) × (ps : List LudpDataPacket) × (loc : PollLocals)
          × (h1 : LudpHost Logger) × (until_reset s now (logger_host window interval) ≡ ok loc h1)
          × IsRecorded s status old ps h1 h')
        (run_logger s now (logger_host window interval))
unfolding run_logger start new_host poll_start reset_state
run_logger-IsRecorded s window interval now nz z =
    let h0 = started_host window interval now in
    let new : IsNew h0 = record {
      first = refl;
      heap = refl;
      buffer = refl;
      grant = refl;
      accounts = omega arith;
      quiet = refl;
    } in
    let r0 =
      IsNew-IsReady window (length (map event s.before)) h0 new refl z.window_fits nz
        z.before_ids in
    Returns-bind
      {P = λ l h1.
        (Ran (map event s.before) h0 l h1 × (h1.running ≡ true))
        × (run (map event s.before) _ h0 ≡ ok l h1)}
      (run (map event s.before) _) _
      (Returns-at (
        Returns-and (run_lem (map event s.before) _ h0 r0.consistent r0.room nz r0.ids z.before)
          (run-Alive s.before _ h0 r0.consistent r0.room nz r0.ids z.before)))
      λ loc h1 (((old, a), on), reached).
        Returns-map
          (after_reset_lem s old h1 a.fed a.callback (from_empty _ _ old h0 h1 refl a) a.rising
            (omega (arith, a.counted)) window loc z on a.window
            (IsNew-IsReady window _ (resetted h1) (resetted-IsNew h1) a.window z.window_fits
              (rw (a.interval) nz) (omega (arith, z.ids))))
          λ status h' (ps, written). (old, ps, loc, h1, reached, written)
