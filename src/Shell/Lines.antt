-- ===== src/Shell/Lines.antt =====
-- A session in the shell, from a new host on.
use mini_corundum.Base.{
  none, ◌∙◌, ℕ, ◌+◌, ◌<◌, ◌≡◌, ◌≢◌, refl, ⊤, true, false, List, [], ◌∷◌, ◌++◌, map, All, length,
  arith, Action, Returns, returns, Returns-map, Returns-bind, Outcome, ok, raised, raise, ◌>>◌,
  Bool-cases, inl, inr, inr,
}
use mini_corundum.Host.State.{
  clear_running, LudpDataPacket, LudpHost, new_host, start, clear_running, initial_stats,
}
use mini_corundum.Host.Receive.{datagram}
use mini_corundum.Host.Poll.{PollLocals, poll_start}
use mini_corundum.Reassembly.Accept.{IsConsistent}
use mini_corundum.Reassembly.Stream.{Among}
use mini_corundum.Reassembly.Trace.{feed}
use mini_corundum.Threads.{received, run}
use mini_corundum.Threads.Ran.{
  came, Among-append-left, Rising, RanBy-nil, RanBy-trans, RanBy-weaken,
}
use mini_corundum.Threads.Steps.{EventFits}
use mini_corundum.Threads.Safety.{Ran, run_lem}
use mini_corundum.Threads.Serving.{rounds_log, rounds_calls, Handed}
use mini_corundum.Threads.Ready.{IsReady, RanBy-IsReady, IsNew, IsNew-IsReady, from_empty}
use mini_corundum.Logger.Session.{event}
use mini_corundum.Shell.Words.{split}
use mini_corundum.Shell.Serve.{NumbersFit, execute_lem}
use mini_corundum.Shell.{Prompt, execute, shell, finally_stop, run_interactive}

-- The numbers of the line and what comes in with it fit their fields.
pub record LineFits (window : ℕ) (p : Prompt) : Type 0 where
  pub before_fits : All (EventFits window) (map event p.before)
  pub reads_fit : (n : ℕ) → All (EventFits window) (map received (p.reads n))
  pub numbers : NumbersFit (split p.text)

-- the packets that can come in, and the most events, over all lines
abbrev pub shell_log : List Prompt → List LudpDataPacket
shell_log [] = []
shell_log (p ∷ prompts) = came (map event p.before) ++ (rounds_log 3 0 p.reads ++ shell_log prompts)

abbrev pub shell_calls : List Prompt → ℕ
shell_calls [] = 0
shell_calls (p ∷ prompts) =
    length (map event p.before) + (rounds_calls 3 0 p.reads + shell_calls prompts)

module _ {App : Type 0} where
  shell_lem :
      (window : ℕ) (prompts : List Prompt) (loc : PollLocals) (h : LudpHost App)
      → IsReady window (shell_calls prompts) h
      → All (LineFits window) prompts
      → Returns (Handed (shell_log prompts) (shell_calls prompts) h) (shell prompts loc h)
  unfolding shell
  shell_lem window [] loc h r f = returns ([], RanBy-nil h r.consistent r.room)
  shell_lem window (p ∷ prompts) loc h r f =
      let line = f.0 in
      let before = came (map event p.before) in
      let during = rounds_log 3 0 p.reads in
      let n = length (map event p.before) in
      let m = rounds_calls 3 0 p.reads in
      Returns-bind {P = Ran (map event p.before) h} (run (map event p.before) loc) _
        (run_lem (map event p.before) loc h r.consistent r.room r.interval (omega (arith, r.ids))
          (rw (r.window_kept) (line.before_fits)))
        λ loc' h1 (ps1, a).
          let r1 =
            RanBy-IsReady window n (m + shell_calls prompts) _ before ps1 h h1 (omega arith) r a in
          let r1' : IsReady window m h1 = record {
            consistent = r1.consistent;
            room = r1.room;
            interval = r1.interval;
            window_kept = r1.window_kept;
            ids = omega (arith, r1.ids);
          } in
          Returns-bind {P = Handed during m h1}
            (execute (split p.text) (λ k. map datagram (p.reads k))) _
            (execute_lem p.reads window h1 r1' line.reads_fit (split p.text) line.numbers)
            λ again h2 (ps2, b). elim (Bool-cases again) [
              | inl goes_on ↦ rw goes_on (
                  Returns-map
                    (shell_lem window prompts loc' h2
                      (RanBy-IsReady window m (shell_calls prompts) _ during ps2 h1 h2 (omega arith)
                        r1 b)
                      f.1)
                    λ _ h3 (ps3, c). (
                      ps1 ++ (ps2 ++ ps3),
                      RanBy-trans before (during ++ shell_log prompts) n (m + shell_calls prompts)
                          ps1 (ps2 ++ ps3) h h1 h3 a
                          (RanBy-trans during (shell_log prompts) m (shell_calls prompts) ps2 ps3 h1
                            h2 h3 b c),
                    ))
              | inr quits ↦ rw quits (
                  returns (
                    ps1 ++ ps2,
                    RanBy-trans before (during ++ shell_log prompts) n (m + shell_calls prompts) ps1
                        ps2 h h1 h2 a
                        (RanBy-weaken during (during ++ shell_log prompts) m
                          (m + shell_calls prompts) ps2 h1 h2
                          (λ q i. Among-append-left q during (shell_log prompts) i) (omega arith)
                          b),
                  ))
            ]

  -- with no callback
  feed-none : (ps : List LudpDataPacket) (app : App) → feed none ps app ≡ app
  unfolding feed
  feed-none [] app = refl
  feed-none (p ∷ ps) app = feed-none ps app

  -- `ps` are the packets that the host counts as processed in the end.
  pub record IsServed (app : App) (log ps : List LudpDataPacket) (h : LudpHost App) : Type 0 where
    pub untouched : h.app ≡ app
    pub counted : h.stats.packets_processed ≡ length ps
    pub all_came : All (λ q. Among q log) ps
    pub in_order : Rising 0 h.expected_seq ps
    pub consistent : IsConsistent h
    pub cleared : h.running ≡ false

  stopped_Returns :
      {P : ⊤ → LudpHost App → Type 0} (r : Outcome (LudpHost App) ⊤)
      → Returns P r
      → Returns {S = LudpHost App} {A = ⊤}
          (λ _ h'. (mid : LudpHost App) × P tt mid × (h' ≡ record mid { running = false }))
          (elim r as (λ _. Outcome (LudpHost App) ⊤) [
            | ok _ h' ↦ clear_running h'
            | raised x h' ↦ (clear_running >> raise x) h'
          ])
  unfolding clear_running
  stopped_Returns (ok a mid) (returns p) = returns (mid, p, refl)
  stopped_Returns (raised x mid) r = elim r [ ]

  finally_stop-Returns :
      {P : ⊤ → LudpHost App → Type 0} (body : Action (LudpHost App) ⊤) (h : LudpHost App)
      → Returns P (body h)
      → Returns
          (λ _ h'. (mid : LudpHost App) × P tt mid × (h' ≡ record mid { running = false }))
          (finally_stop body h)
  unfolding finally_stop
  finally_stop-Returns body h r = stopped_Returns (body h) r

  -- A whole session in the interactive shell of a new host, which has no callback, with a credit
  -- interval other than 0, any work of the two threads before each line and any datagrams during
  -- its command, where the sequence numbers with the window and one more than the number of all
  -- events stay below 2^32, and the numbers that the commands ask for can be read and fit their
  -- fields: nothing is raised. There are packets that came in, each with a higher number than the
  -- one before and below `expected_seq`, as many as the host counts as processed; the
  -- application's state is left alone, the host is consistent, and the flag `running` is cleared.
  pub run_interactive-IsServed :
      (window interval poll_us now : ℕ) (app : App) (prompts : List Prompt)
      → interval ≢ 0
      → window + 1 < 4294967296
      → 1 + shell_calls prompts < 4294967296
      → All (LineFits window) prompts
      → Returns
          (λ _ h'. (ps : List LudpDataPacket) × IsServed app (shell_log prompts) ps h')
          (run_interactive now prompts (new_host window interval poll_us none app))
  unfolding run_interactive start poll_start new_host
  run_interactive-IsServed window interval poll_us now app prompts nz w n f =
      let h0 : LudpHost App = record {
        window_size = window;
        credit_interval = interval;
        credit_poll_us = poll_us;
        on_data = none;
        app = app;
        sent = [];
        expected_seq = 0;
        abs_credit = window;
        highest_seq = 0;
        out_of_order = [];
        ooo_heap = [];
        pending_nacks = [];
        running = true;
        stats = record initial_stats { start_time = now };
        pending_cmds = [];
        next_cmd_id = 1;
      } in
      let new : IsNew h0 = record {
        first = refl;
        heap = refl;
        buffer = refl;
        grant = refl;
        accounts = omega arith;
        quiet = refl;
      } in
      Returns-map
        (finally_stop-Returns (shell prompts _) h0 (
          shell_lem window prompts _ h0
            (IsNew-IsReady window (shell_calls prompts) h0 new refl w nz n) f))
        λ _ h' (mid, (ps, a), e). (
          ps,
          rw e (record {
            untouched = a.fed ∙ feed-none ps app;
            counted = omega (arith, a.counted);
            all_came = from_empty (shell_log prompts) _ ps h0 mid refl a;
            in_order = a.rising;
            consistent = record {
              above = a.consistent.above;
              indexed = a.consistent.indexed;
              granted = a.consistent.granted;
              accounts = a.consistent.accounts;
              quiet = a.consistent.quiet;
            };
            cleared = refl;
          }),
        )
