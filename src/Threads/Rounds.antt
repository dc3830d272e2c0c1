-- ===== src/Threads/Rounds.antt =====
-- A command with its retries as events: it leaves the host that an interleaving leaves.
use mathlib.Core.List.{append-nil}
use mini_corundum.Base.{
  ℕ, zero, suc, ◌+◌, ◌<◌, ◌≡◌, ◌∙◌, ap, inl, inr, refl, true, false, List, [], ◌∷◌, ◌++◌, map,
  length, arith, ok, ◌>>=◌, pure, Returns, returns, Returns-map, Returns-bind, Returns-inv,
  Returns-and, Bool-cases, ==_self,
}
use mini_corundum.Dict.{erase, lookup-insert}
use mini_corundum.Struct.RoundTrip.{Fits, wire}
use mini_corundum.Host.State.{LudpHost}
use mini_corundum.Host.Packets.{take_cmd_id, sendto}
use mini_corundum.Host.Receive.{datagram, recv_loop}
use mini_corundum.Host.Poll.{PollLocals}
use mini_corundum.Host.Commands.{
  in_thread, issue, wait, forget, attempt_cmd, send_cmd_from, send_cmd_wait_ack,
}
use mini_corundum.Reassembly.Stream.{data_packets, recv_loop_lem}
use mini_corundum.Reply.Attempt.{
  cmd_header, unanswered, issued, issued-IsServing, build_cmd_lem, IsServing, Attempted,
  attempt_cmd_lem,
}
use mini_corundum.Threads.{Event, received, commanded, forgotten, step, run}
use mini_corundum.Threads.Calls.{run-received, run-append, run-then, then_do}
use mini_corundum.Reply.Answers.{any_answers}
use mini_corundum.Reply.Retry.{any_round, tries, room, send_cmd_wait_ack_lem}

-- the events of one round of a command
abbrev pub attempt_events : ℕ → ℕ → ℕ → ℕ → List (List ℕ) → List Event
attempt_events opcode arg1 arg2 cmd_id ds =
    commanded opcode arg1 arg2 0x00 ∷ (map received ds ++ forgotten cmd_id ∷ [])

-- the events of `rounds` rounds from `attempt` on
abbrev pub cmd_events : ℕ → ℕ → ℕ → ℕ → ℕ → ℕ → (ℕ → List (List ℕ)) → List Event
cmd_events zero attempt opcode arg1 arg2 cmd_id ds = []
cmd_events (suc rounds) attempt opcode arg1 arg2 cmd_id ds =
    attempt_events opcode arg1 arg2 cmd_id (ds attempt)
    ++ cmd_events rounds (attempt + 1) opcode arg1 arg2 (cmd_id + 1) ds

module _ {App : Type 0} where
  step-commanded :
      (opcode arg1 arg2 : ℕ) (loc : PollLocals) (h : LudpHost App)
      → Fits (cmd_header opcode arg1 arg2 0x00 h.next_cmd_id)
      → step (commanded opcode arg1 arg2 0x00) loc h
        ≡ ok loc (issued h.next_cmd_id (wire (cmd_header opcode arg1 arg2 0x00 h.next_cmd_id)) h)
  unfolding step take_cmd_id issue sendto
  step-commanded opcode arg1 arg2 loc h f =
      rw
        (
          build_cmd_lem opcode arg1 arg2 0x00 h.next_cmd_id
              (record h { next_cmd_id = h.next_cmd_id + 1 }) f,
          ◌>>=◌,
        )
        refl

  run-forgotten :
      (cmd_id : ℕ) (loc : PollLocals) (h : LudpHost App)
      → run (forgotten cmd_id ∷ []) loc h
        ≡ ok loc (record h { pending_cmds = erase cmd_id h.pending_cmds })
  unfolding run step forget
  run-forgotten cmd_id loc h = refl

  -- the events of a round, when the receive loop has run to `h'`
  run-attempt :
      (opcode arg1 arg2 : ℕ) (ds : List (List ℕ)) (loc : PollLocals) (h h' : LudpHost App)
      → Fits (cmd_header opcode arg1 arg2 0x00 h.next_cmd_id)
      → recv_loop
          (map datagram ds)
          (issued h.next_cmd_id (wire (cmd_header opcode arg1 arg2 0x00 h.next_cmd_id)) h)
        ≡ ok tt h'
      → run (attempt_events opcode arg1 arg2 h.next_cmd_id ds) loc h
        ≡ ok loc (record h' { pending_cmds = erase h.next_cmd_id h'.pending_cmds })
  unfolding run
  run-attempt opcode arg1 arg2 ds loc h h' f ran =
      let h1 = issued h.next_cmd_id (wire (cmd_header opcode arg1 arg2 0x00 h.next_cmd_id)) h in
      let last = forgotten h.next_cmd_id ∷ [] in
      ap (then_do (λ l. run (map received ds ++ last) l)) (step-commanded opcode arg1 arg2 loc h f)
      ∙ run-append (map received ds) last loc h1
      ∙ ap (then_do (λ l. run last l)) (run-received ds loc h1 ∙ ap (then_do (λ _. pure loc)) ran)
      ∙ run-forgotten h.next_cmd_id loc h'

  -- One round leaves the host that its events leave.
  attempt_cmd-run :
      (opcode arg1 arg2 : ℕ) (ds : List (List ℕ)) (loc : PollLocals) (h : LudpHost App)
      → Fits (cmd_header opcode arg1 arg2 0x00 h.next_cmd_id)
      → IsServing (length (data_packets ds)) h
      → Returns
          (λ _ h'. run (attempt_events opcode arg1 arg2 h.next_cmd_id ds) loc h ≡ ok loc h')
          (attempt_cmd opcode arg1 arg2 (map datagram ds) h)
  unfolding attempt_cmd take_cmd_id issue sendto forget wait in_thread
  attempt_cmd-run opcode arg1 arg2 ds loc h f s =
      let h1 = issued h.next_cmd_id (wire (cmd_header opcode arg1 arg2 0x00 h.next_cmd_id)) h in
      let t =
        issued-IsServing h.next_cmd_id (length (data_packets ds))
          (wire (cmd_header opcode arg1 arg2 0x00 h.next_cmd_id)) h s in
      let (u, h2, ran, read) =
        Returns-inv (recv_loop_lem ds h1 t.consistent t.running t.interval t.fits) in
      rw
        (
          build_cmd_lem opcode arg1 arg2 0x00 h.next_cmd_id
              (record h { next_cmd_id = h.next_cmd_id + 1 }) f,
          ◌>>=◌,
          lookup-insert h.next_cmd_id h.next_cmd_id unanswered h.pending_cmds,
          ==_self h.next_cmd_id,
          ran,
        )
        (returns (run-attempt opcode arg1 arg2 ds loc h h2 f ran))

  -- the rounds after a failed one, under the number that it leaves
  later_rounds :
      (left attempt opcode arg1 arg2 first next : ℕ) (ds : ℕ → List (List ℕ)) (loc : PollLocals)
      (h h' h'' : LudpHost App)
      → next ≡ first + 1
      → run (attempt_events opcode arg1 arg2 first (ds attempt)) loc h ≡ ok loc h'
      → run
          (cmd_events (tries left (attempt + 1) next ds) (attempt + 1) opcode arg1 arg2 next ds)
          loc
          h'
        ≡ ok loc h''
      → run
          (cmd_events
            (suc (tries left (attempt + 1) (first + 1) ds))
            attempt
            opcode
            arg1
            arg2
            first
            ds)
          loc
          h
        ≡ ok loc h''
  later_rounds left attempt opcode arg1 arg2 first next ds loc h h' h'' e a b =
      run-then (attempt_events opcode arg1 arg2 first (ds attempt)) _ loc h h' h'' a (rw e at b)

  send_cmd_from-run :
      (left attempt opcode arg1 arg2 : ℕ) (ds : ℕ → List (List ℕ)) (loc : PollLocals)
      (h : LudpHost App)
      → opcode < 65536
      → arg1 < 4294967296
      → arg2 < 65536
      → h.next_cmd_id + left < 4294967296
      → IsServing (room left attempt ds) h
      → Returns
          (λ _ h'.
            run
              (cmd_events
                (tries left attempt h.next_cmd_id ds)
                attempt
                opcode
                arg1
                arg2
                h.next_cmd_id
                ds)
              loc
              h
            ≡ ok loc h')
          (send_cmd_from left attempt opcode arg1 arg2 (λ n. map datagram (ds n)) h)
  unfolding send_cmd_from run
  send_cmd_from-run zero attempt opcode arg1 arg2 ds loc h o a b n s = returns refl
  send_cmd_from-run (suc left) attempt opcode arg1 arg2 ds loc h o a b n s =
      let now : IsServing (length (data_packets (ds attempt))) h = record {
        consistent = s.consistent;
        running = s.running;
        interval = s.interval;
        fits = omega (arith, s.fits);
      } in
      Returns-bind
        {P = λ success h'.
          Attempted (ds attempt) h success h'
          × (run (attempt_events opcode arg1 arg2 h.next_cmd_id (ds attempt)) loc h ≡ ok loc h')}
        (attempt_cmd opcode arg1 arg2 (map datagram (ds attempt))) _
        (Returns-and (attempt_cmd_lem opcode arg1 arg2 (ds attempt) h (omega arith) now)
          (attempt_cmd-run opcode arg1 arg2 (ds attempt) loc h (omega arith) now))
        λ success h' (t, ran). elim (Bool-cases success) [
          | inl done ↦
              let found : any_answers h.next_cmd_id (ds attempt) ≡ true =
                ground (arith, t.succeeds) in
              rw (done, found, append-nil) (returns ran)
          | inr failed ↦
              let missed : any_answers h.next_cmd_id (ds attempt) ≡ false =
                ground (arith, t.succeeds) in
              rw (failed, missed)
                (Returns-map
                  (send_cmd_from-run left (attempt + 1) opcode arg1 arg2 ds loc h' o a b
                    (omega (arith, t.next_id))
                    (record {
                      consistent = t.consistent;
                      running = t.running ∙ s.running;
                      interval = rw (t.interval) (s.interval);
                      fits = omega (arith, s.fits, t.size, t.window);
                    }))
                  λ _ h'' more.
                    later_rounds left attempt opcode arg1 arg2 h.next_cmd_id h'.next_cmd_id ds loc h
                      h' h'' t.next_id ran more)
        ]

  -- With arguments that fit their fields and room below 2^32 for the packets that can come in, a
  -- command with retries raises nothing, tells whether one of its rounds is answered, and leaves
  -- exactly the host that the list of its events leaves: in each round up to the first that is
  -- answered the command is sent, the datagrams come in, and the command is given up.
  pub send_cmd_wait_ack-run :
      (opcode arg1 arg2 retries : ℕ) (ds : ℕ → List (List ℕ)) (loc : PollLocals) (h : LudpHost App)
      → opcode < 65536
      → arg1 < 4294967296
      → arg2 < 65536
      → h.next_cmd_id + retries < 4294967296
      → IsServing (room retries 0 ds) h
      → Returns
          (λ success h'.
            (success ≡ any_round retries 0 h.next_cmd_id ds)
            × (run
                  (cmd_events
                    (tries retries 0 h.next_cmd_id ds)
                    0
                    opcode
                    arg1
                    arg2
                    h.next_cmd_id
                    ds)
                  loc
                  h
                ≡ ok loc h'))
          (send_cmd_wait_ack opcode arg1 arg2 retries (λ n. map datagram (ds n)) h)
  unfolding send_cmd_wait_ack
  send_cmd_wait_ack-run opcode arg1 arg2 retries ds loc h o a b n s =
      Returns-map
        (Returns-and (send_cmd_wait_ack_lem opcode arg1 arg2 retries ds h o a b n s)
          (send_cmd_from-run retries 0 opcode arg1 arg2 ds loc h o a b n s))
        λ success h' (t, ran). (t.succeeds, ran)
