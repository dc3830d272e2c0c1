-- ===== src/Threads/Serving.antt =====
-- Commands in a run: what the host hands over while the application waits for an answer.
use mathlib.Core.List.{append-nil}
use mini_corundum.Base.{
  ℕ, zero, suc, ◌+◌, ◌<◌, ◌≡◌, ◌≢◌, ◌∙◌, sym, ap, inl, inr, refl, none, List, [], ◌∷◌, ◌++◌, map,
  All, length, arith, Outcome, ok, raised, ◌>>=◌, Returns, returns, Returns-map, Returns-bind,
  Returns-inv, Bool-cases, ==_self,
}
use mini_corundum.Dict.{insert, erase, lookup-insert}
use mini_corundum.Struct.RoundTrip.{Fits, wire}
use mini_corundum.Host.State.{LudpDataPacket, LudpHost}
use mini_corundum.Host.Packets.{take_cmd_id, sendto, cmd_read_reg}
use mini_corundum.Host.Receive.{datagram, recv_loop}
use mini_corundum.Host.Poll.{PollLocals}
use mini_corundum.Host.Commands.{
  read_reg, in_thread, issue, wait, forget, attempt_cmd, send_cmd_from, send_cmd_wait_ack,
}
use mini_corundum.Reassembly.Accept.{IsConsistent}
use mini_corundum.Reassembly.Stream.{data_packets}
use mini_corundum.Reply.Attempt.{cmd_header, unanswered, issued, build_cmd_lem}
use mini_corundum.Threads.{received}
use mini_corundum.Threads.Room.{HasRoom}
use mini_corundum.Threads.Ran.{came, Among-append-left, RanBy, RanBy-nil, RanBy-trans, RanBy-weaken}
use mini_corundum.Threads.Moves.{touched-RanBy}
use mini_corundum.Threads.Steps.{EventFits}
use mini_corundum.Threads.Safety.{run_lem}
use mini_corundum.Threads.Calls.{run-received}

came-received : (ds : List (List ℕ)) → came (map received ds) ≡ data_packets ds
unfolding data_packets
came-received [] = refl
came-received (bytes ∷ ds) = ground (arith, came-received ds)

length-map : (ds : List (List ℕ)) → length (map received ds) ≡ length ds
length-map [] = refl
length-map (bytes ∷ ds) = ap suc (length-map ds)

-- what is left out of a call that returns its first part's state
ok_inv :
    {S A B : Type 0} (r : Outcome S A) (b c : B) (s : S)
    → ◌≡◌ {A = Outcome S B} (elim r [ ok a s' ↦ ok b s' | raised e s' ↦ raised e s' ]) (ok c s)
    → (a : A) × (r ≡ ok a s)
ok_inv (ok a s') b c s e = (a, ground arith)
ok_inv (raised x s') b c s e = absurd (ground arith)

-- the packets that can come in during the rounds, and the most events that they can have
abbrev pub rounds_log : ℕ → ℕ → (ℕ → List (List ℕ)) → List LudpDataPacket
rounds_log zero attempt ds = []
rounds_log (suc left) attempt ds = data_packets (ds attempt) ++ rounds_log left (attempt + 1) ds

abbrev pub rounds_calls : ℕ → ℕ → (ℕ → List (List ℕ)) → ℕ
rounds_calls zero attempt ds = 0
rounds_calls (suc left) attempt ds = length (ds attempt) + 1 + rounds_calls left (attempt + 1) ds

-- the locals of a polling thread that does nothing
abbrev idle : PollLocals
idle = record { last_data_time = 0; last_expected_seq = 0; gap_stall_start = none }

module _ {App : Type 0} where
  -- what is read while a command waits
  read_while :
      (ds : List (List ℕ)) (loc : PollLocals) (h : LudpHost App)
      → IsConsistent h
      → HasRoom h
      → h.credit_interval ≢ 0
      → h.next_cmd_id + length ds < 4294967296
      → All (EventFits h.window_size) (map received ds)
      → (h' : LudpHost App) × (recv_loop (map datagram ds) h ≡ ok tt h')
        × ((ps : List LudpDataPacket) × RanBy (data_packets ds) (length ds) ps h h')
  read_while ds loc h c r nz n f =
      let (loc', h', ran, (ps, a)) =
        Returns-inv (run_lem (map received ds) loc h c r nz (omega (arith, length-map ds)) f) in
      let (u, read) =
        ok_inv (recv_loop (map datagram ds) h) loc loc' h' (sym (run-received ds loc h) ∙ ran) in
      (h', read, (ps, rw (came-received ds, length-map ds) at a))

  -- what a call that reads `log` and takes at most `calls` events does
  abbrev pub Handed :
      {A : Type 0} → List LudpDataPacket → ℕ → LudpHost App → A → LudpHost App → Type 0
  Handed log calls h _ h' = (ps : List LudpDataPacket) × RanBy log calls ps h h'

  -- A packet is sent, `ds` is read, and the command is given up.
  pub exchange :
      (pkt : List ℕ) (ds : List (List ℕ)) (h : LudpHost App)
      → IsConsistent h
      → HasRoom h
      → h.credit_interval ≢ 0
      → h.next_cmd_id + 1 + length ds < 4294967296
      → All (EventFits h.window_size) (map received ds)
      → (h2 : LudpHost App) × (recv_loop (map datagram ds) (issued h.next_cmd_id pkt h) ≡ ok tt h2)
        × ((ps : List LudpDataPacket) × RanBy
              (data_packets ds)
              (length ds + 1)
              ps
              h
              (record h2 { pending_cmds = erase h.next_cmd_id h2.pending_cmds }))
  exchange pkt ds h c r nz n fits =
      let a : RanBy [] 1 [] h (issued h.next_cmd_id pkt h) =
        touched-RanBy [] 1 (h.next_cmd_id + 1) (h.sent ++ pkt ∷ []) h.running
          (insert h.next_cmd_id unanswered h.pending_cmds) h.stats.credits_sent h (omega arith) c
          r in
      let (h2, read, (ps, b)) =
        read_while ds idle (issued h.next_cmd_id pkt h) a.consistent a.room nz n fits in
      let d : RanBy [] 0 [] h2 (record h2 { pending_cmds = erase h.next_cmd_id h2.pending_cmds }) =
        touched-RanBy [] 0 h2.next_cmd_id h2.sent h2.running (erase h.next_cmd_id h2.pending_cmds)
          h2.stats.credits_sent h2 (omega arith) b.consistent b.room in
      let whole =
        RanBy-trans [] (data_packets ds ++ []) 1 (length ds + 0) [] (ps ++ []) h _ _ a
          (RanBy-trans (data_packets ds) [] (length ds) 0 ps [] _ h2 _ b d) in
      (
        h2,
        read,
        (
          ps ++ [],
          RanBy-weaken (data_packets ds ++ []) (data_packets ds) (1 + (length ds + 0))
              (length ds + 1) (ps ++ []) h _ (λ q i. rw (append-nil (data_packets ds)) at i)
              (omega arith) whole,
        ),
      )

  attempt_cmd-Handed :
      (opcode arg1 arg2 : ℕ) (ds : List (List ℕ)) (h : LudpHost App)
      → Fits (cmd_header opcode arg1 arg2 0x00 h.next_cmd_id)
      → IsConsistent h
      → HasRoom h
      → h.credit_interval ≢ 0
      → h.next_cmd_id + 1 + length ds < 4294967296
      → All (EventFits h.window_size) (map received ds)
      → Returns
          (Handed (data_packets ds) (length ds + 1) h)
          (attempt_cmd opcode arg1 arg2 (map datagram ds) h)
  unfolding attempt_cmd take_cmd_id issue sendto forget wait in_thread
  attempt_cmd-Handed opcode arg1 arg2 ds h f c r nz n fits =
      let pkt = wire (cmd_header opcode arg1 arg2 0x00 h.next_cmd_id) in
      let (h2, read, handed) = exchange pkt ds h c r nz n fits in
      rw
        (
          build_cmd_lem opcode arg1 arg2 0x00 h.next_cmd_id
              (record h { next_cmd_id = h.next_cmd_id + 1 }) f,
          ◌>>=◌,
          lookup-insert h.next_cmd_id h.next_cmd_id unanswered h.pending_cmds,
          ==_self h.next_cmd_id,
          read,
        )
        (returns handed)

  -- A register read, in a run of the threads.
  pub read_reg-Handed :
      (addr : ℕ) (ds : List (List ℕ)) (h : LudpHost App)
      → addr < 4294967296
      → IsConsistent h
      → HasRoom h
      → h.credit_interval ≢ 0
      → h.next_cmd_id + 1 + length ds < 4294967296
      → All (EventFits h.window_size) (map received ds)
      → Returns (Handed (data_packets ds) (length ds + 1) h) (read_reg addr (map datagram ds) h)
  unfolding read_reg take_cmd_id issue sendto forget wait in_thread
  read_reg-Handed addr ds h a c r nz n fits =
      let pkt = wire (cmd_header cmd_read_reg addr 0 0x01 h.next_cmd_id) in
      let (h2, read, handed) = exchange pkt ds h c r nz n fits in
      rw
        (
          build_cmd_lem cmd_read_reg addr 0 0x01 h.next_cmd_id
              (record h { next_cmd_id = h.next_cmd_id + 1 }) (omega arith),
          ◌>>=◌,
          lookup-insert h.next_cmd_id h.next_cmd_id unanswered h.pending_cmds,
          ==_self h.next_cmd_id,
          read,
        )
        (returns handed)

  send_cmd_from-Handed :
      (left attempt opcode arg1 arg2 : ℕ) (ds : ℕ → List (List ℕ)) (h : LudpHost App)
      → opcode < 65536
      → arg1 < 4294967296
      → arg2 < 65536
      → h.next_cmd_id + rounds_calls left attempt ds < 4294967296
      → IsConsistent h
      → HasRoom h
      → h.credit_interval ≢ 0
      → ((n : ℕ) → All (EventFits h.window_size) (map received (ds n)))
      → Returns
          (Handed (rounds_log left attempt ds) (rounds_calls left attempt ds) h)
          (send_cmd_from left attempt opcode arg1 arg2 (λ n. map datagram (ds n)) h)
  unfolding send_cmd_from
  send_cmd_from-Handed zero attempt opcode arg1 arg2 ds h o a b n c r nz fits =
      returns ([], RanBy-nil h c r)
  send_cmd_from-Handed (suc left) attempt opcode arg1 arg2 ds h o a b n c r nz fits =
      Returns-bind {P = Handed (data_packets (ds attempt)) (length (ds attempt) + 1) h}
        (attempt_cmd opcode arg1 arg2 (map datagram (ds attempt))) _
        (attempt_cmd-Handed opcode arg1 arg2 (ds attempt) h (omega arith) c r nz (omega arith)
          (fits attempt))
        λ success h' (ps, t). elim (Bool-cases success) [
          | inl done ↦ rw done (
              returns (
                ps,
                RanBy-weaken (data_packets (ds attempt)) _ (length (ds attempt) + 1) _ ps h h'
                    (λ q i.
                      Among-append-left q (data_packets (ds attempt))
                        (rounds_log left (attempt + 1) ds) i)
                    (omega arith) t,
              ))
          | inr failed ↦ rw failed (
              Returns-map
                (send_cmd_from-Handed left (attempt + 1) opcode arg1 arg2 ds h' o a b
                  (omega (arith, t.ids)) t.consistent t.room (rw (t.interval) nz)
                  (λ n. rw (t.window) (fits n)))
                λ _ h'' (qs, more). (
                  ps ++ qs,
                  RanBy-trans (data_packets (ds attempt)) (rounds_log left (attempt + 1) ds)
                      (length (ds attempt) + 1) (rounds_calls left (attempt + 1) ds) ps qs h h' h''
                      t more,
                ))
        ]

  -- A command with its retries, in a run of the threads.
  pub send_cmd_wait_ack-Handed :
      (opcode arg1 arg2 retries : ℕ) (ds : ℕ → List (List ℕ)) (h : LudpHost App)
      → opcode < 65536
      → arg1 < 4294967296
      → arg2 < 65536
      → h.next_cmd_id + rounds_calls retries 0 ds < 4294967296
      → IsConsistent h
      → HasRoom h
      → h.credit_interval ≢ 0
      → ((n : ℕ) → All (EventFits h.window_size) (map received (ds n)))
      → Returns
          (Handed (rounds_log retries 0 ds) (rounds_calls retries 0 ds) h)
          (send_cmd_wait_ack opcode arg1 arg2 retries (λ n. map datagram (ds n)) h)
  unfolding send_cmd_wait_ack
  send_cmd_wait_ack-Handed opcode arg1 arg2 retries ds h o a b n c r nz fits =
      send_cmd_from-Handed retries 0 opcode arg1 arg2 ds h o a b n c r nz fits
