-- ===== src/Reply/Retry.antt =====
-- The retries of a command.
use mini_corundum.Base.{
  ℕ, zero, suc, ◌+◌, ◌≤◌, ◌<◌, ◌≡◌, ◌∙◌, refl, Bool, false, List, ◌||◌, map, length, if◌then◌else◌,
  arith, raised, struct_error, Returns, returns, Returns-bind, Returns-map, Bool-cases, inl, inr,
}
use mini_corundum.Struct.{pack_header}
use mini_corundum.Host.State.{LudpHost}
use mini_corundum.Host.Packets.{take_cmd_id, build_cmd}
use mini_corundum.Host.Receive.{Received, datagram}
use mini_corundum.Host.Commands.{attempt_cmd, send_cmd_from, send_cmd_wait_ack, write_reg}
use mini_corundum.Reassembly.Accept.{IsConsistent}
use mini_corundum.Reassembly.Stream.{data_packets}
use mini_corundum.Reply.Answers.{any_answers}
use mini_corundum.Reply.Attempt.{IsServing, Attempted, attempt_cmd_lem}

-- Some round from `attempt` on reads an answer to its own command; round `attempt` sends `cmd_id`,
-- and each round takes the next number.
abbrev pub any_round : ℕ → ℕ → ℕ → (ℕ → List (List ℕ)) → Bool
any_round zero attempt cmd_id ds = false
any_round (suc left) attempt cmd_id ds =
    any_answers cmd_id (ds attempt) || any_round left (attempt + 1) (cmd_id + 1) ds

-- how many commands are sent: up to the first that is answered
abbrev pub tries : ℕ → ℕ → ℕ → (ℕ → List (List ℕ)) → ℕ
tries zero attempt cmd_id ds = 0
tries (suc left) attempt cmd_id ds =
    if any_answers cmd_id (ds attempt) then 1 else suc (tries left (attempt + 1) (cmd_id + 1) ds)

-- the DATA packets that can come in during the rounds
abbrev pub room : ℕ → ℕ → (ℕ → List (List ℕ)) → ℕ
room zero attempt ds = 0
room (suc left) attempt ds = length (data_packets (ds attempt)) + room left (attempt + 1) ds

module _ {App : Type 0} where
  pub record Sent (left attempt : ℕ) (ds : ℕ → List (List ℕ)) (h : LudpHost App) (success : Bool)
      (h' : LudpHost App) : Type 0 where
    pub succeeds : success ≡ any_round left attempt h.next_cmd_id ds
    pub ids : h'.next_cmd_id ≡ h.next_cmd_id + tries left attempt h.next_cmd_id ds
    pub consistent : IsConsistent h'
    pub running : h'.running ≡ h.running

  -- the rest of the rounds after a failed one
  later :
      (left attempt : ℕ) (ds : ℕ → List (List ℕ)) (h h' h'' : LudpHost App) (success : Bool)
      → any_answers h.next_cmd_id (ds attempt) ≡ false
      → h'.next_cmd_id ≡ h.next_cmd_id + 1
      → h'.running ≡ h.running
      → Sent left (attempt + 1) ds h' success h''
      → Sent (suc left) attempt ds h success h''
  later left attempt ds h h' h'' success failed id run s = record {
    succeeds = rw (failed, ← id) (s.succeeds);
    ids = rw failed (s.ids ∙ rw id (omega arith));
    consistent = s.consistent;
    running = s.running ∙ run;
  }

  send_cmd_from_lem :
      (left attempt opcode arg1 arg2 : ℕ) (ds : ℕ → List (List ℕ)) (h : LudpHost App)
      → opcode < 65536
      → arg1 < 4294967296
      → arg2 < 65536
      → h.next_cmd_id + left < 4294967296
      → IsServing (room left attempt ds) h
      → Returns
          (Sent left attempt ds h)
          (send_cmd_from left attempt opcode arg1 arg2 (λ n. map datagram (ds n)) h)
  unfolding send_cmd_from
  send_cmd_from_lem zero attempt opcode arg1 arg2 ds h o a b n s =
      returns
        (record { succeeds = refl; ids = omega arith; consistent = s.consistent; running = refl })
  send_cmd_from_lem (suc left) attempt opcode arg1 arg2 ds h o a b n s =
      Returns-bind {P = Attempted (ds attempt) h}
        (attempt_cmd opcode arg1 arg2 (map datagram (ds attempt))) _
        (attempt_cmd_lem opcode arg1 arg2 (ds attempt) h (omega arith) (record {
          consistent = s.consistent;
          running = s.running;
          interval = s.interval;
          fits = omega (arith, s.fits);
        }))
        λ success h' t. elim (Bool-cases success) [
          | inl done ↦ rw done (
              returns (record {
                succeeds = ground (arith, t.succeeds);
                ids = ground (arith, t.succeeds, t.next_id);
                consistent = t.consistent;
                running = t.running;
              }))
          | inr failed ↦ rw failed (
              Returns-map
                (send_cmd_from_lem left (attempt + 1) opcode arg1 arg2 ds h' o a b
                  (omega (arith, t.next_id))
                  (record {
                    consistent = t.consistent;
                    running = t.running ∙ s.running;
                    interval = rw (t.interval) (s.interval);
                    fits = omega (arith, s.fits, t.size, t.window);
                  }))
                λ u h'' v.
                  later left attempt ds h h' h'' u (ground (arith, t.succeeds)) t.next_id t.running
                    v)
        ]

  -- With arguments that fit their fields and room below 2^32 for the packets that can come in, a
  -- command with retries raises nothing. It succeeds just if one of its rounds reads a CMD_ACK or
  -- a CMD_CPL with the number of the command that this very round sent; it takes one command
  -- number for each round up to the first that is answered; and it leaves a consistent host with
  -- its threads as they were.
  pub send_cmd_wait_ack_lem :
      (opcode arg1 arg2 retries : ℕ) (ds : ℕ → List (List ℕ)) (h : LudpHost App)
      → opcode < 65536
      → arg1 < 4294967296
      → arg2 < 65536
      → h.next_cmd_id + retries < 4294967296
      → IsServing (room retries 0 ds) h
      → Returns
          (Sent retries 0 ds h)
          (send_cmd_wait_ack opcode arg1 arg2 retries (λ n. map datagram (ds n)) h)
  unfolding send_cmd_wait_ack
  send_cmd_wait_ack_lem opcode arg1 arg2 retries ds h o a b n s =
      send_cmd_from_lem retries 0 opcode arg1 arg2 ds h o a b n s

  -- A register value of more than 16 bits is refused with `struct.error` whatever comes in:
  -- nothing is sent, no command is pending, and only a command number is used up.
  pub write_reg-wide :
      (addr value : ℕ) (waits : ℕ → List Received) (h : LudpHost App)
      → 65536 ≤ value
      → write_reg addr value waits h
        ≡ raised struct_error (record h { next_cmd_id = h.next_cmd_id + 1 })
  unfolding write_reg send_cmd_wait_ack send_cmd_from attempt_cmd take_cmd_id build_cmd pack_header
  write_reg-wide addr value waits h wide = ground arith
