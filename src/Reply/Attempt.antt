-- ===== src/Reply/Attempt.antt =====
-- One command, and the wait for its answer.
use mini_corundum.Base.{
  ℕ, ◌+◌, ◌≤◌, ◌<◌, ◌≡◌, ◌≢◌, Bool, true, false, none, some, List, [], ◌∷◌, ◌++◌, map, length,
  arith, ok, ◌>>=◌, Returns, returns, Returns-bind, Returns-inv,
}
use mini_corundum.Dict.{lookup, insert, lookup-insert, lookup-erase}
use mini_corundum.Struct.RoundTrip.{Header, Fits, wire, pack-wire}
use mini_corundum.Host.State.{LudpDataPacket, PendingCmd, LudpHost}
use mini_corundum.Host.Packets.{ludp_magic, pkt_cmd, take_cmd_id, build_cmd, sendto}
use mini_corundum.Host.Receive.{datagram}
use mini_corundum.Host.Commands.{in_thread, issue, wait, forget, attempt_cmd}
use mini_corundum.Reassembly.Accept.{IsConsistent}
use mini_corundum.Reassembly.Stream.{data_packets, StreamedBy, recv_loop_lem}
use mini_corundum.Reply.Answers.{any_answers, last_answer, lookup-answer_all}

-- the fields of a CMD packet
abbrev pub cmd_header : ℕ → ℕ → ℕ → ℕ → ℕ → Header
cmd_header opcode arg1 arg2 flags cmd_id = record {
  magic = ludp_magic;
  kind = pkt_cmd;
  flags = flags;
  ident = cmd_id;
  code = opcode;
  arg1 = arg1;
  arg2 = arg2;
}

-- a command with no answer yet
abbrev pub unanswered : PendingCmd
unanswered = record { event = false; response = none }

module _ {App : Type 0} where
  -- The receive thread is alive, and has room for the packets of `ds`.
  pub record IsServing (room : ℕ) (h : LudpHost App) : Type 0 where
    pub consistent : IsConsistent h
    pub running : h.running ≡ true
    pub interval : h.credit_interval ≢ 0
    pub fits : h.expected_seq + length h.ooo_heap + room + h.window_size < 4294967296

  -- the state after the command `cmd_id` has been sent
  abbrev pub issued : ℕ → List ℕ → LudpHost App → LudpHost App
  issued cmd_id pkt h = record h {
    next_cmd_id = cmd_id + 1;
    pending_cmds = insert cmd_id unanswered h.pending_cmds;
    sent = h.sent ++ pkt ∷ [];
  }

  -- The command's packet and entry are nothing to the receive thread.
  pub issued-IsServing :
      (cmd_id room : ℕ) (pkt : List ℕ) (h : LudpHost App)
      → IsServing room h
      → IsServing room (issued cmd_id pkt h)
  issued-IsServing cmd_id room pkt h s = record {
    consistent = record {
      above = s.consistent.above;
      indexed = s.consistent.indexed;
      granted = s.consistent.granted;
      accounts = s.consistent.accounts;
      quiet = s.consistent.quiet;
    };
    running = s.running;
    interval = s.interval;
    fits = s.fits;
  }

  pub build_cmd_lem :
      (opcode arg1 arg2 flags cmd_id : ℕ) (h : LudpHost App)
      → Fits (cmd_header opcode arg1 arg2 flags cmd_id)
      → build_cmd opcode arg1 arg2 flags (some cmd_id) h
        ≡ ok (wire (cmd_header opcode arg1 arg2 flags cmd_id)) h
  unfolding build_cmd
  build_cmd_lem opcode arg1 arg2 flags cmd_id h f =
      rw (pack-wire (cmd_header opcode arg1 arg2 flags cmd_id) f)

  -- what the wait for `cmd_id` finds when the thread has read `ds`
  abbrev pub Waited : ℕ → List (List ℕ) → LudpHost App → Bool → LudpHost App → Type 0
  Waited cmd_id ds h success h' =
      (success ≡ any_answers cmd_id ds)
      × (lookup cmd_id h'.pending_cmds
          ≡ some (record { event = any_answers cmd_id ds; response = last_answer cmd_id ds none }))
      × ((ps : List LudpDataPacket) × StreamedBy (data_packets ds) ps h h')

  pub wait_lem :
      (cmd_id : ℕ) (ds : List (List ℕ)) (h : LudpHost App)
      → IsServing (length (data_packets ds)) h
      → lookup cmd_id h.pending_cmds ≡ some unanswered
      → Returns (Waited cmd_id ds h) (wait cmd_id (map datagram ds) h)
  unfolding wait in_thread
  wait_lem cmd_id ds h s e =
      let (u, h', ran, read) =
        Returns-inv (recv_loop_lem ds h s.consistent s.running s.interval s.fits) in
      let (ps, a, k) = read in
      let found = lookup-answer_all cmd_id ds h.pending_cmds unanswered e in
      rw (e, ◌>>=◌, ran, ◌>>=◌)
        (returns (ground (arith, k, found), ground (arith, k, found), (ps, a)))

  -- What one attempt does, with `ds` read while it waits: it succeeds just if its own command is
  -- answered, and it leaves no pending command behind.
  pub record Attempted (ds : List (List ℕ)) (h : LudpHost App) (success : Bool) (h' : LudpHost App)
      : Type 0 where
    pub succeeds : success ≡ any_answers h.next_cmd_id ds
    pub forgotten : lookup h.next_cmd_id h'.pending_cmds ≡ none
    pub next_id : h'.next_cmd_id ≡ h.next_cmd_id + 1
    pub consistent : IsConsistent h'
    pub running : h'.running ≡ h.running
    pub interval : h'.credit_interval ≡ h.credit_interval
    pub window : h'.window_size ≡ h.window_size
    pub size :
        h'.expected_seq + length h'.ooo_heap
        ≤ h.expected_seq + length h.ooo_heap + length (data_packets ds)

  pub attempt_cmd_lem :
      (opcode arg1 arg2 : ℕ) (ds : List (List ℕ)) (h : LudpHost App)
      → Fits (cmd_header opcode arg1 arg2 0x00 h.next_cmd_id)
      → IsServing (length (data_packets ds)) h
      → Returns (Attempted ds h) (attempt_cmd opcode arg1 arg2 (map datagram ds) h)
  unfolding attempt_cmd take_cmd_id issue sendto forget
  attempt_cmd_lem opcode arg1 arg2 ds h f s =
      let pkt = wire (cmd_header opcode arg1 arg2 0x00 h.next_cmd_id) in
      rw
        (
          build_cmd_lem opcode arg1 arg2 0x00 h.next_cmd_id
              (record h { next_cmd_id = h.next_cmd_id + 1 }) f,
          ◌>>=◌,
        )
        (Returns-bind {P = Waited h.next_cmd_id ds (issued h.next_cmd_id pkt h)}
          (wait h.next_cmd_id (map datagram ds)) _
          (wait_lem h.next_cmd_id ds (issued h.next_cmd_id pkt h)
            (issued-IsServing h.next_cmd_id (length (data_packets ds)) pkt h s)
            (ground (arith, lookup-insert h.next_cmd_id h.next_cmd_id unanswered h.pending_cmds)))
          λ success h' (found, _, (ps, a)). returns (record {
            succeeds = found;
            forgotten = ground (arith, lookup-erase h.next_cmd_id h.next_cmd_id h'.pending_cmds);
            next_id = a.same.ids;
            consistent = record {
              above = a.consistent.above;
              indexed = a.consistent.indexed;
              granted = a.consistent.granted;
              accounts = a.consistent.accounts;
              quiet = a.consistent.quiet;
            };
            running = a.same.running;
            interval = a.same.interval;
            window = a.same.window;
            size = a.size;
          }))
