-- ===== src/Shell/Serve.antt =====
-- The shell on lines whose numbers fit.
use mathlib.Core.List.{append-nil}
use mini_corundum.Base.{
  ℕ, ◌+◌, ◌≤◌, ◌<◌, ◌≡◌, refl, ⊤, Bool, true, false, some, List, [], ◌∷◌, ◌++◌, map, All, length,
  arith, ◌>>=◌, ◌>>◌, pure, if◌then◌else◌, Action, Returns, returns, Returns-bind, Bool-cases, inl,
  inr,
}
use mini_corundum.Text.{Text, codes, same}
use mini_corundum.Host.State.{LudpDataPacket, LudpHost, get_stats}
use mini_corundum.Host.Packets.{cmd_start, cmd_stop, cmd_write_reg}
use mini_corundum.Host.Receive.{datagram}
use mini_corundum.Host.Commands.{send_start, send_stop, read_reg, write_reg, send_cmd_wait_ack}
use mini_corundum.Reassembly.Credit.{send_credit_lem, credited}
use mini_corundum.Reassembly.Stream.{data_packets}
use mini_corundum.Threads.{received}
use mini_corundum.Threads.Ran.{Among-append-left, RanBy, RanBy-nil, RanBy-trans, RanBy-weaken}
use mini_corundum.Threads.Moves.{touched-RanBy}
use mini_corundum.Threads.Steps.{EventFits}
use mini_corundum.Threads.Serving.{
  rounds_log, rounds_calls, Handed, read_reg-Handed, send_cmd_wait_ack-Handed,
}
use mini_corundum.Threads.Ready.{IsReady}
use mini_corundum.Shell.Words.{int_any}
use mini_corundum.Shell.{is_quit, execute, command, do_start, do_read, do_write, do_credit}

-- The text is a number below the bound.
abbrev pub Below : ℕ → Text → Type 0
Below bound x = (n : ℕ) × (int_any x ≡ some n) × (n < bound)

abbrev pub When : Bool → Type 0 → Type 0
When true P = P
When false P = ⊤

-- The numbers that the command asks for are there, and fit their fields.
abbrev pub NumbersFit : List Text → Type 0
NumbersFit (c ∷ x ∷ []) =
    When (same c (codes "read")) (Below 4294967296 x)
    × When (same c (codes "credit")) (Below 4294967296 x)
NumbersFit (c ∷ x ∷ y ∷ []) = When (same c (codes "write")) (Below 4294967296 x × Below 65536 y)
NumbersFit words = ⊤

given : {P : Type 0} (b : Bool) → b ≡ true → When b P → P
given true e p = p
given false e p = absurd (ground arith)

module _ {App : Type 0} where
  -- a branch for each outcome of a test
  branch :
      {A : Type 0} {P : A → LudpHost App → Type 0} (b : Bool) (m k : Action (LudpHost App) A)
      (h : LudpHost App)
      → (b ≡ true → Returns P (m h))
      → Returns P (k h)
      → Returns P ((if b then m else k) h)
  branch true m k h r s = r refl
  branch false m k h r s = s

  module _ (ds : ℕ → List (List ℕ)) (window : ℕ) (h : LudpHost App)
      (r : IsReady window (rounds_calls 3 0 ds) h)
      (fits : (n : ℕ) → All (EventFits window) (map received (ds n))) where
    Serves : Action (LudpHost App) ⊤ → Type 0
    Serves m = Returns (Handed (rounds_log 3 0 ds) (rounds_calls 3 0 ds) h) (m h)

    weaker :
        (calls : ℕ) (h' : LudpHost App)
        → calls ≤ rounds_calls 3 0 ds
        → RanBy [] calls [] h h'
        → RanBy (rounds_log 3 0 ds) (rounds_calls 3 0 ds) [] h h'
    weaker calls h' le a = RanBy-weaken [] _ calls _ [] h h' (λ q i. absurd i) le a

    unchanged : Serves (pure tt)
    unfolding Serves
    unchanged = returns ([], weaker 0 h (omega arith) (RanBy-nil h r.consistent r.room))

    credited-RanBy :
        (log : List LudpDataPacket) (calls n : ℕ) (ps : List LudpDataPacket) (g : LudpHost App)
        → RanBy log calls ps h g
        → RanBy log calls (ps ++ []) h (credited n g)
    credited-RanBy log calls n ps g a =
        RanBy-weaken (log ++ []) log (calls + 0) calls (ps ++ []) h _
          (λ q i. rw (append-nil log) at i) (omega arith)
          (RanBy-trans log [] calls 0 ps [] h g _ a (
            touched-RanBy [] 0 g.next_cmd_id _ g.running g.pending_cmds (g.stats.credits_sent + 1) g
              (omega arith) a.consistent a.room))

    serves_command :
        (opcode arg1 arg2 : ℕ)
        → opcode < 65536
        → arg1 < 4294967296
        → arg2 < 65536
        → Returns
            (Handed (rounds_log 3 0 ds) (rounds_calls 3 0 ds) h)
            (send_cmd_wait_ack opcode arg1 arg2 3 (λ n. map datagram (ds n)) h)
    serves_command opcode arg1 arg2 o a b =
        send_cmd_wait_ack-Handed opcode arg1 arg2 3 ds h o a b (omega (arith, r.ids)) r.consistent
          r.room r.interval (λ n. rw (r.window_kept) (fits n))

    serves_start : Serves (do_start (λ n. map datagram (ds n)))
    unfolding Serves do_start send_start
    serves_start =
        Returns-bind {P = Handed (rounds_log 3 0 ds) (rounds_calls 3 0 ds) h}
          (send_start (λ n. map datagram (ds n))) _
          (serves_command cmd_start 0 0 (omega arith) (omega arith) (omega arith))
          λ started g (ps, a). elim (Bool-cases started) [
            | inl up ↦
                rw
                  (
                    up,
                    ◌>>=◌,
                    send_credit_lem g.abs_credit g
                        (omega (arith, a.consistent.granted, a.room.now)),
                  )
                  (returns (ps ++ [], credited-RanBy _ _ g.abs_credit ps g a))
            | inr down ↦ rw down (returns (ps, a))
          ]

    serves_stop : Serves (send_stop (λ n. map datagram (ds n)) >> pure tt)
    unfolding Serves send_stop
    serves_stop =
        Returns-bind {P = Handed (rounds_log 3 0 ds) (rounds_calls 3 0 ds) h}
          (send_stop (λ n. map datagram (ds n))) _
          (serves_command cmd_stop 0 0 (omega arith) (omega arith) (omega arith)) λ _ g a. returns a

    serves_stats : Serves (get_stats >> pure tt)
    unfolding Serves get_stats
    serves_stats = returns ([], weaker 0 h (omega arith) (RanBy-nil h r.consistent r.room))

    serves_read : (x : Text) → Below 4294967296 x → Serves (do_read x (λ n. map datagram (ds n)))
    unfolding Serves do_read
    serves_read x (addr, e, b) =
        rw (e, ◌>>=◌)
          (Returns-bind {P = Handed (data_packets (ds 0)) (length (ds 0) + 1) h}
            (read_reg addr (map datagram (ds 0))) _
            (read_reg-Handed addr (ds 0) h b r.consistent r.room r.interval (omega (arith, r.ids))
              (rw (r.window_kept) (fits 0)))
            λ _ g (ps, a). returns (
              ps,
              RanBy-weaken (data_packets (ds 0)) _ (length (ds 0) + 1) _ ps h g
                  (λ q i. Among-append-left q (data_packets (ds 0)) (rounds_log 2 1 ds) i)
                  (omega arith) a,
            ))

    serves_write :
        (x y : Text)
        → Below 4294967296 x
        → Below 65536 y
        → Serves (do_write x y (λ n. map datagram (ds n)))
    unfolding Serves do_write write_reg
    serves_write x y (addr, e, b) (value, f, d) =
        rw (e, f, ◌>>=◌)
          (Returns-bind {P = Handed (rounds_log 3 0 ds) (rounds_calls 3 0 ds) h}
            (write_reg addr value (λ n. map datagram (ds n))) _
            (serves_command cmd_write_reg addr value (omega arith) b d) λ _ g a. returns a)

    serves_credit : (x : Text) → Below 4294967296 x → Serves (do_credit x)
    unfolding Serves do_credit
    serves_credit x (n, e, b) =
        rw (e, ◌>>=◌, send_credit_lem n h b)
          (returns (
            [],
            weaker 0 _ (omega arith) (credited-RanBy [] 0 n [] h (RanBy-nil h r.consistent r.room)),
          ))

    -- a branch for each outcome of a test
    test :
        (b : Bool) (m k : Action (LudpHost App) ⊤)
        → (b ≡ true → Serves m)
        → Serves k
        → Serves (if b then m else k)
    unfolding Serves
    test b m k p q = branch b m k h p q

    -- a command whose numbers fit
    command_lem :
        (c : Text) (args : List Text)
        → NumbersFit (c ∷ args)
        → Serves (command c args (λ n. map datagram (ds n)))
    unfolding command
    command_lem c [] f =
        test _ _ _ (λ _. serves_start)
          (test _ _ _ (λ _. serves_stop) (test _ _ _ (λ _. serves_stats) unchanged))
    command_lem c (x ∷ []) f =
        test _ _ _ (λ _. serves_start)
          (test _ _ _ (λ _. serves_stop)
            (test _ _ _ (λ e. serves_read x (given (same c (codes "read")) e f.0))
              (test _ _ _ (λ e. serves_credit x (given (same c (codes "credit")) e f.1))
                (test _ _ _ (λ _. serves_stats) unchanged))))
    command_lem c (x ∷ y ∷ []) f =
        test _ _ _ (λ _. serves_start)
          (test _ _ _ (λ _. serves_stop)
            (test _ _ _
              (λ e. let (a, b) = given (same c (codes "write")) e f in serves_write x y a b)
              (test _ _ _ (λ _. serves_stats) unchanged)))
    command_lem c (x ∷ y ∷ z ∷ more) f =
        test _ _ _ (λ _. serves_start)
          (test _ _ _ (λ _. serves_stop) (test _ _ _ (λ _. serves_stats) unchanged))

    -- the words of a line, and whether the shell goes on
    pub execute_lem :
        (words : List Text)
        → NumbersFit words
        → Returns
            (Handed (rounds_log 3 0 ds) (rounds_calls 3 0 ds) h)
            (execute words (λ n. map datagram (ds n)) h)
    unfolding execute Serves
    execute_lem [] f = returns ([], weaker 0 h (omega arith) (RanBy-nil h r.consistent r.room))
    execute_lem (c ∷ args) f =
        branch (is_quit c) _ _ h
          (λ _. returns ([], weaker 0 h (omega arith) (RanBy-nil h r.consistent r.room)))
          (Returns-bind {P = Handed (rounds_log 3 0 ds) (rounds_calls 3 0 ds) h}
            (command c args (λ n. map datagram (ds n))) _ (command_lem c args f) λ _ g a. returns a)
