-- ===== src/Logger/Session.antt =====
-- `run_logger` of sw/ludp_host.py: a whole session of the data logger. What goes on around the
-- calls is given: what the two threads do between `start` and `reset_state` (the drain only takes
-- datagrams off the socket that the receive thread would have read), while the host acquires, and
-- after `send_stop`; and what the receive thread reads during the two commands. The datagram that a
-- blocked `recvfrom` still takes after `running = False` counts as the last one before it.
use mini_corundum.Base.{
  ℕ, List, map, Action, ◌>>=◌, ◌>>◌, pure, get, modify, some, if◌then◌else◌, ⊤,
}
use mini_corundum.Host.State.{LudpHost, new_host, start, clear_running, reset_state, get_stats}
use mini_corundum.Host.Packets.{send_credit}
use mini_corundum.Host.Receive.{datagram}
use mini_corundum.Host.Poll.{PollLocals, poll_start}
use mini_corundum.Host.Commands.{send_start, send_stop}
use mini_corundum.Threads.{Event, received, woken, run}
use mini_corundum.Logger.{Logger, opened, on_data, flush}

-- the work of a thread: a datagram, or a round of the polling thread at a time
pub data Work : Type 0 where
  reads : List ℕ → Work
  polls : ℕ → Work

abbrev pub event : Work → Event
event (reads bytes) = received bytes
event (polls now) = woken now

pub record Surroundings : Type 0 where
  pub before : List Work
  pub starting : ℕ → List (List ℕ)
  pub acquiring : List Work
  pub stopping : ℕ → List (List ℕ)
  pub late : List Work

module _ (s : Surroundings) where
  -- the threads' last work, and the flag that `host.stop()` clears; the socket is closed then
  unfoldable pub close : PollLocals → Action (LudpHost Logger) ⊤
  close loc = do run (map event s.late) loc; clear_running

  -- what follows a START that succeeded; the status is that of the program
  unfoldable pub acquire : PollLocals → Action (LudpHost Logger) ℕ
  acquire loc = do
    h ← get
    send_credit h.abs_credit
    loc' ← run (map event s.acquiring) loc
    send_stop (λ n. map datagram (s.stopping n))
    get_stats
    close loc'
    modify (λ h. record h { app = flush h.app })
    pure 0

  -- what follows a START that failed: nothing is flushed
  unfoldable pub give_up : PollLocals → Action (LudpHost Logger) ℕ
  give_up loc = do close loc; pure 1

  unfoldable pub run_logger : ℕ → Action (LudpHost Logger) ℕ
  run_logger now = do
    start now
    loc ← poll_start now
    loc' ← run (map event s.before) loc
    reset_state
    started ← send_start (λ n. map datagram (s.starting n))
    if started then acquire loc' else give_up loc'

-- the host of the session polls every 5 ms
abbrev pub logger_host : ℕ → ℕ → LudpHost Logger
logger_host window interval = new_host window interval 5000 (some on_data) opened
