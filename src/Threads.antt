-- ===== src/Threads.antt =====
-- The threads of a host together: the receive thread and the polling thread of `start`, and the
-- calls that the application's thread makes. An event is one datagram, one round of the polling
-- thread, or one call, each run to its end; a list of events is an interleaving.
pub mod Room
pub mod Ran
pub mod Moves
pub mod Steps
pub mod Safety
pub mod Calls
pub mod Rounds
pub mod Serving
pub mod Ready
use mini_corundum.Base.{ℕ, List, [], ◌∷◌, none, some, Action, ◌>>=◌, ◌>>◌, pure, get, if◌then◌else◌}
use mini_corundum.Host.State.{LudpHost}
use mini_corundum.Host.Packets.{take_cmd_id, build_cmd, send_credit}
use mini_corundum.Host.Receive.{recv_datagram}
use mini_corundum.Host.Poll.{PollLocals, poll_round}
use mini_corundum.Host.Commands.{issue, forget}

-- `commanded` is a command up to its sending, `forgotten` the end of its wait.
pub data Event : Type 0 where
  received : List ℕ → Event
  woken : ℕ → Event
  commanded : ℕ → ℕ → ℕ → ℕ → Event
  forgotten : ℕ → Event
  granted : ℕ → Event

module _ {App : Type 0} where
  unfoldable pub step : Event → PollLocals → Action (LudpHost App) PollLocals
  step (received bytes) loc = do
    h ← get
    if h.running then (do recv_datagram bytes; pure loc) else pure loc
  step (woken now) loc = do h ← get; if h.running then poll_round now loc else pure loc
  step (commanded opcode arg1 arg2 flags) loc = do
    cmd_id ← take_cmd_id
    pkt ← build_cmd opcode arg1 arg2 flags (some cmd_id)
    issue cmd_id pkt
    pure loc
  step (forgotten cmd_id) loc = do forget cmd_id; pure loc
  step (granted abs_credit) loc = do send_credit abs_credit; pure loc

  unfoldable pub run : List Event → PollLocals → Action (LudpHost App) PollLocals
  run [] loc = pure loc
  run (e ∷ es) loc = do loc ← step e loc; run es loc
