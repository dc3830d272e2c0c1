-- ===== src/Race/Chances.antt =====
-- What some order of the steps of both threads leads to.
use mini_corundum.Base.{⊤}
use mini_corundum.Host.State.{LudpHost}
use mini_corundum.Host.Poll.{PollLocals}
use mini_corundum.Race.Machine.{Config, Reaches, stay, go}
use mini_corundum.Race.Receiver.{Handling, step_handling}
use mini_corundum.Race.Poller.{Polling, step_polling}
use mini_corundum.Race.System.{
  Turn, receiver_steps, poller_steps, Race, receiver_at, poller_at, turn,
}

module _ {App : Type 0} where
  -- Some turns lead from the race to one of the kind.
  pub data Possible (P : Race App → Type 0) : Race App → Type 0 where
    now_so : {r : Race App} → P r → Possible P r
    turned : (t : Turn) {r : Race App} → Possible P (turn t r) → Possible P r

  module _ {P : Race App → Type 0} (r : Race App) where
    -- Steps of a thread alone are steps of the race.
    pub receiver_runs :
        {c d : Config (LudpHost App) Handling ⊤}
        → Reaches step_handling c d
        → Possible P (receiver_at r d)
        → Possible P (receiver_at r c)
    unfolding turn
    receiver_runs stay k = k
    receiver_runs (go q) k = turned receiver_steps (receiver_runs q k)

    pub poller_runs :
        {c d : Config (LudpHost App) (Polling × PollLocals) PollLocals}
        → Reaches (step_polling r.now) c d
        → Possible P (poller_at r d)
        → Possible P (poller_at r c)
    unfolding turn
    poller_runs stay k = k
    poller_runs (go q) k = turned poller_steps (poller_runs q k)
