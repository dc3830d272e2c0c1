-- ===== src/Race/System.antt =====
-- Both threads on one host, in any order of their steps.
use mini_corundum.Base.{ℕ, if◌then◌else◌, [], ◌∷◌, List, ⊤}
use mini_corundum.Host.State.{LudpDataPacket, LudpHost}
use mini_corundum.Host.Poll.{PollLocals}
use mini_corundum.Race.Machine.{Next, at, left, Config}
use mini_corundum.Race.Receiver.{Handling, count_in, step_handling}
use mini_corundum.Race.Poller.{Polling, note_data, step_polling}

-- What happens next: a DATA packet reaches the receive thread, which waits for it, or the polling
-- thread wakes up; or a thread takes one step of its code.
pub data Turn : Type 0 where
  arrives : ℕ → LudpDataPacket → Turn
  wakes : ℕ → Turn
  receiver_steps : Turn
  poller_steps : Turn

-- `now` is the time of the polling thread's round.
pub record Race (App : Type 0) : Type 0 where
  pub receiver : Next Handling ⊤
  pub poller : Next (Polling × PollLocals) PollLocals
  pub now : ℕ
  pub shared : LudpHost App

module _ {App : Type 0} where
  -- the host at rest: both threads wait
  abbrev pub at_rest : PollLocals → LudpHost App → Race App
  at_rest loc h = record { receiver = left tt; poller = left loc; now = 0; shared = h }

  abbrev pub receiver_at : Race App → Config (LudpHost App) Handling ⊤ → Race App
  receiver_at r c = record r { receiver = c.0; shared = c.1 }

  abbrev pub poller_at :
      Race App → Config (LudpHost App) (Polling × PollLocals) PollLocals → Race App
  poller_at r c = record r { poller = c.0; shared = c.1 }

  -- A packet that comes while the receive thread is busy is none of its turns yet.
  abbrev pub arrival : ℕ → LudpDataPacket → Next Handling ⊤ → Race App → Race App
  arrival size pkt (left done) r = record r { receiver = at (count_in size pkt) }
  arrival size pkt busy r = r

  abbrev pub wake_up : ℕ → Next (Polling × PollLocals) PollLocals → Race App → Race App
  wake_up now (left loc) r = record r { poller = at (note_data, loc); now = now }
  wake_up now busy r = r

  abbrev pub receiver_on : Next Handling ⊤ → Race App → Race App
  receiver_on (at p) r = receiver_at r (step_handling p r.shared)
  receiver_on still r = r

  abbrev pub poller_on : Next (Polling × PollLocals) PollLocals → Race App → Race App
  poller_on (at p) r = poller_at r (step_polling r.now p r.shared)
  poller_on still r = r

  unfoldable pub turn : Turn → Race App → Race App
  turn (arrives size pkt) r = if r.shared.running then arrival size pkt r.receiver r else r
  turn (wakes now) r = if r.shared.running then wake_up now r.poller r else r
  turn receiver_steps r = receiver_on r.receiver r
  turn poller_steps r = poller_on r.poller r

  unfoldable pub turns : List Turn → Race App → Race App
  turns [] r = r
  turns (t ∷ ts) r = turns ts (turn t r)
