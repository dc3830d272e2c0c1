-- ===== src/Race/Ghost/Unbroken.antt =====
-- What can end the receive thread, while the polling thread skips no gap.
use mini_corundum.Base.{
  ℕ, ◌+◌, ◌<◌, ◌≡◌, ◌≢◌, refl, ⊤, Bool, true, false, List, [], ◌∷◌, All, if◌then◌else◌, Error,
}
use mini_corundum.Host.State.{LudpDataPacket, LudpHost}
use mini_corundum.Host.Poll.{PollLocals}
use mini_corundum.Reassembly.Drain.{IsIndexed}
use mini_corundum.Reassembly.Accept.{IsConsistent}
use mini_corundum.Threads.Room.{HasRoom}
use mini_corundum.Race.Machine.{Next, at, left, broken}
use mini_corundum.Race.Receiver.{Handling}
use mini_corundum.Race.Poller.{Polling}
use mini_corundum.Race.System.{
  Turn, arrives, wakes, receiver_steps, poller_steps, Race, receiver_on, poller_on, arrival,
  wake_up, at_rest, turn, turns,
}
use mini_corundum.Race.Order.Poller.{step_polling-core}
use mini_corundum.Race.Order.Turns.{SkipsNot, SkipsNever}
use mini_corundum.Race.Ghost.Agree.{itself}
use mini_corundum.Race.Ghost.Sound.{Sound, rests, step_handling-Sound, core-Sound, count_in-Sound}

-- a packet that comes in has room below the end of the 32-bit fields
abbrev pub TurnFits : ℕ → Turn → Type 0
TurnFits window (arrives size pkt) = pkt.seq_num + 2 + window < 4294967296
TurnFits window _ = ⊤

module _ {App : Type 0} (window : ℕ) where
  abbrev SoundRace : Race App → Type 0
  SoundRace r = Sound window r.receiver r.shared

  receiver_on-Sound :
      (n : Next Handling ⊤) (r : Race App)
      → Sound window n r.shared
      → SoundRace r
      → SoundRace (receiver_on n r)
  receiver_on-Sound (at p) r s o = step_handling-Sound window p r.shared s
  receiver_on-Sound (left a) r s o = o
  receiver_on-Sound (broken e) r s o = o

  poller_on-Sound :
      (n : Next (Polling × PollLocals) PollLocals) (r : Race App)
      → SkipsNot n
      → SoundRace r
      → SoundRace (poller_on n r)
  poller_on-Sound (at (p, loc)) r q o =
      core-Sound window r.receiver r.shared _ (step_polling-core r.now p loc r.shared q) o
  poller_on-Sound (left a) r q o = o
  poller_on-Sound (broken e) r q o = o

  arrival-Sound :
      (size : ℕ) (pkt : LudpDataPacket) (n : Next Handling ⊤) (r : Race App)
      → pkt.seq_num + 2 + window < 4294967296
      → Sound window n r.shared
      → SoundRace r
      → SoundRace (arrival size pkt n r)
  arrival-Sound size pkt (left a) r fits s o = count_in-Sound window size pkt a r.shared fits s
  arrival-Sound size pkt (at p) r fits s o = o
  arrival-Sound size pkt (broken e) r fits s o = o

  wake_up-Sound :
      (now : ℕ) (n : Next (Polling × PollLocals) PollLocals) (r : Race App)
      → SoundRace r
      → SoundRace (wake_up now n r)
  wake_up-Sound now (left loc) r o = o
  wake_up-Sound now (at p) r o = o
  wake_up-Sound now (broken e) r o = o

  either-Sound :
      (b : Bool) (r r' : Race App) → SoundRace r → SoundRace r' → SoundRace (if b then r else r')
  either-Sound true r r' o o' = o
  either-Sound false r r' o o' = o'

  turn-Sound :
      (t : Turn) (r : Race App)
      → TurnFits window t
      → SkipsNot r.poller
      → SoundRace r
      → SoundRace (turn t r)
  unfolding turn
  turn-Sound (arrives size pkt) r f q o =
      either-Sound r.shared.running _ r (arrival-Sound size pkt r.receiver r f o o) o
  turn-Sound (wakes now) r f q o =
      either-Sound r.shared.running _ r (wake_up-Sound now r.poller r o) o
  turn-Sound receiver_steps r f q o = receiver_on-Sound r.receiver r o o
  turn-Sound poller_steps r f q o = poller_on-Sound r.poller r q o

  turns-Sound :
      (ts : List Turn) (r : Race App)
      → All (TurnFits window) ts
      → SkipsNot r.poller
      → SkipsNever ts r
      → SoundRace r
      → SoundRace (turns ts r)
  unfolding turns
  turns-Sound [] r f q n o = o
  turns-Sound (t ∷ ts) r (f, fs) q (q', n) o =
      turns-Sound ts (turn t r) fs q' n (turn-Sound t r f q o)

  unbroken :
      (n : Next Handling ⊤) (h : LudpHost App) → Sound window n h → (e : Error) → n ≢ broken e
  unbroken (at p) h s e q = cc
  unbroken (left a) h s e q = cc
  unbroken (broken x) h s e q = elim s [ ]

  rested :
      (n : Next Handling ⊤) (h : LudpHost App)
      → Sound window n h
      → n ≡ left tt
      → IsIndexed h.ooo_heap h.out_of_order
  rested (left a) h (rests y s) q = rw (s.heap, s.buffer) (y.consistent.indexed)
  rested (at p) h s q = absurd cc
  rested (broken x) h s q = elim s [ ]

module _ {App : Type 0} where
  -- From a consistent host with a credit interval other than 0, where the packets that come in
  -- have room with the window below 2^32: as long as the polling thread does not come to the skip
  -- of a gap, and whatever order the single steps of the two threads come in, no exception ends
  -- the receive thread, and whenever it waits, the heap lists exactly the numbers of the stored
  -- packets.
  pub turns-unbroken :
      (ts : List Turn) (loc : PollLocals) (h : LudpHost App)
      → IsConsistent h
      → HasRoom h
      → h.credit_interval ≢ 0
      → All (TurnFits h.window_size) ts
      → SkipsNever ts (at_rest loc h)
      → ((e : Error) → (turns ts (at_rest loc h)).receiver ≢ broken e)
        × ((turns ts (at_rest loc h)).receiver ≡ left tt
            → IsIndexed
                (turns ts (at_rest loc h)).shared.ooo_heap
                (turns ts (at_rest loc h)).shared.out_of_order)
  turns-unbroken ts loc h c room nz fits never =
      (unbroken h.window_size _ _ sound, rested h.window_size _ _ sound)
    where
      sound : SoundRace h.window_size (turns ts (at_rest loc h))
      sound = turns-Sound h.window_size ts (at_rest loc h) fits tt never (
          rests (record { consistent = c; room = room; interval = nz; same_window = refl })
            (itself h))
