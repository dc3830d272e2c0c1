-- ===== src/Race/Order/Soon.antt =====
-- The order in which packets are handed over, while the rounds of the polling thread lie within 5 ms.
use mini_corundum.Base.{ℕ, ◌≡◌, ⊤, Bool, true, false, none, some, List, [], ◌∷◌, All, if◌then◌else◌}
use mini_corundum.Dict.{lookup}
use mini_corundum.Host.State.{LudpDataPacket}
use mini_corundum.Host.Poll.{PollLocals}
use mini_corundum.Race.Machine.{Next, at, left, broken}
use mini_corundum.Race.Receiver.{Handling}
use mini_corundum.Race.Poller.{Polling}
use mini_corundum.Race.System.{
  Turn, arrives, wakes, receiver_steps, poller_steps, Race, receiver_on, poller_on, arrival,
  wake_up, at_rest, turn, turns,
}
use mini_corundum.Race.Copies.{recorded}
use mini_corundum.Race.KeptSections.{Recorder}
use mini_corundum.Race.Order.Known.{CountDown}
use mini_corundum.Race.Order.Turns.{SkipsNot, SkipsNever, turns-CountDown}
use mini_corundum.Race.Order.Early.{IsSoon, WakesSoon, IsEarly, step_polling-IsEarly}

early-SkipsNot :
    (first now : ℕ) (n : Next (Polling × PollLocals) PollLocals) → IsEarly first now n → SkipsNot n
early-SkipsNot first now (at (p, loc)) k = k.0
early-SkipsNot first now (left loc) k = tt
early-SkipsNot first now (broken x) k = tt

module _ {App : Type 0} (first : ℕ) where
  abbrev EarlyRace : Race App → Type 0
  EarlyRace r = IsEarly first r.now r.poller

  poller_on-IsEarly :
      (n : Next (Polling × PollLocals) PollLocals) (r : Race App)
      → IsEarly first r.now n
      → EarlyRace r
      → EarlyRace (poller_on n r)
  poller_on-IsEarly (at (p, loc)) r e k = step_polling-IsEarly first r.now p loc r.shared e
  poller_on-IsEarly (left loc) r e k = k
  poller_on-IsEarly (broken x) r e k = k

  receiver_on-IsEarly :
      (n : Next Handling ⊤) (r : Race App) → EarlyRace r → EarlyRace (receiver_on n r)
  receiver_on-IsEarly (at p) r k = k
  receiver_on-IsEarly (left a) r k = k
  receiver_on-IsEarly (broken x) r k = k

  arrival-IsEarly :
      (size : ℕ) (pkt : LudpDataPacket) (n : Next Handling ⊤) (r : Race App)
      → EarlyRace r
      → EarlyRace (arrival size pkt n r)
  arrival-IsEarly size pkt (at p) r k = k
  arrival-IsEarly size pkt (left a) r k = k
  arrival-IsEarly size pkt (broken x) r k = k

  wake_up-IsEarly :
      (now : ℕ) (n : Next (Polling × PollLocals) PollLocals) (r : Race App)
      → IsSoon first now
      → IsEarly first r.now n
      → EarlyRace r
      → EarlyRace (wake_up now n r)
  wake_up-IsEarly now (left loc) r t e k = (tt, e, t)
  wake_up-IsEarly now (at p) r t e k = k
  wake_up-IsEarly now (broken x) r t e k = k

  either-EarlyRace :
      (b : Bool) (r r' : Race App) → EarlyRace r → EarlyRace r' → EarlyRace (if b then r else r')
  either-EarlyRace true r r' k k' = k
  either-EarlyRace false r r' k k' = k'

  turn-EarlyRace :
      (t : Turn) (r : Race App) → WakesSoon first t → EarlyRace r → EarlyRace (turn t r)
  unfolding turn
  turn-EarlyRace (arrives size pkt) r s k =
      either-EarlyRace r.shared.running _ r (arrival-IsEarly size pkt r.receiver r k) k
  turn-EarlyRace (wakes now) r s k =
      either-EarlyRace r.shared.running _ r (wake_up-IsEarly now r.poller r s k k) k
  turn-EarlyRace receiver_steps r s k = receiver_on-IsEarly r.receiver r k
  turn-EarlyRace poller_steps r s k = poller_on-IsEarly r.poller r k k

  early-SkipsNever :
      (ts : List Turn) (r : Race App) → All (WakesSoon first) ts → EarlyRace r → SkipsNever ts r
  early-SkipsNever [] r s k = tt
  early-SkipsNever (t ∷ ts) r (s, ss) k =
      let next = turn-EarlyRace t r s k in
      (
        early-SkipsNot first (turn t r).now (turn t r).poller next,
        early-SkipsNever ts (turn t r) ss next,
      )

-- From a host that records, whose packets so far are in order up to `expected_seq`, whose stored
-- packets stand under their numbers, and with no gap seen yet: if the polling thread's rounds all
-- begin within 5 ms, then whatever order the single steps of the two threads come in, the packets
-- handed over are numbered 0, 1, 2, ... without a gap or a repetition, and when the receive thread
-- waits, up to `expected_seq`.
pub turns-CountDown_soon :
    (first : ℕ) (ts : List Turn) (loc : PollLocals) (h : Recorder)
    → h.on_data ≡ some recorded
    → CountDown h.expected_seq h.app
    → ((k : ℕ) (v : LudpDataPacket) → lookup k h.out_of_order ≡ some v → v.seq_num ≡ k)
    → loc.gap_stall_start ≡ none
    → All (WakesSoon first) ts
    → (n : ℕ) × CountDown n (turns ts (at_rest loc h)).shared.app
      × ((turns ts (at_rest loc h)).receiver ≡ left tt
          → n ≡ (turns ts (at_rest loc h)).shared.expected_seq)
turns-CountDown_soon first ts loc h e c named calm soon =
    turns-CountDown ts loc h e c named (early-SkipsNever first ts (at_rest loc h) soon (rw calm tt))
