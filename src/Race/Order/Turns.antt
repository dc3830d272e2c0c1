-- ===== src/Race/Order/Turns.antt =====
-- The order in which packets are handed over, along turns in which no gap is skipped.
use mini_corundum.Base.{ℕ, ◌≡◌, refl, ⊤, Bool, true, false, some, List, [], ◌∷◌, if◌then◌else◌}
use mini_corundum.Dict.{lookup}
use mini_corundum.Host.State.{LudpDataPacket}
use mini_corundum.Host.Poll.{PollLocals}
use mini_corundum.Race.Machine.{Next, at, left, broken}
use mini_corundum.Race.Receiver.{Handling}
use mini_corundum.Race.Poller.{Polling}
use mini_corundum.Race.System.{
  Turn, arrives, wakes, receiver_steps, poller_steps, Race, receiver_on, poller_on, arrival,
  wake_up, at_rest, turn, turns,
}
use mini_corundum.Race.Copies.{recorded}
use mini_corundum.Race.KeptSections.{Recorder}
use mini_corundum.Race.Order.Known.{CountDown, given_handling, given_at}
use mini_corundum.Race.Order.Receiver.{InOrder, step_handling-InOrder}
use mini_corundum.Race.Order.Poller.{OutsideSkip, core-InOrder, step_polling-core}

-- Where the polling thread stands, it skips no gap.
abbrev pub SkipsNot : Next (Polling × PollLocals) PollLocals → Type 0
SkipsNot (at p) = OutsideSkip p
SkipsNot _ = ⊤

module _ {App : Type 0} where
  -- The polling thread does not come to the skip of a gap during the turns.
  abbrev pub SkipsNever : List Turn → Race App → Type 0
  SkipsNever [] r = ⊤
  SkipsNever (t ∷ ts) r = SkipsNot (turn t r).poller × SkipsNever ts (turn t r)

abbrev Orderly : Race (List LudpDataPacket) → Type 0
Orderly r = InOrder r.receiver r.shared

receiver_on-Orderly :
    (n : Next Handling ⊤) (r : Race (List LudpDataPacket))
    → InOrder n r.shared
    → Orderly r
    → Orderly (receiver_on n r)
receiver_on-Orderly (at p) r f o = step_handling-InOrder p r.shared f
receiver_on-Orderly (left a) r f o = o
receiver_on-Orderly (broken e) r f o = o

poller_on-Orderly :
    (n : Next (Polling × PollLocals) PollLocals) (r : Race (List LudpDataPacket))
    → SkipsNot n
    → Orderly r
    → Orderly (poller_on n r)
poller_on-Orderly (at (p, loc)) r s o =
    core-InOrder r.receiver r.shared _ (step_polling-core r.now p loc r.shared s) o
poller_on-Orderly (left a) r s o = o
poller_on-Orderly (broken e) r s o = o

arrival-Orderly :
    (size : ℕ) (pkt : LudpDataPacket) (n : Next Handling ⊤) (r : Race (List LudpDataPacket))
    → InOrder n r.shared
    → Orderly r
    → Orderly (arrival size pkt n r)
arrival-Orderly size pkt (left a) r f o = record {
  order = f.order;
  point = tt;
  named = f.named;
  recording = f.recording;
}
arrival-Orderly size pkt (at p) r f o = o
arrival-Orderly size pkt (broken e) r f o = o

wake_up-Orderly :
    (now : ℕ) (n : Next (Polling × PollLocals) PollLocals) (r : Race (List LudpDataPacket))
    → Orderly r
    → Orderly (wake_up now n r)
wake_up-Orderly now (left loc) r o = o
wake_up-Orderly now (at p) r o = o
wake_up-Orderly now (broken e) r o = o

either-Orderly :
    (b : Bool) (r r' : Race (List LudpDataPacket))
    → Orderly r
    → Orderly r'
    → Orderly (if b then r else r')
either-Orderly true r r' o o' = o
either-Orderly false r r' o o' = o'

turn-Orderly :
    (t : Turn) (r : Race (List LudpDataPacket)) → SkipsNot r.poller → Orderly r → Orderly (turn t r)
unfolding turn
turn-Orderly (arrives size pkt) r s o =
    either-Orderly r.shared.running _ r (arrival-Orderly size pkt r.receiver r o o) o
turn-Orderly (wakes now) r s o =
    either-Orderly r.shared.running _ r (wake_up-Orderly now r.poller r o) o
turn-Orderly receiver_steps r s o = receiver_on-Orderly r.receiver r o o
turn-Orderly poller_steps r s o = poller_on-Orderly r.poller r s o

turns-Orderly :
    (ts : List Turn) (r : Race (List LudpDataPacket))
    → SkipsNot r.poller
    → SkipsNever ts r
    → Orderly r
    → Orderly (turns ts r)
unfolding turns
turns-Orderly [] r s n o = o
turns-Orderly (t ∷ ts) r s (s', n) o = turns-Orderly ts (turn t r) s' n (turn-Orderly t r s o)

-- From a host that records, whose packets so far are in order up to `expected_seq`, and whose
-- stored packets stand under their numbers: as long as the polling thread does not come to the
-- skip of a gap, and whatever order the single steps of the two threads come in, the packets
-- handed over are numbered 0, 1, 2, ... without a gap or a repetition, and when the receive thread
-- waits, up to `expected_seq`.
pub turns-CountDown :
    (ts : List Turn) (loc : PollLocals) (h : Recorder)
    → h.on_data ≡ some recorded
    → CountDown h.expected_seq h.app
    → ((k : ℕ) (v : LudpDataPacket) → lookup k h.out_of_order ≡ some v → v.seq_num ≡ k)
    → SkipsNever ts (at_rest loc h)
    → (n : ℕ) × CountDown n (turns ts (at_rest loc h)).shared.app
      × ((turns ts (at_rest loc h)).receiver ≡ left tt
          → n ≡ (turns ts (at_rest loc h)).shared.expected_seq)
turns-CountDown ts loc h e c named never = (
  given_at given_handling (turns ts (at_rest loc h)).receiver
      (turns ts (at_rest loc h)).shared.expected_seq,
  all.order,
  λ idle. rw idle refl,
)
  where
    all : Orderly (turns ts (at_rest loc h))
    all =
        turns-Orderly ts (at_rest loc h) tt never
          (record { order = c; point = tt; named = named; recording = e })
