-- ===== src/Race/Conserved.antt =====
-- How often packets are handed over, with both threads in any order of their steps.
use mini_corundum.Base.{
  ℕ, ◌+◌, ◌-◌, ◌≤◌, ◌≡◌, refl, ⊤, Bool, true, false, some, List, [], ◌∷◌, arith, if◌then◌else◌,
}
use mini_corundum.Host.State.{LudpDataPacket}
use mini_corundum.Host.Poll.{PollLocals}
use mini_corundum.Race.Machine.{Next, at, left, broken}
use mini_corundum.Race.Receiver.{Handling, step_handling}
use mini_corundum.Race.Poller.{Polling, step_polling}
use mini_corundum.Race.System.{
  Turn, arrives, wakes, receiver_steps, poller_steps, Race, receiver_on, poller_on, arrival,
  wake_up, at_rest, turn, turns,
}
use mini_corundum.Race.Copies.{
  recorded, one, copies, stored_copies, held_handling, held_polling, in_hand, Kept,
}
use mini_corundum.Race.KeptSections.{Recorder}
use mini_corundum.Race.KeptThreads.{step_handling-Kept, step_polling-Kept}

-- the packets that come in during some turns
abbrev pub arrived : List Turn → List LudpDataPacket
arrived [] = []
arrived (arrives size pkt ∷ ts) = pkt ∷ arrived ts
arrived (_ ∷ ts) = arrived ts

module _ (test : LudpDataPacket → Bool) where
  -- No more than `bound` copies are in the host and in the hands of both threads.
  record Tally (bound : ℕ) (r : Race (List LudpDataPacket)) : Type 0 where
    few :
        in_hand test (held_handling test) r.receiver
          + in_hand test (held_polling test) r.poller
          + (copies test r.shared.app + stored_copies test r.shared.out_of_order)
        ≤ bound
    recording : r.shared.on_data ≡ some recorded

  receiver_on-Tally :
      (n : Next Handling ⊤) (bound : ℕ) (r : Race (List LudpDataPacket))
      → r.receiver ≡ n
      → Tally bound r
      → Tally bound (receiver_on n r)
  receiver_on-Tally (at p) bound r e t = record {
    few = omega (arith, t.few, k.few, rw e at t.few);
    recording = k.recording;
  }
    where
      k :
          Kept test
            (held_handling test)
            (bound - in_hand test (held_polling test) r.poller)
            (step_handling p r.shared)
      k =
          step_handling-Kept test _ p r.shared
            (record { few = omega (arith, rw e at t.few); recording = t.recording })
  receiver_on-Tally (left a) bound r e t = t
  receiver_on-Tally (broken x) bound r e t = t

  poller_on-Tally :
      (n : Next (Polling × PollLocals) PollLocals) (bound : ℕ) (r : Race (List LudpDataPacket))
      → r.poller ≡ n
      → Tally bound r
      → Tally bound (poller_on n r)
  poller_on-Tally (at (p, loc)) bound r e t = record {
    few = omega (arith, t.few, k.few, rw e at t.few);
    recording = k.recording;
  }
    where
      k :
          Kept test
            (held_polling test)
            (bound - in_hand test (held_handling test) r.receiver)
            (step_polling r.now (p, loc) r.shared)
      k =
          step_polling-Kept test _ r.now p loc r.shared
            (record { few = omega (arith, rw e at t.few); recording = t.recording })
  poller_on-Tally (left a) bound r e t = t
  poller_on-Tally (broken x) bound r e t = t

  arrival-Tally :
      (size : ℕ) (pkt : LudpDataPacket) (n : Next Handling ⊤) (bound : ℕ)
      (r : Race (List LudpDataPacket))
      → r.receiver ≡ n
      → Tally bound r
      → Tally (bound + one test pkt) (arrival size pkt n r)
  arrival-Tally size pkt (left a) bound r e t = record {
    few = omega (arith, t.few, rw e at t.few);
    recording = t.recording;
  }
  arrival-Tally size pkt (at p) bound r e t = record {
    few = omega (arith, t.few);
    recording = t.recording;
  }
  arrival-Tally size pkt (broken x) bound r e t = record {
    few = omega (arith, t.few);
    recording = t.recording;
  }

  wake_up-Tally :
      (now : ℕ) (n : Next (Polling × PollLocals) PollLocals) (bound : ℕ)
      (r : Race (List LudpDataPacket))
      → r.poller ≡ n
      → Tally bound r
      → Tally bound (wake_up now n r)
  wake_up-Tally now (left loc) bound r e t = record {
    few = omega (arith, t.few, rw e at t.few);
    recording = t.recording;
  }
  wake_up-Tally now (at p) bound r e t = t
  wake_up-Tally now (broken x) bound r e t = t

  either-Tally :
      (b : Bool) (bound : ℕ) (r r' : Race (List LudpDataPacket))
      → Tally bound r
      → Tally bound r'
      → Tally bound (if b then r else r')
  either-Tally true bound r r' t t' = t
  either-Tally false bound r r' t t' = t'

  Tally-mono :
      (bound bound' : ℕ) (r : Race (List LudpDataPacket))
      → bound ≤ bound'
      → Tally bound r
      → Tally bound' r
  Tally-mono bound bound' r le t = record {
    few = omega (arith, t.few, le);
    recording = t.recording;
  }

  turn-Tally :
      (t : Turn) (bound : ℕ) (r : Race (List LudpDataPacket))
      → Tally bound r
      → Tally (bound + copies test (arrived (t ∷ []))) (turn t r)
  unfolding turn
  turn-Tally (arrives size pkt) bound r k =
      either-Tally r.shared.running _ _ r
        (Tally-mono (bound + one test pkt) _ _ (omega arith)
          (arrival-Tally size pkt r.receiver bound r refl k))
        (Tally-mono bound _ r (omega arith) k)
  turn-Tally (wakes now) bound r k =
      Tally-mono bound _ _ (omega arith)
        (either-Tally r.shared.running _ _ r (wake_up-Tally now r.poller bound r refl k) k)
  turn-Tally receiver_steps bound r k =
      Tally-mono bound _ _ (omega arith) (receiver_on-Tally r.receiver bound r refl k)
  turn-Tally poller_steps bound r k =
      Tally-mono bound _ _ (omega arith) (poller_on-Tally r.poller bound r refl k)

  copies-arrived :
      (t : Turn) (ts : List Turn)
      → copies test (arrived (t ∷ [])) + copies test (arrived ts) ≡ copies test (arrived (t ∷ ts))
  copies-arrived (arrives size pkt) ts = omega arith
  copies-arrived (wakes now) ts = omega arith
  copies-arrived receiver_steps ts = omega arith
  copies-arrived poller_steps ts = omega arith

  turns-Tally :
      (ts : List Turn) (bound : ℕ) (r : Race (List LudpDataPacket))
      → Tally bound r
      → Tally (bound + copies test (arrived ts)) (turns ts r)
  unfolding turns
  turns-Tally [] bound r k = Tally-mono bound _ r (omega arith) k
  turns-Tally (t ∷ ts) bound r k =
      Tally-mono (bound + copies test (arrived (t ∷ [])) + copies test (arrived ts)) _ _
        (omega (arith, copies-arrived t ts)) (turns-Tally ts _ (turn t r) (turn-Tally t bound r k))

  -- Both threads in any order of their single steps, on a host whose callback records, and with
  -- DATA packets coming in and the polling thread waking up at any time: whatever is asked of
  -- packets, no more packets that meet it are handed over in the end than were handed over or
  -- stored before and came in meanwhile. No packet is handed over twice for one arrival, and none
  -- is made up.
  pub turns-copies :
      (ts : List Turn) (loc : PollLocals) (h : Recorder)
      → h.on_data ≡ some recorded
      → copies test (turns ts (at_rest loc h)).shared.app
        ≤ copies test h.app + stored_copies test h.out_of_order + copies test (arrived ts)
  turns-copies ts loc h e = omega (arith, all.few)
    where
      all :
          Tally
            (copies test h.app + stored_copies test h.out_of_order + copies test (arrived ts))
            (turns ts (at_rest loc h))
      all =
          turns-Tally ts (copies test h.app + stored_copies test h.out_of_order) (at_rest loc h)
            (record { few = omega arith; recording = e })
