-- ===== src/Race/Counters/Turns.antt =====
-- The counters along turns.
use mini_corundum.Base.{
  ℕ, ◌+◌, ◌≡◌, refl, ⊤, Bool, true, false, some, List, [], ◌∷◌, length, arith, if◌then◌else◌,
}
use mini_corundum.Host.State.{LudpDataPacket}
use mini_corundum.Host.Poll.{PollLocals}
use mini_corundum.Race.Machine.{Next, at, left, broken}
use mini_corundum.Race.Receiver.{Handling, step_handling}
use mini_corundum.Race.Poller.{Polling, step_polling}
use mini_corundum.Race.System.{
  Turn, arrives, wakes, receiver_steps, poller_steps, Race, receiver_on, poller_on, arrival,
  wake_up, at_rest, turn, turns,
}
use mini_corundum.Race.Copies.{recorded}
use mini_corundum.Race.KeptSections.{Recorder}
use mini_corundum.Race.Counters.Exact.{
  calls_handling, calls_polling, owes_handling, owes_polling, count_at, Exact,
}
use mini_corundum.Race.Counters.Steps.{step_handling-Exact, step_polling-Exact}

module _ (given processed sent credits : ℕ) where
  record Counted (r : Race (List LudpDataPacket)) : Type 0 where
    calls :
        r.shared.stats.packets_processed + given
        ≡ length r.shared.app
          + count_at calls_handling r.receiver
          + count_at calls_polling r.poller
          + processed
    grants :
        length r.shared.sent + credits
        ≡ r.shared.stats.credits_sent
          + count_at owes_handling r.receiver
          + count_at owes_polling r.poller
          + sent
    recording : r.shared.on_data ≡ some recorded

  receiver_on-Counted :
      (n : Next Handling ⊤) (r : Race (List LudpDataPacket))
      → r.receiver ≡ n
      → Counted r
      → Counted (receiver_on n r)
  receiver_on-Counted (at p) r e c = record {
    calls = omega (arith, after.calls_counted);
    grants = omega (arith, after.credits_counted);
    recording = after.recording;
  }
    where
      after :
          Exact calls_handling owes_handling given
            (count_at calls_polling r.poller + processed)
            (count_at owes_polling r.poller + sent)
            credits
            (step_handling p r.shared)
      after = step_handling-Exact given _ _ credits p r.shared (record {
        calls_counted = omega (arith, rw e at c.calls);
        credits_counted = omega (arith, rw e at c.grants);
        recording = c.recording;
      })
  receiver_on-Counted (left a) r e c = c
  receiver_on-Counted (broken x) r e c = c

  poller_on-Counted :
      (n : Next (Polling × PollLocals) PollLocals) (r : Race (List LudpDataPacket))
      → r.poller ≡ n
      → Counted r
      → Counted (poller_on n r)
  poller_on-Counted (at (p, loc)) r e c = record {
    calls = omega (arith, after.calls_counted);
    grants = omega (arith, after.credits_counted);
    recording = after.recording;
  }
    where
      after :
          Exact calls_polling owes_polling given
            (count_at calls_handling r.receiver + processed)
            (count_at owes_handling r.receiver + sent)
            credits
            (step_polling r.now (p, loc) r.shared)
      after = step_polling-Exact given _ _ credits r.now p loc r.shared (record {
        calls_counted = omega (arith, rw e at c.calls);
        credits_counted = omega (arith, rw e at c.grants);
        recording = c.recording;
      })
  poller_on-Counted (left a) r e c = c
  poller_on-Counted (broken x) r e c = c

  arrival-Counted :
      (size : ℕ) (pkt : LudpDataPacket) (n : Next Handling ⊤) (r : Race (List LudpDataPacket))
      → r.receiver ≡ n
      → Counted r
      → Counted (arrival size pkt n r)
  arrival-Counted size pkt (left a) r e c = record {
    calls = rw e at c.calls;
    grants = rw e at c.grants;
    recording = c.recording;
  }
  arrival-Counted size pkt (at p) r e c = c
  arrival-Counted size pkt (broken x) r e c = c

  wake_up-Counted :
      (now : ℕ) (n : Next (Polling × PollLocals) PollLocals) (r : Race (List LudpDataPacket))
      → r.poller ≡ n
      → Counted r
      → Counted (wake_up now n r)
  wake_up-Counted now (left loc) r e c = record {
    calls = rw e at c.calls;
    grants = rw e at c.grants;
    recording = c.recording;
  }
  wake_up-Counted now (at p) r e c = c
  wake_up-Counted now (broken x) r e c = c

  either-Counted :
      (b : Bool) (r r' : Race (List LudpDataPacket))
      → Counted r
      → Counted r'
      → Counted (if b then r else r')
  either-Counted true r r' c c' = c
  either-Counted false r r' c c' = c'

  turn-Counted : (t : Turn) (r : Race (List LudpDataPacket)) → Counted r → Counted (turn t r)
  unfolding turn
  turn-Counted (arrives size pkt) r c =
      either-Counted r.shared.running _ r (arrival-Counted size pkt r.receiver r refl c) c
  turn-Counted (wakes now) r c =
      either-Counted r.shared.running _ r (wake_up-Counted now r.poller r refl c) c
  turn-Counted receiver_steps r c = receiver_on-Counted r.receiver r refl c
  turn-Counted poller_steps r c = poller_on-Counted r.poller r refl c

  turns-Counted :
      (ts : List Turn) (r : Race (List LudpDataPacket)) → Counted r → Counted (turns ts r)
  unfolding turns
  turns-Counted [] r c = c
  turns-Counted (t ∷ ts) r c = turns-Counted ts (turn t r) (turn-Counted t r c)

-- On a host that records, whatever order the single steps of the two threads come in: when both
-- threads wait, `packets_processed` has grown by exactly the packets handed over, and
-- `credits_sent` by exactly the datagrams sent. The increments under the lock are not lost.
pub turns-counters :
    (ts : List Turn) (loc loc' : PollLocals) (h : Recorder)
    → h.on_data ≡ some recorded
    → (turns ts (at_rest loc h)).receiver ≡ left tt
    → (turns ts (at_rest loc h)).poller ≡ left loc'
    → ((turns ts (at_rest loc h)).shared.stats.packets_processed + length h.app
        ≡ length (turns ts (at_rest loc h)).shared.app + h.stats.packets_processed)
      × (length (turns ts (at_rest loc h)).shared.sent + h.stats.credits_sent
          ≡ (turns ts (at_rest loc h)).shared.stats.credits_sent + length h.sent)
turns-counters ts loc loc' h e idle waits =
    (omega (arith, rw (idle, waits) at all.calls), omega (arith, rw (idle, waits) at all.grants))
  where
    all :
        Counted
          (length h.app)
          h.stats.packets_processed
          (length h.sent)
          h.stats.credits_sent
          (turns ts (at_rest loc h))
    all =
        turns-Counted _ _ _ _ ts (at_rest loc h)
          (record { calls = omega arith; grants = omega arith; recording = e })
