-- ===== src/Examples/Racing.antt =====
-- Both threads at concrete inputs, step by step.
use mini_corundum.Base.{
  Error, All, ◌≢◌, length, zero, suc, ℕ, ◌≡◌, ◌≤◌, ◌+◌, refl, true, some, List, [], ◌∷◌, ◌==◌,
  arith, ok, index_error,
}
use mini_corundum.Host.State.{LudpDataPacket, initial_stats}
use mini_corundum.Host.Receive.{accept, heappush}
use mini_corundum.Race.Machine.{left, broken}
use mini_corundum.Race.Receiver.{step_handling}
use mini_corundum.Race.Poller.{step_polling}
use mini_corundum.Race.System.{
  Turn, arrives, wakes, receiver_steps, poller_steps, at_rest, turns, turn,
}
use mini_corundum.Race.Loops.{step_handing, step_dropping, step_draining, step_granting}
use mini_corundum.Dict.{insert}
use mini_corundum.Race.Copies.{recorded, copies, stored_copies}
use mini_corundum.Race.KeptSections.{Recorder}
use mini_corundum.Race.Chances.{Possible}
use mini_corundum.Race.Conserved.{arrived, turns-copies}
use mini_corundum.Race.Order.Known.{CountDown}
use mini_corundum.Race.Order.Turns.{SkipsNever, turns-CountDown}
use mini_corundum.Race.Counters.Turns.{turns-counters}
use mini_corundum.Reassembly.Drain.{IsIndexed}
use mini_corundum.Reassembly.Accept.{IsConsistent}
use mini_corundum.Reassembly.Complete.{IsFresh-IsConsistent}
use mini_corundum.Threads.Room.{HasRoom}
use mini_corundum.Race.Ghost.Unbroken.{TurnFits, turns-unbroken}
use mini_corundum.Race.Order.Early.{WakesSoon}
use mini_corundum.Race.Order.Soon.{turns-CountDown_soon}
use mini_corundum.Race.Skipping.{waits_for, stalled_since}
use mini_corundum.Race.Overtaken.{overtaken, poller_breaks}
use mini_corundum.Examples.Data.{parsed, idle_locals}

-- a host that records what it is given
abbrev recorder : Recorder
recorder = record {
  window_size = 4;
  credit_interval = 8;
  credit_poll_us = 5000;
  on_data = some recorded;
  app = [];
  sent = [];
  expected_seq = 0;
  abs_credit = 4;
  highest_seq = 0;
  out_of_order = [];
  ooo_heap = [];
  pending_nacks = [];
  running = true;
  stats = initial_stats;
  pending_cmds = [];
  next_cmd_id = 1;
}

-- Packet 1 is stored, and packet 0 is on its way while a round begins.
abbrev some_turns : List Turn
some_turns =
    arrives 17 (parsed 1 11)
    ∷ receiver_steps
    ∷ wakes 5000
    ∷ receiver_steps
    ∷ poller_steps
    ∷ receiver_steps
    ∷ receiver_steps
    ∷ receiver_steps
    ∷ receiver_steps
    ∷ receiver_steps
    ∷ receiver_steps
    ∷ arrives 17 (parsed 0 10)
    ∷ poller_steps
    ∷ receiver_steps
    ∷ receiver_steps
    ∷ receiver_steps
    ∷ receiver_steps
    ∷ receiver_steps
    ∷ []

some_turns_app : (turns some_turns (at_rest idle_locals recorder)).shared.app ≡ parsed 0 10 ∷ []
unfolding turns turn step_handling step_polling step_handing step_granting heappush insert
some_turns_app = refl

some_turns-SkipsNever : SkipsNever some_turns (at_rest idle_locals recorder)
unfolding turn step_handling step_polling step_handing step_granting heappush insert
some_turns-SkipsNever = (
  tt,
  (
    tt,
    (
      tt,
      (tt, (tt, (tt, (tt, (tt, (tt, (tt, (tt, (tt, (tt, (tt, (tt, (tt, (tt, (tt, tt))))))))))))))),
    ),
  ),
)

turns-CountDown_example :
    (n : ℕ) × CountDown n (turns some_turns (at_rest idle_locals recorder)).shared.app
    × ((turns some_turns (at_rest idle_locals recorder)).receiver ≡ left tt
        → n ≡ (turns some_turns (at_rest idle_locals recorder)).shared.expected_seq)
turns-CountDown_example =
    turns-CountDown some_turns idle_locals recorder refl refl (λ k v e. absurd (ground arith))
      some_turns-SkipsNever

-- both threads by turns
abbrev by_turns : ℕ → List Turn
by_turns zero = []
by_turns (suc n) = receiver_steps ∷ poller_steps ∷ by_turns n

-- Packet 0 and a round of the polling thread go through together.
abbrev together : List Turn
together = arrives 17 (parsed 0 10) ∷ wakes 5000 ∷ by_turns 12

together-receiver : (turns together (at_rest idle_locals recorder)).receiver ≡ left tt
unfolding turns turn step_handling step_polling step_handing step_dropping step_draining
    step_granting
together-receiver = refl

together-poller :
    (turns together (at_rest idle_locals recorder)).poller
    ≡ left (record idle_locals { last_data_time = 5000 })
unfolding turns turn step_handling step_polling step_handing step_dropping step_draining
    step_granting
together-poller = refl

recorder-IsConsistent : IsConsistent recorder
recorder-IsConsistent = IsFresh-IsConsistent recorder (record {
  first = refl;
  empty_heap = refl;
  empty_buffer = refl;
  window = refl;
  counters = refl;
})

recorder-HasRoom : HasRoom recorder
recorder-HasRoom = record { now = omega arith; stored = λ s q l. absurd (ground arith) }

some_turns-TurnFits : All (TurnFits 4) some_turns
some_turns-TurnFits = (
  omega arith,
  (
    tt,
    (
      tt,
      (
        tt,
        (
          tt,
          (tt, (tt, (tt, (tt, (tt, (tt, (omega arith, (tt, (tt, (tt, (tt, (tt, (tt, tt))))))))))))),
        ),
      ),
    ),
  ),
)

turns-unbroken_example :
    ((e : Error) → (turns some_turns (at_rest idle_locals recorder)).receiver ≢ broken e)
    × ((turns some_turns (at_rest idle_locals recorder)).receiver ≡ left tt
        → IsIndexed
            (turns some_turns (at_rest idle_locals recorder)).shared.ooo_heap
            (turns some_turns (at_rest idle_locals recorder)).shared.out_of_order)
turns-unbroken_example =
    turns-unbroken some_turns idle_locals recorder recorder-IsConsistent recorder-HasRoom
      (omega arith) some_turns-TurnFits some_turns-SkipsNever

some_turns-WakesSoon : All (WakesSoon 2000) some_turns
some_turns-WakesSoon = (
  tt,
  (
    tt,
    (
      (omega arith, omega arith),
      (tt, (tt, (tt, (tt, (tt, (tt, (tt, (tt, (tt, (tt, (tt, (tt, (tt, (tt, (tt, tt))))))))))))))),
    ),
  ),
)

turns-CountDown_soon_example :
    (n : ℕ) × CountDown n (turns some_turns (at_rest idle_locals recorder)).shared.app
    × ((turns some_turns (at_rest idle_locals recorder)).receiver ≡ left tt
        → n ≡ (turns some_turns (at_rest idle_locals recorder)).shared.expected_seq)
turns-CountDown_soon_example =
    turns-CountDown_soon 2000 some_turns idle_locals recorder refl refl
      (λ k v e. absurd (ground arith)) refl some_turns-WakesSoon

turns-counters_example :
    ((turns together (at_rest idle_locals recorder)).shared.stats.packets_processed + 0
      ≡ length (turns together (at_rest idle_locals recorder)).shared.app + 0)
    × (length (turns together (at_rest idle_locals recorder)).shared.sent + 0
        ≡ (turns together (at_rest idle_locals recorder)).shared.stats.credits_sent + 0)
turns-counters_example =
    turns-counters together idle_locals (record idle_locals { last_data_time = 5000 }) recorder refl
      together-receiver together-poller

turns-copies_example :
    copies (λ pkt. pkt.seq_num == 0) (turns some_turns (at_rest idle_locals recorder)).shared.app
    ≤ copies (λ pkt. pkt.seq_num == 0) recorder.app
      + stored_copies (λ pkt. pkt.seq_num == 0) recorder.out_of_order
      + copies (λ pkt. pkt.seq_num == 0) (arrived some_turns)
turns-copies_example = turns-copies (λ pkt. pkt.seq_num == 0) some_turns idle_locals recorder refl

overtaken_example :
    Possible
      (λ r.
        (r.shared.app ≡ parsed 0 10 ∷ parsed 2 12 ∷ [])
        × ((late : LudpDataPacket) → late.seq_num ≡ 3 → accept late r.shared ≡ ok tt r.shared))
      (at_rest
        (stalled_since 0 1000 (parsed 0 10))
        (waits_for (parsed 0 10) (parsed 2 12) recorder))
overtaken_example =
    overtaken 17 11000 0 1000 (parsed 0 10) (parsed 2 12) recorder (omega arith) (omega arith)
      (omega arith)

poller_breaks_example :
    Possible
      (λ r.
        (r.poller ≡ broken index_error)
        × (r.shared.app ≡ parsed 0 10 ∷ [])
        × (r.shared.out_of_order ≡ (2, parsed 2 12) ∷ [])
        × (r.shared.ooo_heap ≡ []))
      (at_rest
        (stalled_since 0 1000 (parsed 0 10))
        (waits_for (parsed 0 10) (parsed 2 12) recorder))
poller_breaks_example =
    poller_breaks 17 11000 0 1000 (parsed 0 10) (parsed 2 12) recorder (omega arith) (omega arith)
      (omega arith)
