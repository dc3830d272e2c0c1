-- ===== src/Race/KeptThreads.antt =====
-- What a step of a thread does to the number of copies of a packet.
use mini_corundum.Base.{ℕ, ◌≡◌, refl, ⊤, Bool, true, false, Option, none, some, arith, ◌==◌, ◌%◌}
use mini_corundum.Host.State.{LudpDataPacket}
use mini_corundum.Host.Poll.{PollLocals}
use mini_corundum.Race.Machine.{at, left}
use mini_corundum.Race.Loops.{
  any_stale, any_ready, step_handing, step_dropping, step_draining, step_sending, step_granting,
  renew,
}
use mini_corundum.Race.Receiver.{
  Handling, count_in, track, is_next, hand_over, drop_old, drain_ready, is_due, due, grant,
  is_future, count_gap, is_stored, push_on, put_in, step_handling,
}
use mini_corundum.Race.Poller
use mini_corundum.Race.Poller.{
  Polling, advance, has_moved, catch_up, has_stored, skip_old, skip_any, skip_head, count_skip,
  jump, skip_drain, skip_grant, settle, is_quiet, repeat, resend, stored, stall, step_polling,
}
use mini_corundum.Race.Copies.{stored_copies-insert, held_handling, held_polling, in_hand, Kept}
use mini_corundum.Race.KeptSections.{
  Recorder, section-Kept, at_head-Kept, when_any-free, step_handing-Kept, step_dropping-Kept,
  step_draining-Kept, step_sending-Kept, step_granting-Kept,
}

module _ (test : LudpDataPacket → Bool) (bound : ℕ) where
  due-free : (b c : Bool) → in_hand test {P = Handling} {A = ⊤} (held_handling test) (due b c) ≡ 0
  due-free true c = refl
  due-free false true = refl
  due-free false false = refl

  pub step_handling-Kept :
      (p : Handling) (h : Recorder)
      → Kept test {A = ⊤} (held_handling test) bound (at p, h)
      → Kept test (held_handling test) bound (step_handling p h)
  unfolding step_handling
  step_handling-Kept (count_in size pkt) h k = record { few = k.few; recording = k.recording }
  step_handling-Kept (track pkt) h k = record { few = k.few; recording = k.recording }
  step_handling-Kept (is_next pkt) h k = record {
    few = ground (arith, k.few);
    recording = k.recording;
  }
  step_handling-Kept (hand_over p) h k =
      section-Kept test bound step_handing hand_over (λ _. at (drop_old any_stale)) p h
        (step_handing-Kept test bound p h) (λ p. refl) (λ a. refl) k
  step_handling-Kept (drop_old p) h k =
      section-Kept test bound step_dropping drop_old (λ _. at (drain_ready any_ready)) p h
        (step_dropping-Kept test bound p h) (λ p. refl) (λ a. refl) k
  step_handling-Kept (drain_ready p) h k =
      section-Kept test bound step_draining drain_ready (λ _. at is_due) p h
        (step_draining-Kept test bound p h) (λ p. refl) (λ a. refl) k
  step_handling-Kept is_due h k = record {
    few =
        omega (
          arith,
          k.few,
          due-free (h.credit_interval == 0) (h.expected_seq % h.credit_interval == 0),
        );
    recording = k.recording;
  }
  step_handling-Kept (grant p) h k =
      section-Kept test bound step_granting grant left p h (step_granting-Kept test bound p h)
        (λ p. refl) (λ a. refl) k
  step_handling-Kept (is_future pkt) h k = record {
    few = ground (arith, k.few);
    recording = k.recording;
  }
  step_handling-Kept (count_gap pkt) h k = record { few = k.few; recording = k.recording }
  step_handling-Kept (is_stored pkt) h k = record {
    few = ground (arith, k.few);
    recording = k.recording;
  }
  step_handling-Kept (push_on pkt) h k = record { few = k.few; recording = k.recording }
  step_handling-Kept (put_in pkt) h k = record {
    few = omega (arith, k.few, stored_copies-insert test pkt.seq_num pkt h.out_of_order);
    recording = k.recording;
  }

  stall-free :
      (now : ℕ) (since : Option ℕ) (loc : PollLocals) → held_polling test (stall now since loc) ≡ 0
  stall-free now none loc = refl
  stall-free now (some since) loc = ground arith

  pub step_polling-Kept :
      (now : ℕ) (p : Polling) (loc : PollLocals) (h : Recorder)
      → Kept test {A = PollLocals} (held_polling test) bound (at (p, loc), h)
      → Kept test (held_polling test) bound (step_polling now (p, loc) h)
  unfolding step_polling
  step_polling-Kept now Poller.note_data loc h k = record {
    few = ground (arith, k.few);
    recording = k.recording;
  }
  step_polling-Kept now (advance p) loc h k =
      section-Kept test bound step_granting (λ q. (advance q, loc)) (λ _. at (has_moved, loc)) p h
        (step_granting-Kept test bound p h) (λ p. refl) (λ a. refl) k
  step_polling-Kept now has_moved loc h k = record {
    few = ground (arith, k.few);
    recording = k.recording;
  }
  step_polling-Kept now catch_up loc h k = record { few = k.few; recording = k.recording }
  step_polling-Kept now has_stored loc h k = record {
    few = ground (arith, k.few, stall-free now loc.gap_stall_start loc);
    recording = k.recording;
  }
  step_polling-Kept now (skip_old p) loc h k =
      section-Kept test bound step_dropping (λ q. (skip_old q, loc)) (λ _. at (skip_any, loc)) p h
        (step_dropping-Kept test bound p h) (λ p. refl) (λ a. refl) k
  step_polling-Kept now skip_any loc h k = record {
    few = omega (
      arith,
      k.few,
      when_any-free test bound {A = PollLocals} (held_polling test) h.ooo_heap (at (skip_head, loc))
          (left (record loc { gap_stall_start = none })) refl refl,
    );
    recording = k.recording;
  }
  step_polling-Kept now skip_head loc h k =
      at_head-Kept test bound h.ooo_heap (λ skip_to. (count_skip skip_to, loc)) h k.few k.recording
        λ x. refl
  step_polling-Kept now (count_skip skip_to) loc h k = record {
    few = k.few;
    recording = k.recording;
  }
  step_polling-Kept now (jump skip_to) loc h k = record { few = k.few; recording = k.recording }
  step_polling-Kept now (skip_drain p) loc h k =
      section-Kept test bound step_draining (λ q. (skip_drain q, loc))
        (λ _. at (skip_grant renew, loc)) p h (step_draining-Kept test bound p h) (λ p. refl)
        (λ a. refl) k
  step_polling-Kept now (skip_grant p) loc h k =
      section-Kept test bound step_granting (λ q. (skip_grant q, loc)) (λ _. at (settle, loc)) p h
        (step_granting-Kept test bound p h) (λ p. refl) (λ a. refl) k
  step_polling-Kept now settle loc h k = record { few = k.few; recording = k.recording }
  step_polling-Kept now is_quiet loc h k = record {
    few = ground (arith, k.few);
    recording = k.recording;
  }
  step_polling-Kept now repeat loc h k = record { few = k.few; recording = k.recording }
  step_polling-Kept now (resend p) loc h k =
      section-Kept test bound step_sending (λ q. (resend q, loc))
        (λ _. left (record loc { last_data_time = now })) p h (step_sending-Kept test bound p h)
        (λ p. refl) (λ a. refl) k
