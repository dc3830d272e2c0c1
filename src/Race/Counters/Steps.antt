-- ===== src/Race/Counters/Steps.antt =====
-- The counters in a step of a thread.
use mini_corundum.Base.{ℕ, ◌%◌, ◌≡◌, refl, ⊤, Bool, true, false, Option, none, some, arith, ◌==◌}
use mini_corundum.Host.Poll.{PollLocals}
use mini_corundum.Race.Machine.{at, left}
use mini_corundum.Race.Loops.{
  any_stale, any_ready, load_credit, renew, step_handing, step_dropping, step_draining,
  step_sending, step_granting,
}
use mini_corundum.Race.Receiver.{
  Handling, count_in, track, is_next, hand_over, drop_old, drain_ready, is_due, due, grant,
  is_future, count_gap, is_stored, push_on, put_in, step_handling,
}
use mini_corundum.Race.Poller
use mini_corundum.Race.Poller.{
  Polling, advance, has_moved, catch_up, has_stored, skip_old, skip_any, skip_head, count_skip,
  jump, skip_drain, skip_grant, settle, is_quiet, repeat, resend, stored, stall, step_polling,
}
use mini_corundum.Race.KeptSections.{Recorder}
use mini_corundum.Race.Counters.Exact.{
  calls_handling, calls_polling, owes_handling, owes_polling, count_at, Exact,
}
use mini_corundum.Race.Counters.Sections.{section-Exact, aside-Exact, when_any-free, head-Exact}
use mini_corundum.Race.Counters.Loops.{
  step_handing-Exact, step_dropping-Exact, step_draining-Exact, step_sending-Exact,
  step_granting-Exact,
}

due-free : (f : Handling → ℕ) → f (grant load_credit) ≡ 0 → (b c : Bool) → count_at f (due b c) ≡ 0
due-free f e true c = refl
due-free f e false true = e
due-free f e false false = refl

stall-free :
    (f : Polling × PollLocals → ℕ)
    → ((loc : PollLocals) → f (is_quiet, loc) ≡ 0)
    → ((loc : PollLocals) → f (skip_old any_stale, loc) ≡ 0)
    → (now : ℕ) (since : Option ℕ) (loc : PollLocals) → f (stall now since loc) ≡ 0
stall-free f q s now none loc = q _
stall-free f q s now (some since) loc = ground (arith, q loc, s loc)

module _ (given processed sent credits : ℕ) where
  pub step_handling-Exact :
      (p : Handling) (h : Recorder)
      → Exact {A = ⊤} calls_handling owes_handling given processed sent credits (at p, h)
      → Exact calls_handling owes_handling given processed sent credits (step_handling p h)
  unfolding step_handling
  step_handling-Exact (count_in size pkt) h x =
      aside-Exact given processed sent credits (count_in size pkt) _ h _ x refl refl refl refl refl
        refl refl
  step_handling-Exact (track pkt) h x =
      aside-Exact given processed sent credits (track pkt) _ h _ x refl refl refl refl refl refl
        refl
  step_handling-Exact (is_next pkt) h x =
      aside-Exact given processed sent credits (is_next pkt) _ h h x (ground arith) (ground arith)
        refl refl refl refl refl
  step_handling-Exact (hand_over p) h x =
      section-Exact given processed sent credits step_handing hand_over
        (λ _. at (drop_old any_stale)) p h (step_handing-Exact given processed sent credits p h)
        (λ q. (refl, refl)) (λ a. (refl, refl)) x
  step_handling-Exact (drop_old p) h x =
      section-Exact given processed sent credits step_dropping drop_old
        (λ _. at (drain_ready any_ready)) p h (step_dropping-Exact given processed sent credits p h)
        (λ q. (refl, refl)) (λ a. (refl, refl)) x
  step_handling-Exact (drain_ready p) h x =
      section-Exact given processed sent credits step_draining drain_ready (λ _. at is_due) p h
        (step_draining-Exact given processed sent credits p h) (λ q. (refl, refl))
        (λ a. (refl, refl)) x
  step_handling-Exact is_due h x =
      aside-Exact given processed sent credits is_due _ h h x
        (due-free calls_handling refl (h.credit_interval == 0)
          (h.expected_seq % h.credit_interval == 0))
        (due-free owes_handling refl (h.credit_interval == 0)
          (h.expected_seq % h.credit_interval == 0))
        refl refl refl refl refl
  step_handling-Exact (grant p) h x =
      section-Exact given processed sent credits step_granting grant left p h
        (step_granting-Exact given processed sent credits p h) (λ q. (refl, refl))
        (λ a. (refl, refl)) x
  step_handling-Exact (is_future pkt) h x =
      aside-Exact given processed sent credits (is_future pkt) _ h h x (ground arith) (ground arith)
        refl refl refl refl refl
  step_handling-Exact (count_gap pkt) h x =
      aside-Exact given processed sent credits (count_gap pkt) _ h _ x refl refl refl refl refl refl
        refl
  step_handling-Exact (is_stored pkt) h x =
      aside-Exact given processed sent credits (is_stored pkt) _ h h x (ground arith) (ground arith)
        refl refl refl refl refl
  step_handling-Exact (push_on pkt) h x =
      aside-Exact given processed sent credits (push_on pkt) _ h _ x refl refl refl refl refl refl
        refl
  step_handling-Exact (put_in pkt) h x =
      aside-Exact given processed sent credits (put_in pkt) _ h _ x refl refl refl refl refl refl
        refl

  pub step_polling-Exact :
      (now : ℕ) (p : Polling) (loc : PollLocals) (h : Recorder)
      → Exact {A = PollLocals} calls_polling owes_polling given processed sent credits
          (at (p, loc), h)
      → Exact calls_polling owes_polling given processed sent credits (step_polling now (p, loc) h)
  unfolding step_polling
  step_polling-Exact now Poller.note_data loc h x =
      aside-Exact given processed sent credits (Poller.note_data, loc) _ h h x refl refl refl refl
        refl refl refl
  step_polling-Exact now (advance p) loc h x =
      section-Exact given processed sent credits step_granting (λ q. (advance q, loc))
        (λ _. at (has_moved, loc)) p h (step_granting-Exact given processed sent credits p h)
        (λ q. (refl, refl)) (λ a. (refl, refl)) x
  step_polling-Exact now has_moved loc h x =
      aside-Exact given processed sent credits (has_moved, loc) _ h h x (ground arith)
        (ground arith) refl refl refl refl refl
  step_polling-Exact now catch_up loc h x =
      aside-Exact given processed sent credits (catch_up, loc) _ h h x refl refl refl refl refl refl
        refl
  step_polling-Exact now has_stored loc h x =
      aside-Exact given processed sent credits (has_stored, loc) _ h h x
        (ground
          (arith, stall-free calls_polling (λ l. refl) (λ l. refl) now loc.gap_stall_start loc))
        (ground
          (arith, stall-free owes_polling (λ l. refl) (λ l. refl) now loc.gap_stall_start loc))
        refl refl refl refl refl
  step_polling-Exact now (skip_old p) loc h x =
      section-Exact given processed sent credits step_dropping (λ q. (skip_old q, loc))
        (λ _. at (skip_any, loc)) p h (step_dropping-Exact given processed sent credits p h)
        (λ q. (refl, refl)) (λ a. (refl, refl)) x
  step_polling-Exact now skip_any loc h x =
      aside-Exact given processed sent credits (skip_any, loc) _ h h x
        (when_any-free given processed sent credits {A = PollLocals} calls_polling h.ooo_heap
          (at (skip_head, loc)) (left (record loc { gap_stall_start = none })) refl refl)
        (when_any-free given processed sent credits {A = PollLocals} owes_polling h.ooo_heap
          (at (skip_head, loc)) (left (record loc { gap_stall_start = none })) refl refl)
        refl refl refl refl refl
  step_polling-Exact now skip_head loc h x =
      head-Exact given processed sent credits h.ooo_heap (skip_head, loc)
        (λ skip_to. (count_skip skip_to, loc)) h refl refl (λ y. refl) (λ y. refl) x
  step_polling-Exact now (count_skip skip_to) loc h x =
      aside-Exact given processed sent credits ((count_skip skip_to), loc) _ h _ x refl refl refl
        refl refl refl refl
  step_polling-Exact now (jump skip_to) loc h x =
      aside-Exact given processed sent credits ((jump skip_to), loc) _ h _ x refl refl refl refl
        refl refl refl
  step_polling-Exact now (skip_drain p) loc h x =
      section-Exact given processed sent credits step_draining (λ q. (skip_drain q, loc))
        (λ _. at (skip_grant renew, loc)) p h (step_draining-Exact given processed sent credits p h)
        (λ q. (refl, refl)) (λ a. (refl, refl)) x
  step_polling-Exact now (skip_grant p) loc h x =
      section-Exact given processed sent credits step_granting (λ q. (skip_grant q, loc))
        (λ _. at (settle, loc)) p h (step_granting-Exact given processed sent credits p h)
        (λ q. (refl, refl)) (λ a. (refl, refl)) x
  step_polling-Exact now settle loc h x =
      aside-Exact given processed sent credits (settle, loc) _ h h x refl refl refl refl refl refl
        refl
  step_polling-Exact now is_quiet loc h x =
      aside-Exact given processed sent credits (is_quiet, loc) _ h h x (ground arith) (ground arith)
        refl refl refl refl refl
  step_polling-Exact now repeat loc h x =
      aside-Exact given processed sent credits (repeat, loc) _ h h x refl refl refl refl refl refl
        refl
  step_polling-Exact now (resend p) loc h x =
      section-Exact given processed sent credits step_sending (λ q. (resend q, loc))
        (λ _. left (record loc { last_data_time = now })) p h
        (step_sending-Exact given processed sent credits p h) (λ q. (refl, refl))
        (λ a. (refl, refl)) x
