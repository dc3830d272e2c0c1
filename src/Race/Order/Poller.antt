-- ===== src/Race/Order/Poller.antt =====
-- The fields that decide the order, in a step of the polling thread outside the skip of a gap.
use mini_corundum.Base.{ℕ, ⊤}
use mini_corundum.Host.Poll.{PollLocals}
use mini_corundum.Race.Machine.{Next, at, left, broken}
use mini_corundum.Race.Loops.{
  Handing, processed_up, call_back, load_expected, store_expected, Draining, is_ready, pop_ready,
  take_out, handing, step_sending, step_granting,
}
use mini_corundum.Race.Receiver.{Handling, hand_over, drain_ready}
use mini_corundum.Race.Poller
use mini_corundum.Race.Poller.{
  Polling, advance, has_moved, catch_up, has_stored, skip_old, skip_any, skip_head, count_skip,
  jump, skip_drain, skip_grant, settle, is_quiet, repeat, resend, step_polling,
}
use mini_corundum.Race.Ghost.Agree.{SameCore, itself}
use mini_corundum.Race.Ghost.Granting.{within-core, step_sending-core, step_granting-core}
use mini_corundum.Host.State.{LudpHost}
use mini_corundum.Race.KeptSections.{Recorder}
use mini_corundum.Race.Order.Known.{KnownHanding, KnownDraining, KnownHandling}
use mini_corundum.Race.Order.Receiver.{InOrder}

-- The polling thread is outside the skip of a gap.
abbrev pub OutsideSkip : Polling × PollLocals → Type 0
OutsideSkip (skip_old p, loc) = ⊥
OutsideSkip (skip_any, loc) = ⊥
OutsideSkip (skip_head, loc) = ⊥
OutsideSkip (count_skip n, loc) = ⊥
OutsideSkip (jump n, loc) = ⊥
OutsideSkip (skip_drain p, loc) = ⊥
OutsideSkip (skip_grant p, loc) = ⊥
OutsideSkip (settle, loc) = ⊥
OutsideSkip _ = ⊤

module _ {App : Type 0} where
  pub step_polling-core :
      (now : ℕ) (p : Polling) (loc : PollLocals) (h : LudpHost App)
      → OutsideSkip (p, loc)
      → SameCore h (step_polling now (p, loc) h).1
  unfolding step_polling
  step_polling-core now Poller.note_data loc h o = itself h
  step_polling-core now (advance p) loc h o =
      within-core (λ q. (advance q, loc)) (λ _. at (has_moved, loc)) (step_granting p h) h
        (step_granting-core p h)
  step_polling-core now has_moved loc h o = itself h
  step_polling-core now catch_up loc h o = itself h
  step_polling-core now has_stored loc h o = itself h
  step_polling-core now is_quiet loc h o = itself h
  step_polling-core now repeat loc h o = itself h
  step_polling-core now (resend p) loc h o =
      within-core (λ q. (resend q, loc)) (λ _. left (record loc { last_data_time = now }))
        (step_sending p h) h (step_sending-core p h)
  step_polling-core now (skip_old p) loc h o = elim o [ ]
  step_polling-core now skip_any loc h o = elim o [ ]
  step_polling-core now skip_head loc h o = elim o [ ]
  step_polling-core now (count_skip n) loc h o = elim o [ ]
  step_polling-core now (jump n) loc h o = elim o [ ]
  step_polling-core now (skip_drain p) loc h o = elim o [ ]
  step_polling-core now (skip_grant p) loc h o = elim o [ ]
  step_polling-core now settle loc h o = elim o [ ]

-- What the receive thread knows stays true.
handing-same :
    (p : Handing) (h h' : Recorder) → SameCore h h' → KnownHanding p h → KnownHanding p h'
handing-same (processed_up pkt) h h' s k = rw (s.expected) k
handing-same (call_back pkt) h h' s k = rw (s.expected) k
handing-same load_expected h h' s k = tt
handing-same (store_expected n) h h' s k = rw (s.expected) k

draining-same :
    (p : Draining) (h h' : Recorder) → SameCore h h' → KnownDraining p h → KnownDraining p h'
draining-same (is_ready x) h h' s k = rw (s.heap) k
draining-same pop_ready h h' s k = rw (s.expected, s.heap) k
draining-same (take_out x) h h' s k = rw (s.expected) k
draining-same (handing p) h h' s k = handing-same p h h' s k
draining-same _ h h' s k = tt

handling-same :
    (p : Handling) (h h' : Recorder) → SameCore h h' → KnownHandling p h → KnownHandling p h'
handling-same (hand_over p) h h' s k = handing-same p h h' s k
handling-same (drain_ready p) h h' s k = draining-same p h h' s k
handling-same _ h h' s k = tt

pub core-InOrder :
    (n : Next Handling ⊤) (h h' : Recorder) → SameCore h h' → InOrder n h → InOrder n h'
core-InOrder (at p) h h' s f = record {
  order = rw (s.expected, s.app) (f.order);
  point = handling-same p h h' s (f.point);
  named = rw (s.buffer) (f.named);
  recording = rw (s.callback) (f.recording);
}
core-InOrder (left a) h h' s f = record {
  order = rw (s.expected, s.app) (f.order);
  point = tt;
  named = rw (s.buffer) (f.named);
  recording = rw (s.callback) (f.recording);
}
core-InOrder (broken e) h h' s f = record {
  order = rw (s.expected, s.app) (f.order);
  point = tt;
  named = rw (s.buffer) (f.named);
  recording = rw (s.callback) (f.recording);
}
