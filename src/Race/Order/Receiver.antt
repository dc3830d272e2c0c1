-- ===== src/Race/Order/Receiver.antt =====
-- The order of the packets in a step of the receive thread.
use mini_corundum.Base.{
  ℕ, ◌≡◌, refl, ==→eq, ⊤, Bool, true, false, some, arith, if◌then◌else◌, ltb, ◌==◌, ◌%◌,
}
use mini_corundum.Dict.{lookup, contains, lookup-insert}
use mini_corundum.Host.State.{LudpDataPacket}
use mini_corundum.Race.Machine.{Next, at, left}
use mini_corundum.Race.Loops.{
  processed_up, any_stale, any_ready, step_handing, step_dropping, step_draining, step_granting,
}
use mini_corundum.Race.Receiver.{
  Handling, count_in, track, is_next, hand_over, drop_old, drain_ready, is_due, due, grant,
  is_future, count_gap, is_stored, push_on, put_in, step_handling,
}
use mini_corundum.Race.KeptSections.{Recorder}
use mini_corundum.Race.Order.Known.{given_handling, KnownHandling, Fine}
use mini_corundum.Race.Order.Sections.{Fine-within, step_handing-Fine, step_draining-Fine}
use mini_corundum.Race.Order.Plain.{step_dropping-Fine, step_granting-Fine}

abbrev pub InOrder : Next Handling ⊤ → Recorder → Type 0
InOrder n h = Fine given_handling KnownHandling (n, h)

next_if :
    (b : Bool) (pkt : LudpDataPacket) (h : Recorder)
    → (pkt.seq_num == h.expected_seq) ≡ b
    → InOrder (at (is_next pkt)) h
    → InOrder (if b then at (hand_over (processed_up pkt)) else at (is_future pkt)) h
next_if true pkt h e f = record {
  order = f.order;
  point = ==→eq pkt.seq_num h.expected_seq e;
  named = f.named;
  recording = f.recording;
}
next_if false pkt h e f = record {
  order = f.order;
  point = tt;
  named = f.named;
  recording = f.recording;
}

due-InOrder : (b c : Bool) (h : Recorder) → InOrder (at is_due) h → InOrder (due b c) h
due-InOrder true c h f = record {
  order = f.order;
  point = tt;
  named = f.named;
  recording = f.recording;
}
due-InOrder false true h f = record {
  order = f.order;
  point = tt;
  named = f.named;
  recording = f.recording;
}
due-InOrder false false h f = record {
  order = f.order;
  point = tt;
  named = f.named;
  recording = f.recording;
}

either-InOrder :
    (b : Bool) (n m : Next Handling ⊤) (h : Recorder)
    → InOrder n h
    → InOrder m h
    → InOrder (if b then n else m) h
either-InOrder true n m h f g = f
either-InOrder false n m h f g = g

pub step_handling-InOrder :
    (p : Handling) (h : Recorder)
    → InOrder (at p) h
    → Fine given_handling KnownHandling (step_handling p h)
unfolding step_handling
step_handling-InOrder (count_in size pkt) h f = record {
  order = f.order;
  point = tt;
  named = f.named;
  recording = f.recording;
}
step_handling-InOrder (track pkt) h f = record {
  order = f.order;
  point = tt;
  named = f.named;
  recording = f.recording;
}
step_handling-InOrder (is_next pkt) h f = next_if (pkt.seq_num == h.expected_seq) pkt h refl f
step_handling-InOrder (hand_over p) h f =
    Fine-within hand_over (λ _. at (drop_old any_stale)) (step_handing p h) (λ p. refl) (λ p. refl)
      (λ a n. refl) (λ a h. tt)
      (step_handing-Fine p h
        (record { order = f.order; point = f.point; named = f.named; recording = f.recording }))
step_handling-InOrder (drop_old p) h f =
    Fine-within drop_old (λ _. at (drain_ready any_ready)) (step_dropping p h) (λ p. refl)
      (λ p. refl) (λ a n. refl) (λ a h. tt)
      (step_dropping-Fine p h
        (record { order = f.order; point = tt; named = f.named; recording = f.recording }))
step_handling-InOrder (drain_ready p) h f =
    Fine-within drain_ready (λ _. at is_due) (step_draining p h) (λ p. refl) (λ p. refl)
      (λ a n. refl) (λ a h. tt)
      (step_draining-Fine p h
        (record { order = f.order; point = f.point; named = f.named; recording = f.recording }))
step_handling-InOrder is_due h f =
    due-InOrder (h.credit_interval == 0) (h.expected_seq % h.credit_interval == 0) h f
step_handling-InOrder (grant p) h f =
    Fine-within grant left (step_granting p h) (λ p. refl) (λ p. refl) (λ a n. refl) (λ a h. tt)
      (step_granting-Fine p h
        (record { order = f.order; point = tt; named = f.named; recording = f.recording }))
step_handling-InOrder (is_future pkt) h f =
    either-InOrder (ltb h.expected_seq pkt.seq_num) (at (count_gap pkt)) (left tt) h
      (record { order = f.order; point = tt; named = f.named; recording = f.recording })
      (record { order = f.order; point = tt; named = f.named; recording = f.recording })
step_handling-InOrder (count_gap pkt) h f = record {
  order = f.order;
  point = tt;
  named = f.named;
  recording = f.recording;
}
step_handling-InOrder (is_stored pkt) h f =
    either-InOrder (contains pkt.seq_num h.out_of_order) (at (put_in pkt)) (at (push_on pkt)) h
      (record { order = f.order; point = tt; named = f.named; recording = f.recording })
      (record { order = f.order; point = tt; named = f.named; recording = f.recording })
step_handling-InOrder (push_on pkt) h f = record {
  order = f.order;
  point = tt;
  named = f.named;
  recording = f.recording;
}
step_handling-InOrder (put_in pkt) h f = record {
  order = f.order;
  point = tt;
  named =
      λ k v e. stored_under pkt h f k v (rw (lookup-insert k pkt.seq_num pkt h.out_of_order) at e);
  recording = f.recording;
}
  where
    stored_under :
        (pkt : LudpDataPacket) (h : Recorder)
        → InOrder (at (put_in pkt)) h
        → (k : ℕ) (v : LudpDataPacket)
        → (if k == pkt.seq_num then some pkt else lookup k h.out_of_order) ≡ some v
        → v.seq_num ≡ k
    stored_under pkt h f k v e = ground (arith, f.named k v)
