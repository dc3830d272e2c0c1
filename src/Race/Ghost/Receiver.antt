-- ===== src/Race/Ghost/Receiver.antt =====
-- The steps of the receive thread on two hosts of the same core.
use mini_corundum.Base.{◌%◌, refl, ap, ◌∙◌, ⊤, if◌then◌else◌, ltb, ◌==◌}
use mini_corundum.Dict.{insert, contains}
use mini_corundum.Host.State.{LudpHost}
use mini_corundum.Host.Receive.{heappush}
use mini_corundum.Race.Machine.{at, left}
use mini_corundum.Race.Loops.{processed_up, any_stale, any_ready}
use mini_corundum.Race.Receiver.{
  Handling, count_in, track, is_next, hand_over, drop_old, drain_ready, is_due, due, grant,
  is_future, count_gap, is_stored, push_on, put_in, step_handling,
}
use mini_corundum.Race.Ghost.Agree.{
  SameCore, Agrees, within-Agrees, here, step_handing-Agrees, step_dropping-Agrees,
  step_draining-Agrees,
}

-- The point is not in a credit update.
abbrev pub NotGranting : Handling → Type 0
NotGranting (grant p) = ⊥
NotGranting _ = ⊤

module _ {App : Type 0} where
  pub step_handling-Agrees :
      (p : Handling) (g h : LudpHost App)
      → NotGranting p
      → SameCore g h
      → Agrees (step_handling p g) (step_handling p h)
  unfolding step_handling
  step_handling-Agrees (count_in size pkt) g h o s = record {
    point = refl;
    core = record {
      expected = s.expected;
      app = s.app;
      buffer = s.buffer;
      heap = s.heap;
      callback = s.callback;
      interval = s.interval;
      window = s.window;
    };
  }
  step_handling-Agrees (track pkt) g h o s = record {
    point = refl;
    core = record {
      expected = s.expected;
      app = s.app;
      buffer = s.buffer;
      heap = s.heap;
      callback = s.callback;
      interval = s.interval;
      window = s.window;
    };
  }
  step_handling-Agrees (is_next pkt) g h o s = here s (
      ap (λ e. if pkt.seq_num == e then at (hand_over (processed_up pkt)) else at (is_future pkt))
        s.expected)
  step_handling-Agrees (hand_over p) g h o s =
      within-Agrees hand_over (λ _. at (drop_old any_stale)) _ _ (step_handing-Agrees p g h s)
  step_handling-Agrees (drop_old p) g h o s =
      within-Agrees drop_old (λ _. at (drain_ready any_ready)) _ _ (step_dropping-Agrees p g h s)
  step_handling-Agrees (drain_ready p) g h o s =
      within-Agrees drain_ready (λ _. at is_due) _ _ (step_draining-Agrees p g h s)
  step_handling-Agrees is_due g h o s = here s (
      ap (λ i. due (i == 0) (h.expected_seq % i == 0)) s.interval
      ∙ ap (λ e. due (g.credit_interval == 0) (e % g.credit_interval == 0)) s.expected)
  step_handling-Agrees (is_future pkt) g h o s =
      here s (ap (λ e. if ltb e pkt.seq_num then at (count_gap pkt) else left tt) s.expected)
  step_handling-Agrees (count_gap pkt) g h o s = record {
    point = refl;
    core = record {
      expected = s.expected;
      app = s.app;
      buffer = s.buffer;
      heap = s.heap;
      callback = s.callback;
      interval = s.interval;
      window = s.window;
    };
  }
  step_handling-Agrees (is_stored pkt) g h o s =
      here s
        (ap (λ d. if contains pkt.seq_num d then at (put_in pkt) else at (push_on pkt)) s.buffer)
  step_handling-Agrees (push_on pkt) g h o s = record {
    point = refl;
    core = record {
      expected = s.expected;
      app = s.app;
      buffer = s.buffer;
      heap = ap (heappush pkt.seq_num) s.heap;
      callback = s.callback;
      interval = s.interval;
      window = s.window;
    };
  }
  step_handling-Agrees (put_in pkt) g h o s = record {
    point = refl;
    core = record {
      expected = s.expected;
      app = s.app;
      buffer = ap (insert pkt.seq_num pkt) s.buffer;
      heap = s.heap;
      callback = s.callback;
      interval = s.interval;
      window = s.window;
    };
  }
  step_handling-Agrees (grant p) g h o s = elim o [ ]
