-- ===== src/Race/Ghost/Agree.antt =====
-- The receive thread on two hosts that differ only in their credits, counters and commands.
use mathlib.Core.Path.{subst}
use mini_corundum.Base.{
  ℕ, ◌≡◌, refl, sym, ap, ⊤, Option, none, some, List, [], ◌∷◌, if◌then◌else◌, ltb, ◌==◌,
}
use mini_corundum.Dict.{lookup, erase}
use mini_corundum.Host.State.{LudpDataPacket, LudpHost}
use mini_corundum.Race.Machine.{Next, at, left, broken, Config, within}
use mini_corundum.Race.Loops.{
  Handing, processed_up, call_back, load_expected, store_expected, Dropping, any_stale, stale_head,
  is_stale, pop_stale, Draining, any_ready, ready_head, is_ready, pop_ready, take_out, handing,
  taken, at_head, pop_head, when_any, step_handing, step_dropping, step_draining,
}

module _ {App : Type 0} where
  -- the fields that decide what the receive thread does, up to its credits
  pub record SameCore (g h : LudpHost App) : Type 0 where
    pub expected : h.expected_seq ≡ g.expected_seq
    pub app : h.app ≡ g.app
    pub buffer : h.out_of_order ≡ g.out_of_order
    pub heap : h.ooo_heap ≡ g.ooo_heap
    pub callback : h.on_data ≡ g.on_data
    pub interval : h.credit_interval ≡ g.credit_interval
    pub window : h.window_size ≡ g.window_size

  -- the same point, on hosts of the same core
  pub record Agrees {P A : Type 0} (c d : Config (LudpHost App) P A) : Type 0 where
    pub point : d.0 ≡ c.0
    pub core : SameCore c.1 d.1

  within-same :
      {P Q A B : Type 0} (inside : P → Q) (behind : A → Next Q B) (n : Next P A)
      (g h : LudpHost App)
      → SameCore g h
      → Agrees (within inside behind (n, g)) (within inside behind (n, h))
  within-same inside behind (at p) g h s = record { point = refl; core = s }
  within-same inside behind (left x) g h s = record { point = refl; core = s }
  within-same inside behind (broken e) g h s = record { point = refl; core = s }

  pub within-Agrees :
      {P Q A B : Type 0} (inside : P → Q) (behind : A → Next Q B) (c d : Config (LudpHost App) P A)
      → Agrees c d
      → Agrees (within inside behind c) (within inside behind d)
  within-Agrees inside behind (n, g) (m, h) a =
      subst (λ k. Agrees (within inside behind (n, g)) (within inside behind (k, h))) (sym a.point)
        (within-same inside behind n g h a.core)

  pub itself : (g : LudpHost App) → SameCore g g
  itself g = record {
    expected = refl;
    app = refl;
    buffer = refl;
    heap = refl;
    callback = refl;
    interval = refl;
    window = refl;
  }

  pub here :
      {P A : Type 0} {n m : Next P A} {g h : LudpHost App}
      → SameCore g h
      → m ≡ n
      → Agrees (n, g) (m, h)
  here s e = record { point = e; core = s }

  pub step_handing-Agrees :
      (p : Handing) (g h : LudpHost App)
      → SameCore g h
      → Agrees (step_handing p g) (step_handing p h)
  unfolding step_handing
  step_handing-Agrees (processed_up pkt) g h s = record {
    point = refl;
    core = record {
      expected = s.expected;
      app = s.app;
      buffer = s.buffer;
      heap = s.heap;
      callback = s.callback;
      interval = s.interval;
      window = s.window;
    };
  }
  step_handing-Agrees (call_back pkt) g h s = record {
    point = refl;
    core = record {
      expected = s.expected;
      app = rw (s.callback, s.app) refl;
      buffer = s.buffer;
      heap = s.heap;
      callback = s.callback;
      interval = s.interval;
      window = s.window;
    };
  }
  step_handing-Agrees load_expected g h s = record { point = rw (s.expected) refl; core = s }
  step_handing-Agrees (store_expected n) g h s = record {
    point = refl;
    core = record {
      expected = refl;
      app = s.app;
      buffer = s.buffer;
      heap = s.heap;
      callback = s.callback;
      interval = s.interval;
      window = s.window;
    };
  }

  at_head-Agrees :
      {P A : Type 0} (xs : List ℕ) (k : ℕ → P) (g h : LudpHost App)
      → SameCore g h
      → Agrees {P = P} {A = A} (at_head xs k g) (at_head xs k h)
  at_head-Agrees [] k g h s = here s refl
  at_head-Agrees (x ∷ xs) k g h s = here s refl

  pop_head-Agrees :
      {P A : Type 0} (xs : List ℕ) (k : ℕ → P) (g h : LudpHost App)
      → SameCore g h
      → Agrees {P = P} {A = A} (pop_head xs k g) (pop_head xs k h)
  pop_head-Agrees [] k g h s = here s refl
  pop_head-Agrees (x ∷ xs) k g h s = record {
    point = refl;
    core = record {
      expected = s.expected;
      app = s.app;
      buffer = s.buffer;
      heap = refl;
      callback = s.callback;
      interval = s.interval;
      window = s.window;
    };
  }

  pub step_dropping-Agrees :
      (p : Dropping) (g h : LudpHost App)
      → SameCore g h
      → Agrees (step_dropping p g) (step_dropping p h)
  unfolding step_dropping
  step_dropping-Agrees any_stale g h s =
      here s (ap (λ xs. when_any xs (at stale_head) (left tt)) s.heap)
  step_dropping-Agrees stale_head g h s =
      subst (λ xs. Agrees {A = ⊤} (at_head g.ooo_heap is_stale g) (at_head xs is_stale h))
        (sym s.heap) (at_head-Agrees g.ooo_heap is_stale g h s)
  step_dropping-Agrees (is_stale x) g h s =
      here s (ap (λ e. if ltb x e then at pop_stale else left tt) s.expected)
  step_dropping-Agrees pop_stale g h s =
      subst
        (λ xs.
          Agrees {A = ⊤} (pop_head g.ooo_heap (λ _. any_stale) g) (pop_head xs (λ _. any_stale) h))
        (sym s.heap) (pop_head-Agrees g.ooo_heap (λ _. any_stale) g h s)

  taken-Agrees :
      (seq : ℕ) (found : Option LudpDataPacket) (g h : LudpHost App)
      → SameCore g h
      → Agrees (taken seq found g) (taken seq found h)
  taken-Agrees seq none g h s = here s refl
  taken-Agrees seq (some pkt) g h s = record {
    point = refl;
    core = record {
      expected = s.expected;
      app = s.app;
      buffer = ap (erase seq) s.buffer;
      heap = s.heap;
      callback = s.callback;
      interval = s.interval;
      window = s.window;
    };
  }

  pub step_draining-Agrees :
      (p : Draining) (g h : LudpHost App)
      → SameCore g h
      → Agrees (step_draining p g) (step_draining p h)
  unfolding step_draining
  step_draining-Agrees any_ready g h s =
      here s (ap (λ xs. when_any xs (at ready_head) (left tt)) s.heap)
  step_draining-Agrees ready_head g h s =
      subst (λ xs. Agrees {A = ⊤} (at_head g.ooo_heap is_ready g) (at_head xs is_ready h))
        (sym s.heap) (at_head-Agrees g.ooo_heap is_ready g h s)
  step_draining-Agrees (is_ready x) g h s =
      here s (ap (λ e. if x == e then at pop_ready else left tt) s.expected)
  step_draining-Agrees pop_ready g h s =
      subst (λ xs. Agrees {A = ⊤} (pop_head g.ooo_heap take_out g) (pop_head xs take_out h))
        (sym s.heap) (pop_head-Agrees g.ooo_heap take_out g h s)
  step_draining-Agrees (take_out seq) g h s =
      subst (λ d. Agrees (taken seq (lookup seq g.out_of_order) g) (taken seq (lookup seq d) h))
        (sym s.buffer) (taken-Agrees seq (lookup seq g.out_of_order) g h s)
  step_draining-Agrees (handing p) g h s =
      within-Agrees handing (λ _. at any_ready) _ _ (step_handing-Agrees p g h s)
