-- ===== src/Race/Order/Sections.antt =====
-- The order of the packets in a step of a section.
use mini_corundum.Base.{
  ℕ, ◌≡◌, refl, sym, ◌∙◌, ==→eq, ⊤, Bool, true, false, Option, none, some, List, [], ◌∷◌, arith,
  if◌then◌else◌, ◌==◌,
}
use mini_corundum.Dict.{lookup, lookup-erase}
use mini_corundum.Host.State.{LudpDataPacket}
use mini_corundum.Race.Machine.{Next, at, left, broken, Config, within}
use mini_corundum.Race.Loops.{
  Handing, processed_up, call_back, load_expected, store_expected, Draining, any_ready, ready_head,
  is_ready, pop_ready, take_out, handing, taken, at_head, pop_head, when_any, step_handing,
  step_draining,
}
use mini_corundum.Race.KeptSections.{Recorder}
use mini_corundum.Race.Order.Known.{
  given_handing, given_draining, KnownHanding, KnownDraining, given_at, KnownAt, Fine,
}

pub Fine-within :
    {P Q A B : Type 0} {given : P → ℕ → ℕ} {known : P → Recorder → Type 0} {given' : Q → ℕ → ℕ}
    {known' : Q → Recorder → Type 0} (inside : P → Q) (behind : A → Next Q B)
    (c : Config Recorder P A)
    → ((p : P) → given' (inside p) ≡ given p)
    → ((p : P) → known' (inside p) ≡ known p)
    → ((a : A) (n : ℕ) → given_at given' (behind a) n ≡ n)
    → ((a : A) (h : Recorder) → KnownAt known' (behind a) h)
    → Fine given known c
    → Fine given' known' (within inside behind c)
Fine-within inside behind (at p, h) same hold free here f = record {
  order = rw (same p) (f.order);
  point = rw (hold p) (f.point);
  named = f.named;
  recording = f.recording;
}
Fine-within inside behind (left a, h) same hold free here f = record {
  order = rw (free a h.expected_seq) (f.order);
  point = here a h;
  named = f.named;
  recording = f.recording;
}
Fine-within inside behind (broken e, h) same hold free here f = record {
  order = f.order;
  point = tt;
  named = f.named;
  recording = f.recording;
}

pub step_handing-Fine :
    (p : Handing) (h : Recorder)
    → Fine {A = ⊤} given_handing KnownHanding (at p, h)
    → Fine given_handing KnownHanding (step_handing p h)
unfolding step_handing
step_handing-Fine (processed_up pkt) h f = record {
  order = f.order;
  point = f.point;
  named = f.named;
  recording = f.recording;
}
step_handing-Fine (call_back pkt) h f = record {
  order = rw (f.recording) (omega (arith, f.point), rw (f.point) (f.order));
  point = tt;
  named = f.named;
  recording = f.recording;
}
step_handing-Fine load_expected h f = record {
  order = f.order;
  point = refl;
  named = f.named;
  recording = f.recording;
}
step_handing-Fine (store_expected n) h f = record {
  order = rw (f.point) (f.order);
  point = tt;
  named = f.named;
  recording = f.recording;
}

when_any-Fine :
    (xs : List ℕ) (h : Recorder)
    → Fine {A = ⊤} given_draining KnownDraining (at any_ready, h)
    → Fine {A = ⊤} given_draining KnownDraining (when_any xs (at ready_head) (left tt), h)
when_any-Fine [] h f = record {
  order = f.order;
  point = tt;
  named = f.named;
  recording = f.recording;
}
when_any-Fine (x ∷ xs) h f = record {
  order = f.order;
  point = tt;
  named = f.named;
  recording = f.recording;
}

at_head-Fine :
    (xs : List ℕ) (h : Recorder)
    → h.ooo_heap ≡ xs
    → Fine {A = ⊤} given_draining KnownDraining (at ready_head, h)
    → Fine {A = ⊤} given_draining KnownDraining (at_head xs is_ready h)
at_head-Fine [] h e f = record {
  order = f.order;
  point = tt;
  named = f.named;
  recording = f.recording;
}
at_head-Fine (x ∷ xs) h e f = record {
  order = f.order;
  point = rw e refl;
  named = f.named;
  recording = f.recording;
}

pop_head-Fine :
    (xs : List ℕ) (h : Recorder)
    → h.ooo_heap ≡ xs
    → Fine {A = ⊤} given_draining KnownDraining (at pop_ready, h)
    → Fine {A = ⊤} given_draining KnownDraining (pop_head xs take_out h)
pop_head-Fine [] h e f = record {
  order = f.order;
  point = tt;
  named = f.named;
  recording = f.recording;
}
pop_head-Fine (x ∷ xs) h e f = record {
  order = f.order;
  point = sym (rw e at f.point);
  named = f.named;
  recording = f.recording;
}

taken-Fine :
    (seq : ℕ) (found : Option LudpDataPacket) (h : Recorder)
    → lookup seq h.out_of_order ≡ found
    → Fine {A = ⊤} given_draining KnownDraining (at (take_out seq), h)
    → Fine given_draining KnownDraining (taken seq found h)
taken-Fine seq none h l f = record {
  order = f.order;
  point = tt;
  named = f.named;
  recording = f.recording;
}
taken-Fine seq (some pkt) h l f = record {
  order = f.order;
  point = f.named seq pkt l ∙ f.point;
  named = λ k v e. f.named k v (ground (arith, lookup-erase k seq h.out_of_order));
  recording = f.recording;
}

ready_if :
    (b : Bool) (x : ℕ) (h : Recorder)
    → (x == h.expected_seq) ≡ b
    → Fine {A = ⊤} given_draining KnownDraining (at (is_ready x), h)
    → Fine {A = ⊤} given_draining KnownDraining (if b then at pop_ready else left tt, h)
ready_if true x h e f = record {
  order = f.order;
  point = rw (← ==→eq x h.expected_seq e) (f.point);
  named = f.named;
  recording = f.recording;
}
ready_if false x h e f = record {
  order = f.order;
  point = tt;
  named = f.named;
  recording = f.recording;
}

pub step_draining-Fine :
    (p : Draining) (h : Recorder)
    → Fine {A = ⊤} given_draining KnownDraining (at p, h)
    → Fine given_draining KnownDraining (step_draining p h)
unfolding step_draining
step_draining-Fine any_ready h f = when_any-Fine h.ooo_heap h f
step_draining-Fine ready_head h f = at_head-Fine h.ooo_heap h refl f
step_draining-Fine (is_ready x) h f = ready_if (x == h.expected_seq) x h refl f
step_draining-Fine pop_ready h f = pop_head-Fine h.ooo_heap h refl f
step_draining-Fine (take_out seq) h f = taken-Fine seq (lookup seq h.out_of_order) h refl f
step_draining-Fine (handing p) h f =
    Fine-within handing (λ _. at any_ready) (step_handing p h) (λ p. refl) (λ p. refl) (λ a n. refl)
      (λ a h. tt)
      (step_handing-Fine p h
        (record { order = f.order; point = f.point; named = f.named; recording = f.recording }))
