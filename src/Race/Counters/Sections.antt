-- ===== src/Race/Counters/Sections.antt =====
-- How a step of a section stands in the code around it, and steps that touch no counter.
use mini_corundum.Base.{ℕ, ◌≡◌, refl, sym, ◌∙◌, List, [], ◌∷◌, arith}
use mini_corundum.Race.Machine.{Next, at, left, broken, Config, Machine, within}
use mini_corundum.Race.Loops.{at_head, pop_head, when_any}
use mini_corundum.Race.KeptSections.{Recorder}
use mini_corundum.Race.Counters.Exact.{never, count_at, Exact}

module _ (given processed sent credits : ℕ) where
  within-Exact :
      {P Q A B : Type 0} {calls owes : P → ℕ} {calls' owes' : Q → ℕ} (inside : P → Q)
      (behind : A → Next Q B) (c : Config Recorder P A)
      → Exact calls owes given processed sent credits c
      → ((p : P) → (calls' (inside p) ≡ calls p) × (owes' (inside p) ≡ owes p))
      → ((a : A) → (count_at calls' (behind a) ≡ 0) × (count_at owes' (behind a) ≡ 0))
      → Exact calls' owes' given processed sent credits (within inside behind c)
  within-Exact inside behind (at q, h) x same free = record {
    calls_counted = omega (arith, (same q).0, x.calls_counted);
    credits_counted = omega (arith, (same q).1, x.credits_counted);
    recording = x.recording;
  }
  within-Exact inside behind (left a, h) x same free = record {
    calls_counted = omega (arith, (free a).0, x.calls_counted);
    credits_counted = omega (arith, (free a).1, x.credits_counted);
    recording = x.recording;
  }
  within-Exact inside behind (broken e, h) x same free = record {
    calls_counted = x.calls_counted;
    credits_counted = x.credits_counted;
    recording = x.recording;
  }

  -- a step of a section inside another one
  pub section-Exact :
      {P Q A B : Type 0} {calls owes : P → ℕ} {calls' owes' : Q → ℕ} (m : Machine Recorder P A)
      (inside : P → Q) (behind : A → Next Q B) (p : P) (h : Recorder)
      → (Exact {A = A} calls owes given processed sent credits (at p, h)
          → Exact calls owes given processed sent credits (m p h))
      → ((p : P) → (calls' (inside p) ≡ calls p) × (owes' (inside p) ≡ owes p))
      → ((a : A) → (count_at calls' (behind a) ≡ 0) × (count_at owes' (behind a) ≡ 0))
      → Exact {A = B} calls' owes' given processed sent credits (at (inside p), h)
      → Exact calls' owes' given processed sent credits (within inside behind (m p h))
  section-Exact m inside behind p h step same free x =
      within-Exact inside behind (m p h)
        (step (record {
          calls_counted = omega (arith, (same p).0, x.calls_counted);
          credits_counted = omega (arith, (same p).1, x.credits_counted);
          recording = x.recording;
        }))
        same free

  -- a step that touches neither counter nor what it counts
  pub aside-Exact :
      {P A : Type 0} {calls owes : P → ℕ} (p : P) (n : Next P A) (h h' : Recorder)
      → Exact {A = A} calls owes given processed sent credits (at p, h)
      → count_at calls n ≡ calls p
      → count_at owes n ≡ owes p
      → h'.stats.packets_processed ≡ h.stats.packets_processed
      → h'.app ≡ h.app
      → h'.stats.credits_sent ≡ h.stats.credits_sent
      → h'.sent ≡ h.sent
      → h'.on_data ≡ h.on_data
      → Exact calls owes given processed sent credits (n, h')
  aside-Exact p n h h' x c o pp a cs st w = record {
    calls_counted = rw (c, pp, a) (x.calls_counted);
    credits_counted = rw (o, cs, st) (x.credits_counted);
    recording = rw w (x.recording);
  }

  pub when_any-free :
      {P A : Type 0} (f : P → ℕ) (xs : List ℕ) (n m : Next P A)
      → count_at f n ≡ 0
      → count_at f m ≡ 0
      → count_at f (when_any xs n m) ≡ 0
  when_any-free f [] n m e e' = e'
  when_any-free f (x ∷ xs) n m e e' = e

  pub never-free : {P A : Type 0} (n : Next P A) → count_at never n ≡ 0
  never-free (at p) = refl
  never-free (left a) = refl
  never-free (broken e) = refl

  pub head-Exact :
      {P A : Type 0} {calls owes : P → ℕ} (xs : List ℕ) (p : P) (next : ℕ → P) (h : Recorder)
      → calls p ≡ 0
      → owes p ≡ 0
      → ((x : ℕ) → calls (next x) ≡ 0)
      → ((x : ℕ) → owes (next x) ≡ 0)
      → Exact {A = A} calls owes given processed sent credits (at p, h)
      → Exact {A = A} calls owes given processed sent credits (at_head xs next h)
  head-Exact [] p next h c o c' o' x =
      aside-Exact p _ h h x (sym c) (sym o) refl refl refl refl refl
  head-Exact (y ∷ ys) p next h c o c' o' x =
      aside-Exact p _ h h x (c' y ∙ sym c) (o' y ∙ sym o) refl refl refl refl refl

  pub pop-Exact :
      {P A : Type 0} {calls owes : P → ℕ} (xs : List ℕ) (p : P) (next : ℕ → P) (h : Recorder)
      → calls p ≡ 0
      → owes p ≡ 0
      → ((x : ℕ) → calls (next x) ≡ 0)
      → ((x : ℕ) → owes (next x) ≡ 0)
      → Exact {A = A} calls owes given processed sent credits (at p, h)
      → Exact {A = A} calls owes given processed sent credits (pop_head xs next h)
  pop-Exact [] p next h c o c' o' x = aside-Exact p _ h h x (sym c) (sym o) refl refl refl refl refl
  pop-Exact (y ∷ ys) p next h c o c' o' x =
      aside-Exact p _ h _ x (c' y ∙ sym c) (o' y ∙ sym o) refl refl refl refl refl
