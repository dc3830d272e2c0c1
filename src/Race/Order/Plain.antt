-- ===== src/Race/Order/Plain.antt =====
-- The order of the packets in the sections that hand over nothing.
use mini_corundum.Base.{ℕ, ◌≡◌, refl, ⊤, List, [], ◌∷◌}
use mini_corundum.Race.Machine.{at, left, broken, Config}
use mini_corundum.Race.Loops.{
  Dropping, any_stale, stale_head, is_stale, pop_stale, Granting, at_head, pop_head, step_dropping,
  step_granting,
}
use mini_corundum.Race.KeptSections.{Recorder}
use mini_corundum.Race.Ghost.Granting.{step_granting-core}
use mini_corundum.Race.Order.Known.{Fine}

-- At such a point nothing is known.
abbrev pub plain {ℓ} : {P : Type ℓ} → P → ℕ → ℕ
plain p n = n

abbrev pub Nothing {ℓ} : {P : Type ℓ} → P → Recorder → Type 0
Nothing p h = ⊤

Fine-plain :
    {P A : Type 0} (p : P) (c : Config Recorder P A) (h : Recorder)
    → Fine {A = A} plain Nothing (at p, h)
    → c.1.expected_seq ≡ h.expected_seq
    → c.1.app ≡ h.app
    → c.1.out_of_order ≡ h.out_of_order
    → c.1.on_data ≡ h.on_data
    → Fine plain Nothing c
Fine-plain p (at q, g) h f e a d w = record {
  order = rw (e, a) (f.order);
  point = tt;
  named = rw d (f.named);
  recording = rw w (f.recording);
}
Fine-plain p (left x, g) h f e a d w = record {
  order = rw (e, a) (f.order);
  point = tt;
  named = rw d (f.named);
  recording = rw w (f.recording);
}
Fine-plain p (broken x, g) h f e a d w = record {
  order = rw (e, a) (f.order);
  point = tt;
  named = rw d (f.named);
  recording = rw w (f.recording);
}

head_plain :
    (xs : List ℕ) (h : Recorder)
    → Fine {A = ⊤} plain Nothing (at stale_head, h)
    → Fine {A = ⊤} plain Nothing (at_head xs is_stale h)
head_plain [] h f = Fine-plain stale_head _ h f refl refl refl refl
head_plain (x ∷ xs) h f = Fine-plain stale_head _ h f refl refl refl refl

pop_plain :
    (xs : List ℕ) (h : Recorder)
    → Fine {A = ⊤} plain Nothing (at pop_stale, h)
    → Fine {A = ⊤} plain Nothing (pop_head xs (λ _. any_stale) h)
pop_plain [] h f = Fine-plain pop_stale _ h f refl refl refl refl
pop_plain (x ∷ xs) h f = Fine-plain pop_stale _ h f refl refl refl refl

pub step_dropping-Fine :
    (p : Dropping) (h : Recorder)
    → Fine {A = ⊤} plain Nothing (at p, h)
    → Fine plain Nothing (step_dropping p h)
unfolding step_dropping
step_dropping-Fine any_stale h f = Fine-plain any_stale _ h f refl refl refl refl
step_dropping-Fine stale_head h f = head_plain h.ooo_heap h f
step_dropping-Fine (is_stale x) h f = Fine-plain (is_stale x) _ h f refl refl refl refl
step_dropping-Fine pop_stale h f = pop_plain h.ooo_heap h f

pub step_granting-Fine :
    (p : Granting) (h : Recorder)
    → Fine {A = ⊤} plain Nothing (at p, h)
    → Fine plain Nothing (step_granting p h)
step_granting-Fine p h f =
    let s = step_granting-core p h in
    Fine-plain p (step_granting p h) h f s.expected s.app s.buffer s.callback
