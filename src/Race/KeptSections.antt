-- ===== src/Race/KeptSections.antt =====
-- What a step of a section does to the number of copies of a packet.
use mini_corundum.Base.{
  ℕ, ◌+◌, ◌≤◌, ◌≡◌, refl, ⊤, Bool, Option, none, some, List, [], ◌∷◌, arith, or_raise, struct_error,
}
use mini_corundum.Dict.{lookup}
use mini_corundum.Host.State.{LudpDataPacket, LudpHost}
use mini_corundum.Struct.{pack_header}
use mini_corundum.Host.Packets.{ludp_magic, pkt_credit, build_credit}
use mini_corundum.Race.Machine.{Next, at, left, broken, Config, Machine, within}
use mini_corundum.Race.Loops.{
  Handing, processed_up, call_back, load_expected, store_expected, Dropping, any_stale, stale_head,
  is_stale, pop_stale, Draining, any_ready, ready_head, is_ready, pop_ready, take_out, handing,
  Sending, send, count_sent, Granting, load_credit, test_credit, renew, sending, store_credit,
  taken, handed_on, at_head, pop_head, when_any, step_handing, step_dropping, step_draining,
  step_sending, step_granting,
}
use mini_corundum.Race.Copies.{
  recorded, copies, stored_copies, stored_copies-erase, held_handing, held_draining, in_hand, Kept,
}

abbrev pub Recorder : Type 0
Recorder = LudpHost (List LudpDataPacket)

module _ (test : LudpDataPacket → Bool) (bound : ℕ) where
  Kept-within :
      {P Q A B : Type 0} {held : P → ℕ} {held' : Q → ℕ} (inside : P → Q) (behind : A → Next Q B)
      (c : Config Recorder P A)
      → ((p : P) → held' (inside p) ≡ held p)
      → ((a : A) → in_hand test held' (behind a) ≡ 0)
      → Kept test held bound c
      → Kept test held' bound (within inside behind c)
  Kept-within inside behind (at p, h) same free k = record {
    few = omega (arith, same p, k.few);
    recording = k.recording;
  }
  Kept-within inside behind (left a, h) same free k = record {
    few = omega (arith, free a, k.few);
    recording = k.recording;
  }
  Kept-within inside behind (broken e, h) same free k = record {
    few = k.few;
    recording = k.recording;
  }

  pub step_handing-Kept :
      (p : Handing) (h : Recorder)
      → Kept test {A = ⊤} (held_handing test) bound (at p, h)
      → Kept test (held_handing test) bound (step_handing p h)
  unfolding step_handing
  step_handing-Kept (processed_up pkt) h k = record { few = k.few; recording = k.recording }
  step_handing-Kept (call_back pkt) h k = record {
    few = rw (k.recording) (omega (arith, k.few));
    recording = k.recording;
  }
  step_handing-Kept load_expected h k = record { few = k.few; recording = k.recording }
  step_handing-Kept (store_expected n) h k = record { few = k.few; recording = k.recording }

  -- a step of a section inside another one
  pub section-Kept :
      {P Q A B : Type 0} {held : P → ℕ} {held' : Q → ℕ} (m : Machine Recorder P A) (inside : P → Q)
      (behind : A → Next Q B) (p : P) (h : Recorder)
      → (Kept test {A = A} held bound (at p, h) → Kept test held bound (m p h))
      → ((p : P) → held' (inside p) ≡ held p)
      → ((a : A) → in_hand test held' (behind a) ≡ 0)
      → Kept test {A = B} held' bound (at (inside p), h)
      → Kept test held' bound (within inside behind (m p h))
  section-Kept m inside behind p h step same free k =
      Kept-within inside behind (m p h) same free
        (step (record { few = omega (arith, same p, k.few); recording = k.recording }))

  pub when_any-free :
      {P A : Type 0} (held : P → ℕ) (xs : List ℕ) (n m : Next P A)
      → in_hand test held n ≡ 0
      → in_hand test held m ≡ 0
      → in_hand test held (when_any xs n m) ≡ 0
  when_any-free held [] n m e e' = e'
  when_any-free held (x ∷ xs) n m e e' = e

  pub at_head-Kept :
      {P A : Type 0} {held : P → ℕ} (xs : List ℕ) (next : ℕ → P) (h : Recorder)
      → 0 + (copies test h.app + stored_copies test h.out_of_order) ≤ bound
      → h.on_data ≡ some recorded
      → ((x : ℕ) → held (next x) ≡ 0)
      → Kept test {A = A} held bound (at_head xs next h)
  at_head-Kept [] next h few r free = record { few = omega (arith, few); recording = r }
  at_head-Kept (x ∷ xs) next h few r free = record {
    few = omega (arith, few, free x);
    recording = r;
  }

  pop_head-Kept :
      {P A : Type 0} {held : P → ℕ} (xs : List ℕ) (next : ℕ → P) (h : Recorder)
      → 0 + (copies test h.app + stored_copies test h.out_of_order) ≤ bound
      → h.on_data ≡ some recorded
      → ((x : ℕ) → held (next x) ≡ 0)
      → Kept test {A = A} held bound (pop_head xs next h)
  pop_head-Kept [] next h few r free = record { few = omega (arith, few); recording = r }
  pop_head-Kept (x ∷ xs) next h few r free = record {
    few = omega (arith, few, free x);
    recording = r;
  }

  pub step_dropping-Kept :
      (p : Dropping) (h : Recorder)
      → Kept test {A = ⊤} (λ _. 0) bound (at p, h)
      → Kept test (λ _. 0) bound (step_dropping p h)
  unfolding step_dropping
  step_dropping-Kept any_stale h k = record {
    few = omega (
      arith,
      k.few,
      when_any-free {A = ⊤} (λ _. 0) h.ooo_heap (at stale_head) (left tt) refl refl,
    );
    recording = k.recording;
  }
  step_dropping-Kept stale_head h k = at_head-Kept h.ooo_heap is_stale h k.few k.recording λ x. refl
  step_dropping-Kept (is_stale x) h k = record {
    few = ground (arith, k.few);
    recording = k.recording;
  }
  step_dropping-Kept pop_stale h k =
      pop_head-Kept h.ooo_heap (λ _. any_stale) h k.few k.recording λ x. refl

  taken-Kept :
      (seq : ℕ) (found : Option LudpDataPacket) (h : Recorder)
      → lookup seq h.out_of_order ≡ found
      → Kept test {A = ⊤} (held_draining test) bound (at any_ready, h)
      → Kept test (held_draining test) bound (taken seq found h)
  taken-Kept seq none h l k = record { few = k.few; recording = k.recording }
  taken-Kept seq (some pkt) h l k = record {
    few = omega (arith, k.few, stored_copies-erase test seq pkt h.out_of_order l);
    recording = k.recording;
  }

  pub step_draining-Kept :
      (p : Draining) (h : Recorder)
      → Kept test {A = ⊤} (held_draining test) bound (at p, h)
      → Kept test (held_draining test) bound (step_draining p h)
  unfolding step_draining
  step_draining-Kept any_ready h k = record {
    few = omega (
      arith,
      k.few,
      when_any-free {A = ⊤} (held_draining test) h.ooo_heap (at ready_head) (left tt) refl refl,
    );
    recording = k.recording;
  }
  step_draining-Kept ready_head h k = at_head-Kept h.ooo_heap is_ready h k.few k.recording λ x. refl
  step_draining-Kept (is_ready x) h k = record {
    few = ground (arith, k.few);
    recording = k.recording;
  }
  step_draining-Kept pop_ready h k = pop_head-Kept h.ooo_heap take_out h k.few k.recording λ x. refl
  step_draining-Kept (take_out seq) h k =
      taken-Kept seq (lookup seq h.out_of_order) h refl
        (record { few = k.few; recording = k.recording })
  step_draining-Kept (handing p) h k =
      section-Kept step_handing handing (λ _. at any_ready) p h (step_handing-Kept p h) (λ p. refl)
        (λ a. refl) k

  -- `build_credit` leaves the host as it is.
  handed_on-Kept :
      (built : Option (List ℕ)) (h : Recorder)
      → Kept test {P = Sending} {A = ⊤} (λ _. 0) bound (at count_sent, h)
      → Kept test {P = Sending} {A = ⊤} (λ _. 0) bound (handed_on (or_raise built struct_error h))
  handed_on-Kept none h k = record { few = k.few; recording = k.recording }
  handed_on-Kept (some bytes) h k = record { few = k.few; recording = k.recording }

  pub step_sending-Kept :
      (p : Sending) (h : Recorder)
      → Kept test {A = ⊤} (λ _. 0) bound (at p, h)
      → Kept test (λ _. 0) bound (step_sending p h)
  unfolding step_sending build_credit
  step_sending-Kept (send n) h k =
      handed_on-Kept (pack_header ludp_magic pkt_credit 0 n 0 0 0) h
        (record { few = k.few; recording = k.recording })
  step_sending-Kept count_sent h k = record { few = k.few; recording = k.recording }

  pub step_granting-Kept :
      (p : Granting) (h : Recorder)
      → Kept test {A = ⊤} (λ _. 0) bound (at p, h)
      → Kept test (λ _. 0) bound (step_granting p h)
  unfolding step_granting
  step_granting-Kept load_credit h k = record { few = k.few; recording = k.recording }
  step_granting-Kept (test_credit n) h k = record {
    few = ground (arith, k.few);
    recording = k.recording;
  }
  step_granting-Kept renew h k = record { few = k.few; recording = k.recording }
  step_granting-Kept (sending n p) h k =
      section-Kept step_sending (sending n) (λ _. at (store_credit n)) p h (step_sending-Kept p h)
        (λ p. refl) (λ a. refl) k
  step_granting-Kept (store_credit n) h k = record { few = k.few; recording = k.recording }
