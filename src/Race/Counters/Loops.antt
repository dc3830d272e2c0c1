-- ===== src/Race/Counters/Loops.antt =====
-- The counters in a step of a section.
use mini_corundum.Base.{
  ℕ, refl, ⊤, Option, none, some, List, [], ◌∷◌, length-append, arith, or_raise, struct_error,
}
use mini_corundum.Dict.{lookup}
use mini_corundum.Struct.{pack_header}
use mini_corundum.Host.State.{LudpDataPacket}
use mini_corundum.Host.Packets.{ludp_magic, pkt_credit, build_credit}
use mini_corundum.Race.Machine.{at, left}
use mini_corundum.Race.Loops.{
  Handing, processed_up, call_back, load_expected, store_expected, Dropping, any_stale, stale_head,
  is_stale, pop_stale, Draining, any_ready, ready_head, is_ready, pop_ready, take_out, handing,
  Sending, send, count_sent, Granting, load_credit, test_credit, renew, sending, store_credit,
  taken, handed_on, step_handing, step_dropping, step_draining, step_sending, step_granting,
}
use mini_corundum.Race.KeptSections.{Recorder}
use mini_corundum.Race.Counters.Exact.{
  calls_handing, calls_draining, owes_sending, owes_granting, never, Exact,
}
use mini_corundum.Race.Counters.Sections.{
  section-Exact, aside-Exact, when_any-free, never-free, head-Exact, pop-Exact,
}

module _ (given processed sent credits : ℕ) where
  pub step_handing-Exact :
      (p : Handing) (h : Recorder)
      → Exact {A = ⊤} calls_handing never given processed sent credits (at p, h)
      → Exact calls_handing never given processed sent credits (step_handing p h)
  unfolding step_handing
  step_handing-Exact (processed_up pkt) h x = record {
    calls_counted = omega (arith, x.calls_counted);
    credits_counted = x.credits_counted;
    recording = x.recording;
  }
  step_handing-Exact (call_back pkt) h x = record {
    calls_counted = rw (x.recording) (omega (arith, x.calls_counted));
    credits_counted = x.credits_counted;
    recording = x.recording;
  }
  step_handing-Exact load_expected h x = record {
    calls_counted = x.calls_counted;
    credits_counted = x.credits_counted;
    recording = x.recording;
  }
  step_handing-Exact (store_expected n) h x = record {
    calls_counted = x.calls_counted;
    credits_counted = x.credits_counted;
    recording = x.recording;
  }

  pub step_dropping-Exact :
      (p : Dropping) (h : Recorder)
      → Exact {A = ⊤} never never given processed sent credits (at p, h)
      → Exact never never given processed sent credits (step_dropping p h)
  unfolding step_dropping
  step_dropping-Exact any_stale h x =
      aside-Exact given processed sent credits any_stale _ h h x
        (never-free given processed sent credits _) (never-free given processed sent credits _) refl
        refl refl refl refl
  step_dropping-Exact stale_head h x =
      head-Exact given processed sent credits h.ooo_heap stale_head is_stale h refl refl (λ y. refl)
        (λ y. refl) x
  step_dropping-Exact (is_stale n) h x =
      aside-Exact given processed sent credits (is_stale n) _ h h x
        (never-free given processed sent credits _) (never-free given processed sent credits _) refl
        refl refl refl refl
  step_dropping-Exact pop_stale h x =
      pop-Exact given processed sent credits h.ooo_heap pop_stale (λ _. any_stale) h refl refl
        (λ y. refl) (λ y. refl) x

  taken-Exact :
      (seq : ℕ) (found : Option LudpDataPacket) (h : Recorder)
      → Exact {A = ⊤} calls_draining never given processed sent credits (at (take_out seq), h)
      → Exact calls_draining never given processed sent credits (taken seq found h)
  taken-Exact seq none h x =
      aside-Exact given processed sent credits (take_out seq) _ h h x refl refl refl refl refl refl
        refl
  taken-Exact seq (some pkt) h x =
      aside-Exact given processed sent credits (take_out seq) _ h _ x refl refl refl refl refl refl
        refl

  pub step_draining-Exact :
      (p : Draining) (h : Recorder)
      → Exact {A = ⊤} calls_draining never given processed sent credits (at p, h)
      → Exact calls_draining never given processed sent credits (step_draining p h)
  unfolding step_draining
  step_draining-Exact any_ready h x =
      aside-Exact given processed sent credits any_ready _ h h x
        (when_any-free given processed sent credits calls_draining h.ooo_heap (at ready_head)
          (left tt) refl refl)
        (never-free given processed sent credits _) refl refl refl refl refl
  step_draining-Exact ready_head h x =
      head-Exact given processed sent credits h.ooo_heap ready_head is_ready h refl refl (λ y. refl)
        (λ y. refl) x
  step_draining-Exact (is_ready n) h x =
      aside-Exact given processed sent credits (is_ready n) _ h h x (ground arith)
        (never-free given processed sent credits _) refl refl refl refl refl
  step_draining-Exact pop_ready h x =
      pop-Exact given processed sent credits h.ooo_heap pop_ready take_out h refl refl (λ y. refl)
        (λ y. refl) x
  step_draining-Exact (take_out seq) h x = taken-Exact seq (lookup seq h.out_of_order) h x
  step_draining-Exact (handing p) h x =
      section-Exact given processed sent credits step_handing handing (λ _. at any_ready) p h
        (step_handing-Exact p h) (λ q. (refl, refl)) (λ a. (refl, refl)) x

  handed_on-Exact :
      (n : ℕ) (built : Option (List ℕ)) (h : Recorder)
      → Exact {A = ⊤} never owes_sending given processed sent credits (at (send n), h)
      → Exact {A = ⊤} never owes_sending given processed sent credits
          (handed_on (or_raise built struct_error h))
  handed_on-Exact n none h x =
      aside-Exact given processed sent credits (send n) _ h h x refl refl refl refl refl refl refl
  handed_on-Exact n (some bytes) h x = record {
    calls_counted = x.calls_counted;
    credits_counted = omega (arith, x.credits_counted, length-append h.sent (bytes ∷ []));
    recording = x.recording;
  }

  pub step_sending-Exact :
      (p : Sending) (h : Recorder)
      → Exact {A = ⊤} never owes_sending given processed sent credits (at p, h)
      → Exact never owes_sending given processed sent credits (step_sending p h)
  unfolding step_sending build_credit
  step_sending-Exact (send n) h x =
      handed_on-Exact n (pack_header ludp_magic pkt_credit 0 n 0 0 0) h x
  step_sending-Exact count_sent h x = record {
    calls_counted = x.calls_counted;
    credits_counted = omega (arith, x.credits_counted);
    recording = x.recording;
  }

  pub step_granting-Exact :
      (p : Granting) (h : Recorder)
      → Exact {A = ⊤} never owes_granting given processed sent credits (at p, h)
      → Exact never owes_granting given processed sent credits (step_granting p h)
  unfolding step_granting
  step_granting-Exact load_credit h x =
      aside-Exact given processed sent credits load_credit _ h h x refl refl refl refl refl refl
        refl
  step_granting-Exact (test_credit n) h x =
      aside-Exact given processed sent credits (test_credit n) _ h h x
        (never-free given processed sent credits _) (ground arith) refl refl refl refl refl
  step_granting-Exact renew h x =
      aside-Exact given processed sent credits renew _ h h x refl refl refl refl refl refl refl
  step_granting-Exact (sending n p) h x =
      section-Exact given processed sent credits step_sending (sending n) (λ _. at (store_credit n))
        p h (step_sending-Exact p h) (λ q. (refl, refl)) (λ a. (refl, refl)) x
  step_granting-Exact (store_credit n) h x =
      aside-Exact given processed sent credits (store_credit n) _ h _ x refl refl refl refl refl
        refl refl
