-- ===== src/Race/Ghost/Granting.antt =====
-- A credit update: what it changes, and when it can raise.
use mini_corundum.Base.{
  ℕ, ◌+◌, ◌<◌, refl, ◌∙◌, ⊤, Bool, true, false, Option, none, some, List, if◌then◌else◌, ltb,
  or_raise, struct_error, arith,
}
use mini_corundum.Struct.{pack_header}
use mini_corundum.Struct.RoundTrip.{pack-wire}
use mini_corundum.Host.State.{LudpHost}
use mini_corundum.Host.Packets.{ludp_magic, pkt_credit, build_credit}
use mini_corundum.Reassembly.Credit.{credit_header}
use mini_corundum.Race.Machine.{Next, at, left, broken, Config, within, Reaches, stay, go}
use mini_corundum.Race.Loops.{
  Sending, send, count_sent, Granting, load_credit, test_credit, renew, sending, store_credit,
  handed_on, step_sending, step_granting,
}
use mini_corundum.Race.Receiver.{
  Handling, count_in, track, is_next, hand_over, drop_old, drain_ready, is_due, is_future,
  count_gap, is_stored, push_on, put_in, grant, step_handling,
}
use mini_corundum.Race.Ghost.Agree.{SameCore, itself}

-- the credit that is to be sent fits 32 bits
abbrev pub FitsSending : Sending → Type 0
FitsSending (send n) = n < 4294967296
FitsSending count_sent = ⊤

abbrev pub Fits : Granting → Type 0
Fits (test_credit n) = n < 4294967296
Fits (sending n p) = FitsSending p
Fits _ = ⊤

-- the next point of a credit update: its credit fits, or the update is over
abbrev pub GoesOn : Next Granting ⊤ → Type 0
GoesOn (at p) = Fits p
GoesOn (left a) = ⊤
GoesOn (broken e) = ⊥

abbrev pub InGrant : Next Handling ⊤ → Type 0
InGrant (at (grant p)) = ⊤
InGrant (at _) = ⊥
InGrant (left a) = ⊤
InGrant (broken e) = ⊤

module _ {App : Type 0} where
  pub core_trans : {a b c : LudpHost App} → SameCore a b → SameCore b c → SameCore a c
  core_trans s t = record {
    expected = t.expected ∙ s.expected;
    app = t.app ∙ s.app;
    buffer = t.buffer ∙ s.buffer;
    heap = t.heap ∙ s.heap;
    callback = t.callback ∙ s.callback;
    interval = t.interval ∙ s.interval;
    window = t.window ∙ s.window;
  }

  pub within-core :
      {P Q A B : Type 0} (inside : P → Q) (behind : A → Next Q B) (c : Config (LudpHost App) P A)
      (g : LudpHost App)
      → SameCore g c.1
      → SameCore g (within inside behind c).1
  within-core inside behind (at p, h) g s = s
  within-core inside behind (left a, h) g s = s
  within-core inside behind (broken e, h) g s = s

  handed_on-core :
      (built : Option (List ℕ)) (h : LudpHost App)
      → SameCore h (handed_on (or_raise built struct_error h)).1
  handed_on-core none h = itself h
  handed_on-core (some bytes) h = record {
    expected = refl;
    app = refl;
    buffer = refl;
    heap = refl;
    callback = refl;
    interval = refl;
    window = refl;
  }

  pub step_sending-core : (p : Sending) (h : LudpHost App) → SameCore h (step_sending p h).1
  unfolding step_sending build_credit
  step_sending-core (send n) h = handed_on-core (pack_header ludp_magic pkt_credit 0 n 0 0 0) h
  step_sending-core count_sent h = record {
    expected = refl;
    app = refl;
    buffer = refl;
    heap = refl;
    callback = refl;
    interval = refl;
    window = refl;
  }

  pub step_granting-core : (p : Granting) (h : LudpHost App) → SameCore h (step_granting p h).1
  unfolding step_granting
  step_granting-core load_credit h = itself h
  step_granting-core (test_credit n) h = itself h
  step_granting-core renew h = itself h
  step_granting-core (sending n p) h =
      within-core (sending n) (λ _. at (store_credit n)) (step_sending p h) h
        (step_sending-core p h)
  step_granting-core (store_credit n) h = record {
    expected = refl;
    app = refl;
    buffer = refl;
    heap = refl;
    callback = refl;
    interval = refl;
    window = refl;
  }

  within-InGrant : (c : Config (LudpHost App) Granting ⊤) → InGrant (within grant left c).0
  within-InGrant (at p, h) = tt
  within-InGrant (left a, h) = tt
  within-InGrant (broken e, h) = tt

  in_grant :
      (p : Handling) (h : LudpHost App)
      → InGrant (at p)
      → SameCore h (step_handling p h).1 × InGrant (step_handling p h).0
  unfolding step_handling
  in_grant (grant p) h i = (
    within-core grant left (step_granting p h) h (step_granting-core p h),
    within-InGrant (step_granting p h),
  )
  in_grant (count_in size pkt) h i = elim i [ ]
  in_grant (track pkt) h i = elim i [ ]
  in_grant (is_next pkt) h i = elim i [ ]
  in_grant (hand_over p) h i = elim i [ ]
  in_grant (drop_old p) h i = elim i [ ]
  in_grant (drain_ready p) h i = elim i [ ]
  in_grant is_due h i = elim i [ ]
  in_grant (is_future pkt) h i = elim i [ ]
  in_grant (count_gap pkt) h i = elim i [ ]
  in_grant (is_stored pkt) h i = elim i [ ]
  in_grant (push_on pkt) h i = elim i [ ]
  in_grant (put_in pkt) h i = elim i [ ]

  -- The rest of a credit update changes nothing of the core.
  pub granted-core :
      {c d : Config (LudpHost App) Handling ⊤}
      → Reaches step_handling c d
      → InGrant c.0
      → SameCore c.1 d.1
  granted-core (stay {c}) i = itself c.1
  granted-core (go {p} {s} r) i = core_trans (in_grant p s i).0 (granted-core r (in_grant p s i).1)

  sending_goes :
      (n : ℕ) (p : Sending) (h : LudpHost App)
      → FitsSending p
      → GoesOn (within (sending n) (λ _. at (store_credit n)) (step_sending p h)).0
  unfolding step_sending build_credit
  sending_goes n (send m) h fits = rw (pack-wire (credit_header m) (omega arith)) tt
  sending_goes n count_sent h fits = tt

  pub step_granting-GoesOn :
      (p : Granting) (h : LudpHost App)
      → Fits p
      → h.expected_seq + h.window_size < 4294967296
      → GoesOn (step_granting p h).0
  unfolding step_granting
  step_granting-GoesOn load_credit h f room = room
  step_granting-GoesOn (test_credit n) h f room = tested (ltb h.abs_credit n) n f
    where
      tested :
          (b : Bool) (n : ℕ)
          → n < 4294967296
          → GoesOn (if b then at (sending n (send n)) else left tt)
      tested true n f = f
      tested false n f = tt
  step_granting-GoesOn renew h f room = room
  step_granting-GoesOn (sending n p) h f room = sending_goes n p h f
  step_granting-GoesOn (store_credit n) h f room = tt
