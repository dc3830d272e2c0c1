-- ===== src/Race/Order/Known.antt =====
-- What the receive thread knows at each point, while the polling thread skips no gap.
use mini_corundum.Base.{ℕ, ◌+◌, ◌≡◌, ⊤, some, List, [], ◌∷◌}
use mini_corundum.Dict.{lookup}
use mini_corundum.Host.State.{LudpDataPacket}
use mini_corundum.Race.Machine.{Next, at, left, broken, Config}
use mini_corundum.Race.Loops.{
  Handing, processed_up, call_back, load_expected, store_expected, Draining, is_ready, pop_ready,
  take_out, handing,
}
use mini_corundum.Race.Receiver.{Handling, hand_over, drain_ready}
use mini_corundum.Race.Copies.{recorded}
use mini_corundum.Race.KeptSections.{Recorder}

-- the packets are numbered n - 1, ..., 1, 0
abbrev pub CountDown : ℕ → List LudpDataPacket → Type 0
CountDown n [] = n ≡ 0
CountDown n (p ∷ ps) = (n ≡ p.seq_num + 1) × CountDown p.seq_num ps

-- how many packets have been handed over when the receive thread stands at a point
abbrev pub given_handing : Handing → ℕ → ℕ
given_handing load_expected expected = expected + 1
given_handing (store_expected n) expected = expected + 1
given_handing _ expected = expected

abbrev pub given_draining : Draining → ℕ → ℕ
given_draining (handing p) expected = given_handing p expected
given_draining _ expected = expected

abbrev pub given_handling : Handling → ℕ → ℕ
given_handling (hand_over p) expected = given_handing p expected
given_handling (drain_ready p) expected = given_draining p expected
given_handling _ expected = expected

-- what the receive thread knows at a point
abbrev pub KnownHanding : Handing → Recorder → Type 0
KnownHanding (processed_up pkt) h = pkt.seq_num ≡ h.expected_seq
KnownHanding (call_back pkt) h = pkt.seq_num ≡ h.expected_seq
KnownHanding load_expected h = ⊤
KnownHanding (store_expected n) h = n ≡ h.expected_seq + 1

abbrev pub Leads : ℕ → List ℕ → Type 0
Leads x [] = ⊥
Leads x (y ∷ ys) = x ≡ y

abbrev pub KnownDraining : Draining → Recorder → Type 0
KnownDraining (is_ready x) h = Leads x h.ooo_heap
KnownDraining pop_ready h = Leads h.expected_seq h.ooo_heap
KnownDraining (take_out x) h = x ≡ h.expected_seq
KnownDraining (handing p) h = KnownHanding p h
KnownDraining _ h = ⊤

abbrev pub KnownHandling : Handling → Recorder → Type 0
KnownHandling (hand_over p) h = KnownHanding p h
KnownHandling (drain_ready p) h = KnownDraining p h
KnownHandling _ h = ⊤

module _ {P A : Type 0} where
  abbrev pub given_at : (P → ℕ → ℕ) → Next P A → ℕ → ℕ
  given_at given (at p) expected = given p expected
  given_at given (left a) expected = expected
  given_at given (broken e) expected = expected

  -- An exception in the middle of a hand-over leaves what was handed over.
  abbrev pub KnownAt : (P → Recorder → Type 0) → Next P A → Recorder → Type 0
  KnownAt known (at p) h = known p h
  KnownAt known (left a) h = ⊤
  KnownAt known (broken e) h = ⊤

  pub record Fine (given : P → ℕ → ℕ) (known : P → Recorder → Type 0) (c : Config Recorder P A)
      : Type 0 where
    pub order : CountDown (given_at given c.0 c.1.expected_seq) c.1.app
    pub point : KnownAt known c.0 c.1
    pub named : (k : ℕ) (v : LudpDataPacket) → lookup k c.1.out_of_order ≡ some v → v.seq_num ≡ k
    pub recording : c.1.on_data ≡ some recorded
