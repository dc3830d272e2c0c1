-- ===== src/Race/Copies.antt =====
-- How many copies of a packet there are: those handed over, those stored, and those that a thread
-- has taken up. The application is one that records what it is given.
use mini_corundum.Base.{
  ℕ, ◌+◌, ◌≤◌, ◌≡◌, Bool, some, List, [], ◌∷◌, if◌then◌else◌, ◌==◌, arith, Bool-cases, inl, inr,
}
use mini_corundum.Dict.{Dict, lookup, insert, erase}
use mini_corundum.Host.State.{LudpDataPacket, LudpHost}
use mini_corundum.Host.Poll.{PollLocals}
use mini_corundum.Race.Machine.{Next, at, left, broken, Config}
use mini_corundum.Race.Loops.{Handing, processed_up, call_back, Draining, handing}
use mini_corundum.Race.Receiver.{
  Handling, count_in, track, is_next, hand_over, drain_ready, is_future, count_gap, is_stored,
  push_on, put_in,
}
use mini_corundum.Race.Poller.{Polling, skip_drain}

-- the callback of an application that records
abbrev pub recorded : LudpDataPacket → List LudpDataPacket → List LudpDataPacket
recorded pkt given = pkt ∷ given

module _ (test : LudpDataPacket → Bool) where
  abbrev pub one : LudpDataPacket → ℕ
  one pkt = if test pkt then 1 else 0

  abbrev pub copies : List LudpDataPacket → ℕ
  copies [] = 0
  copies (pkt ∷ pkts) = one pkt + copies pkts

  abbrev pub stored_copies : Dict LudpDataPacket → ℕ
  stored_copies [] = 0
  stored_copies (e ∷ d) = one e.1 + stored_copies d

  pub stored_copies-insert :
      (k : ℕ) (v : LudpDataPacket) (d : Dict LudpDataPacket)
      → stored_copies (insert k v d) ≤ one v + stored_copies d
  unfolding insert
  stored_copies-insert k v [] = omega arith
  stored_copies-insert k v (e ∷ d) = ground (arith, stored_copies-insert k v d)

  stored_copies-erase_le :
      (k : ℕ) (d : Dict LudpDataPacket) → stored_copies (erase k d) ≤ stored_copies d
  unfolding erase
  stored_copies-erase_le k [] = omega arith
  stored_copies-erase_le k (e ∷ d) = ground (arith, stored_copies-erase_le k d)

  pub stored_copies-erase :
      (k : ℕ) (v : LudpDataPacket) (d : Dict LudpDataPacket)
      → lookup k d ≡ some v
      → one v + stored_copies (erase k d) ≤ stored_copies d
  unfolding erase
  stored_copies-erase k v [] l = absurd (ground arith)
  stored_copies-erase k v (e ∷ d) l = elim (Bool-cases (k == e.0)) [
    | inl here ↦ ground (arith, stored_copies-erase_le k d)
    | inr later ↦ ground (arith, stored_copies-erase k v d)
  ]

  abbrev pub held_handing : Handing → ℕ
  held_handing (processed_up pkt) = one pkt
  held_handing (call_back pkt) = one pkt
  held_handing _ = 0

  abbrev pub held_draining : Draining → ℕ
  held_draining (handing p) = held_handing p
  held_draining _ = 0

  abbrev pub held_handling : Handling → ℕ
  held_handling (count_in size pkt) = one pkt
  held_handling (track pkt) = one pkt
  held_handling (is_next pkt) = one pkt
  held_handling (hand_over p) = held_handing p
  held_handling (drain_ready p) = held_draining p
  held_handling (is_future pkt) = one pkt
  held_handling (count_gap pkt) = one pkt
  held_handling (is_stored pkt) = one pkt
  held_handling (push_on pkt) = one pkt
  held_handling (put_in pkt) = one pkt
  held_handling _ = 0

  abbrev pub held_polling : Polling × PollLocals → ℕ
  held_polling (skip_drain p, loc) = held_draining p
  held_polling (_, loc) = 0

  -- what a thread that stands there has in hand
  abbrev pub in_hand : {P A : Type 0} → (P → ℕ) → Next P A → ℕ
  in_hand held (at p) = held p
  in_hand held (left a) = 0
  in_hand held (broken e) = 0

  -- No more than `bound` copies are in the host and in the thread's hand, and the host records.
  pub record Kept {P A : Type 0} (held : P → ℕ) (bound : ℕ)
      (c : Config (LudpHost (List LudpDataPacket)) P A) : Type 0 where
    pub few : in_hand held c.0 + (copies c.1.app + stored_copies c.1.out_of_order) ≤ bound
    pub recording : c.1.on_data ≡ some recorded
