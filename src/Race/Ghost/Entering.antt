-- ===== src/Race/Ghost/Entering.antt =====
-- How the receive thread comes to a credit update.
use mini_corundum.Base.{⊤, Bool, true, false, if◌then◌else◌, ◌==◌, ◌%◌, ltb}
use mini_corundum.Dict.{contains}
use mini_corundum.Host.State.{LudpHost}
use mini_corundum.Race.Machine.{Next, at, left, broken, Config, within}
use mini_corundum.Race.Loops.{
  processed_up, any_stale, any_ready, step_handing, step_dropping, step_draining,
}
use mini_corundum.Race.Receiver.{
  Handling, count_in, track, is_next, hand_over, drop_old, drain_ready, is_due, due, grant,
  is_future, count_gap, is_stored, push_on, put_in, step_handling,
}
use mini_corundum.Race.Ghost.Receiver.{NotGranting}
use mini_corundum.Race.Ghost.Granting.{Fits}

-- Where the point is in a credit update, its credit fits.
abbrev pub Enters : Next Handling ⊤ → Type 0
Enters (at (grant p)) = Fits p
Enters _ = ⊤

due-Enters : (b c : Bool) → Enters (due b c)
due-Enters true c = tt
due-Enters false true = tt
due-Enters false false = tt

either-Enters :
    (b : Bool) (n m : Next Handling ⊤) → Enters n → Enters m → Enters (if b then n else m)
either-Enters true n m e f = e
either-Enters false n m e f = f

module _ {App : Type 0} where
  within-Enters :
      {P A : Type 0} (inside : P → Handling) (behind : A → Next Handling ⊤)
      (c : Config (LudpHost App) P A)
      → ((p : P) → Enters (at (inside p)))
      → ((a : A) → Enters (behind a))
      → Enters (within inside behind c).0
  within-Enters inside behind (at p, h) i b = i p
  within-Enters inside behind (left a, h) i b = b a
  within-Enters inside behind (broken e, h) i b = tt

  pub step_handling-Enters :
      (p : Handling) (h : LudpHost App) → NotGranting p → Enters (step_handling p h).0
  unfolding step_handling
  step_handling-Enters (count_in size pkt) h o = tt
  step_handling-Enters (track pkt) h o = tt
  step_handling-Enters (is_next pkt) h o =
      either-Enters (pkt.seq_num == h.expected_seq) (at (hand_over (processed_up pkt)))
        (at (is_future pkt)) tt tt
  step_handling-Enters (hand_over p) h o =
      within-Enters hand_over (λ _. at (drop_old any_stale)) (step_handing p h) (λ q. tt) λ a. tt
  step_handling-Enters (drop_old p) h o =
      within-Enters drop_old (λ _. at (drain_ready any_ready)) (step_dropping p h) (λ q. tt) λ a. tt
  step_handling-Enters (drain_ready p) h o =
      within-Enters drain_ready (λ _. at is_due) (step_draining p h) (λ q. tt) λ a. tt
  step_handling-Enters is_due h o =
      due-Enters (h.credit_interval == 0) (h.expected_seq % h.credit_interval == 0)
  step_handling-Enters (is_future pkt) h o =
      either-Enters (ltb h.expected_seq pkt.seq_num) (at (count_gap pkt)) (left tt) tt tt
  step_handling-Enters (count_gap pkt) h o = tt
  step_handling-Enters (is_stored pkt) h o =
      either-Enters (contains pkt.seq_num h.out_of_order) (at (put_in pkt)) (at (push_on pkt)) tt tt
  step_handling-Enters (push_on pkt) h o = tt
  step_handling-Enters (put_in pkt) h o = tt
  step_handling-Enters (grant p) h o = elim o [ ]
