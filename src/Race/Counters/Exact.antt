-- ===== src/Race/Counters/Exact.antt =====
-- The counters `packets_processed` and `credits_sent` against what they count.
use mini_corundum.Base.{ℕ, ◌+◌, ◌≡◌, some, length}
use mini_corundum.Host.Poll.{PollLocals}
use mini_corundum.Race.Machine.{Next, at, left, broken, Config}
use mini_corundum.Race.Loops.{
  Handing, call_back, Draining, handing, Sending, count_sent, Granting, sending,
}
use mini_corundum.Race.Receiver.{Handling, hand_over, drain_ready, grant}
use mini_corundum.Race.Poller.{Polling, advance, skip_drain, skip_grant, resend}
use mini_corundum.Race.Copies.{recorded}
use mini_corundum.Race.KeptSections.{Recorder}

-- 1 at the points at which a packet is counted and not yet handed over
abbrev pub calls_handing : Handing → ℕ
calls_handing (call_back pkt) = 1
calls_handing _ = 0

abbrev pub calls_draining : Draining → ℕ
calls_draining (handing p) = calls_handing p
calls_draining _ = 0

abbrev pub calls_handling : Handling → ℕ
calls_handling (hand_over p) = calls_handing p
calls_handling (drain_ready p) = calls_draining p
calls_handling _ = 0

abbrev pub calls_polling : Polling × PollLocals → ℕ
calls_polling (skip_drain p, loc) = calls_draining p
calls_polling (_, loc) = 0

-- 1 at the points at which a credit is sent and not yet counted
abbrev pub owes_sending : Sending → ℕ
owes_sending count_sent = 1
owes_sending _ = 0

abbrev pub owes_granting : Granting → ℕ
owes_granting (sending n p) = owes_sending p
owes_granting _ = 0

abbrev pub owes_handling : Handling → ℕ
owes_handling (grant p) = owes_granting p
owes_handling _ = 0

abbrev pub owes_polling : Polling × PollLocals → ℕ
owes_polling (advance p, loc) = owes_granting p
owes_polling (skip_grant p, loc) = owes_granting p
owes_polling (resend p, loc) = owes_sending p
owes_polling (_, loc) = 0

abbrev pub never {ℓ} : {P : Type ℓ} → P → ℕ
never p = 0

module _ {P A : Type 0} where
  abbrev pub count_at : (P → ℕ) → Next P A → ℕ
  count_at f (at p) = f p
  count_at f (left a) = 0
  count_at f (broken e) = 0

  -- The other numbers are what was there before, and what the other thread adds.
  pub record Exact (calls owes : P → ℕ) (given processed sent credits : ℕ) (c : Config Recorder P A)
      : Type 0 where
    pub calls_counted :
        c.1.stats.packets_processed + given ≡ length c.1.app + count_at calls c.0 + processed
    pub credits_counted :
        length c.1.sent + credits ≡ c.1.stats.credits_sent + count_at owes c.0 + sent
    pub recording : c.1.on_data ≡ some recorded
