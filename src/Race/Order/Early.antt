-- ===== src/Race/Order/Early.antt =====
-- A round of the polling thread within 5 ms of the first one.
use mini_corundum.Base.{
  ℕ, ◌+◌, ◌-◌, ◌*◌, ◌≤◌, ⊤, Bool, true, false, Option, none, some, if◌then◌else◌, ltb, ◌==◌, le→ltb,
  arith,
}
use mini_corundum.Host.State.{LudpHost}
use mini_corundum.Host.Poll.{PollLocals, gap_timeout_us}
use mini_corundum.Race.Machine.{Next, at, left, broken, Config, within}
use mini_corundum.Race.Loops.{load_credit, step_sending, step_granting}
use mini_corundum.Race.Poller
use mini_corundum.Race.Poller.{
  Polling, advance, has_moved, catch_up, has_stored, skip_old, skip_any, skip_head, count_skip,
  jump, skip_drain, skip_grant, settle, is_quiet, repeat, resend, stored, stall, step_polling,
}
use mini_corundum.Race.System.{Turn, wakes}
use mini_corundum.Race.Order.Poller.{OutsideSkip}

-- The clock of a gap does not run, or was started at `first` or later.
abbrev pub StartsFrom : ℕ → Option ℕ → Type 0
StartsFrom first none = ⊤
StartsFrom first (some since) = first ≤ since

-- The time is less than 5 ms past `first`.
abbrev pub IsSoon : ℕ → ℕ → Type 0
IsSoon first now = (first ≤ now) × (now ≤ first + 5000)

abbrev pub WakesSoon : ℕ → Turn → Type 0
WakesSoon first (wakes now) = IsSoon first now
WakesSoon first _ = ⊤

module _ (first now : ℕ) where
  -- The polling thread is outside the skip of a gap, and in time.
  abbrev pub IsEarly : Next (Polling × PollLocals) PollLocals → Type 0
  IsEarly (at (p, loc)) =
      OutsideSkip (p, loc) × StartsFrom first loc.gap_stall_start × IsSoon first now
  IsEarly (left loc) = StartsFrom first loc.gap_stall_start
  IsEarly (broken e) = ⊤

  within-IsEarly :
      {App P A : Type 0} (inside : P → Polling × PollLocals)
      (behind : A → Next (Polling × PollLocals) PollLocals) (c : Config (LudpHost App) P A)
      → ((p : P) → IsEarly (at (inside p)))
      → ((a : A) → IsEarly (behind a))
      → IsEarly (within inside behind c).0
  within-IsEarly inside behind (at p, h) i b = i p
  within-IsEarly inside behind (left a, h) i b = b a
  within-IsEarly inside behind (broken e, h) i b = tt

  either-IsEarly :
      (b : Bool) (n m : Next (Polling × PollLocals) PollLocals)
      → IsEarly n
      → IsEarly m
      → IsEarly (if b then n else m)
  either-IsEarly true n m e f = e
  either-IsEarly false n m e f = f

  stall-IsEarly :
      (since : Option ℕ) (loc : PollLocals)
      → StartsFrom first since
      → StartsFrom first loc.gap_stall_start
      → IsSoon first now
      → IsEarly (at (stall now since loc))
  stall-IsEarly none loc s k (lo, hi) = (tt, lo, (lo, hi))
  stall-IsEarly (some since) loc s k (lo, hi) =
      rw (le→ltb gap_timeout_us (now - since) (omega arith)) (tt, k, (lo, hi))

  stored-IsEarly :
      (b : Bool) (loc : PollLocals)
      → StartsFrom first loc.gap_stall_start
      → IsSoon first now
      → IsEarly (at (if b then stall now loc.gap_stall_start loc else (is_quiet, loc)))
  stored-IsEarly true loc k t = stall-IsEarly loc.gap_stall_start loc k k t
  stored-IsEarly false loc k t = (tt, k, t)

  moved-IsEarly :
      (b : Bool) (loc : PollLocals)
      → StartsFrom first loc.gap_stall_start
      → IsSoon first now
      → IsEarly (at (if b then has_stored else catch_up, loc))
  moved-IsEarly true loc k t = (tt, k, t)
  moved-IsEarly false loc k t = (tt, k, t)

  noted-IsEarly :
      (b : Bool) (p : Polling) (loc : PollLocals)
      → ((loc : PollLocals) → OutsideSkip (p, loc))
      → StartsFrom first loc.gap_stall_start
      → IsSoon first now
      → IsEarly (at (p, if b then record loc { last_data_time = now } else loc))
  noted-IsEarly true p loc o k t = (o _, k, t)
  noted-IsEarly false p loc o k t = (o _, k, t)

  pub step_polling-IsEarly :
      {App : Type 0} (p : Polling) (loc : PollLocals) (h : LudpHost App)
      → IsEarly (at (p, loc))
      → IsEarly (step_polling now (p, loc) h).0
  unfolding step_polling
  step_polling-IsEarly Poller.note_data loc h (o, k, t) =
      noted-IsEarly (ltb 0 h.stats.packets_received) (advance load_credit) loc (λ l. tt) k t
  step_polling-IsEarly (advance p) loc h (o, k, t) =
      within-IsEarly (λ q. (advance q, loc)) (λ _. at (has_moved, loc)) (step_granting p h)
        (λ q. (tt, k, t)) λ a. (tt, k, t)
  step_polling-IsEarly has_moved loc h (o, k, t) =
      moved-IsEarly (h.expected_seq == loc.last_expected_seq) loc k t
  step_polling-IsEarly catch_up loc h (o, k, t) = (tt, tt, t)
  step_polling-IsEarly has_stored loc h (o, k, t) = stored-IsEarly (stored h.out_of_order) loc k t
  step_polling-IsEarly is_quiet loc h (o, k, t) =
      either-IsEarly (ltb (h.credit_poll_us * 2) (now - loc.last_data_time)) (at (repeat, loc))
        (left loc) (tt, k, t) k
  step_polling-IsEarly repeat loc h (o, k, t) = (tt, k, t)
  step_polling-IsEarly (resend p) loc h (o, k, t) =
      within-IsEarly (λ q. (resend q, loc)) (λ _. left (record loc { last_data_time = now }))
        (step_sending p h) (λ q. (tt, k, t)) λ a. k
  step_polling-IsEarly (skip_old p) loc h (o, k, t) = elim o [ ]
  step_polling-IsEarly skip_any loc h (o, k, t) = elim o [ ]
  step_polling-IsEarly skip_head loc h (o, k, t) = elim o [ ]
  step_polling-IsEarly (count_skip n) loc h (o, k, t) = elim o [ ]
  step_polling-IsEarly (jump n) loc h (o, k, t) = elim o [ ]
  step_polling-IsEarly (skip_drain p) loc h (o, k, t) = elim o [ ]
  step_polling-IsEarly (skip_grant p) loc h (o, k, t) = elim o [ ]
  step_polling-IsEarly settle loc h (o, k, t) = elim o [ ]
