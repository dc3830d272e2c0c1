-- ===== src/Race/Poller.antt =====
-- The polling thread in one round of `_poll_loop`, behind its sleep. A round knows the time `now`
-- and its local variables.
use mini_corundum.Base.{
  ℕ, ◌+◌, ◌-◌, ◌*◌, Bool, true, false, Option, none, some, [], ◌∷◌, ltb, ◌==◌, if◌then◌else◌,
}
use mini_corundum.Dict.{Dict}
use mini_corundum.Host.State.{LudpDataPacket, LudpHost}
use mini_corundum.Host.Poll.{PollLocals, gap_timeout_us}
use mini_corundum.Race.Machine.{at, left, Machine, within}
use mini_corundum.Race.Loops.{
  Dropping, any_stale, Draining, any_ready, Granting, load_credit, renew, send, step_dropping,
  step_draining, step_granting, step_sending, Sending, at_head, when_any,
}

-- the points of a round; `skip_any` to `settle` are the skip of a gap
pub data Polling : Type 0 where
  note_data : Polling
  advance : Granting → Polling
  has_moved : Polling
  catch_up : Polling
  has_stored : Polling
  skip_old : Dropping → Polling
  skip_any : Polling
  skip_head : Polling
  count_skip : ℕ → Polling
  jump : ℕ → Polling
  skip_drain : Draining → Polling
  skip_grant : Granting → Polling
  settle : Polling
  is_quiet : Polling
  repeat : Polling
  resend : Sending → Polling

-- `stored` is whether `out_of_order` has entries.
abbrev pub stored : Dict LudpDataPacket → Bool
stored [] = false
stored (e ∷ d) = true

-- the locals and the way on, at the test of a stalled gap
abbrev pub stall : ℕ → Option ℕ → PollLocals → Polling × PollLocals
stall now none loc = (is_quiet, record loc { gap_stall_start = some now })
stall now (some since) loc =
    if ltb gap_timeout_us (now - since) then (skip_old any_stale, loc) else (is_quiet, loc)

module _ {App : Type 0} where
  -- `self.stats.gap_count += skip_to - self.expected_seq`; a count below 0, which takes an
  -- `expected_seq` that has passed `skip_to`, is kept as 0.
  abbrev pub skipped : ℕ → LudpHost App → LudpHost App
  skipped skip_to h = record h {
    stats = record (h.stats) { gap_count = h.stats.gap_count + skip_to - h.expected_seq };
  }

  unfoldable pub step_polling : ℕ → Machine (LudpHost App) (Polling × PollLocals) PollLocals
  step_polling now (note_data, loc) h = (
    at (
      advance load_credit,
      if ltb 0 h.stats.packets_received then record loc { last_data_time = now } else loc,
    ),
    h,
  )
  step_polling now (advance p, loc) h =
      within (λ q. (advance q, loc)) (λ _. at (has_moved, loc)) (step_granting p h)
  step_polling now (has_moved, loc) h =
      (at (if h.expected_seq == loc.last_expected_seq then has_stored else catch_up, loc), h)
  step_polling now (catch_up, loc) h =
      (at (is_quiet, record loc { last_expected_seq = h.expected_seq; gap_stall_start = none }), h)
  step_polling now (has_stored, loc) h =
      (at (if stored h.out_of_order then stall now loc.gap_stall_start loc else (is_quiet, loc)), h)
  step_polling now (skip_old p, loc) h =
      within (λ q. (skip_old q, loc)) (λ _. at (skip_any, loc)) (step_dropping p h)
  step_polling now (skip_any, loc) h =
      (when_any h.ooo_heap (at (skip_head, loc)) (left (record loc { gap_stall_start = none })), h)
  step_polling now (skip_head, loc) h = at_head h.ooo_heap (λ skip_to. (count_skip skip_to, loc)) h
  step_polling now (count_skip skip_to, loc) h = (at (jump skip_to, loc), skipped skip_to h)
  step_polling now (jump skip_to, loc) h =
      (at (skip_drain any_ready, loc), record h { expected_seq = skip_to })
  step_polling now (skip_drain p, loc) h =
      within (λ q. (skip_drain q, loc)) (λ _. at (skip_grant renew, loc)) (step_draining p h)
  step_polling now (skip_grant p, loc) h =
      within (λ q. (skip_grant q, loc)) (λ _. at (settle, loc)) (step_granting p h)
  step_polling now (settle, loc) h =
      (at (is_quiet, record loc { gap_stall_start = none; last_expected_seq = h.expected_seq }), h)
  step_polling now (is_quiet, loc) h = (
    if ltb (h.credit_poll_us * 2) (now - loc.last_data_time) then at (repeat, loc) else left loc,
    h,
  )
  step_polling now (repeat, loc) h = (at (resend (send h.abs_credit), loc), h)
  step_polling now (resend p, loc) h =
      within (λ q. (resend q, loc)) (λ _. left (record loc { last_data_time = now }))
        (step_sending p h)
