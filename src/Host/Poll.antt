-- ===== src/Host/Poll.antt =====
-- The polling thread: `_poll_loop`. One round runs to its end before another thread goes on; times
-- are whole microseconds.
use mini_corundum.Base.{
  ℕ, ◌+◌, ◌-◌, ◌*◌, ⊤, Bool, true, false, Option, none, some, List, [], ◌∷◌, ltb, ◌==◌,
  if◌then◌else◌, Action, ◌>>=◌, ◌>>◌, pure, get, modify, when,
}
use mini_corundum.Dict.{Dict}
use mini_corundum.Host.State.{LudpDataPacket, LudpHost}
use mini_corundum.Host.Packets.{send_credit}
use mini_corundum.Host.Receive.{drop_stale, drain, advance_credit}

-- the local variables of `_poll_loop` that outlive a round
pub record PollLocals : Type 0 where
  pub last_data_time : ℕ
  pub last_expected_seq : ℕ
  pub gap_stall_start : Option ℕ

-- the 5 ms after which a gap is skipped
abbrev pub gap_timeout_us : ℕ
gap_timeout_us = 5000

module _ {App : Type 0} where
  -- before the loop, at time `now`
  unfoldable pub poll_start : ℕ → Action (LudpHost App) PollLocals
  poll_start now = do
    h ← get
    pure (record {
      last_data_time = now;
      last_expected_seq = h.expected_seq;
      gap_stall_start = none;
    })

  -- From `skip_to` on: the buffer is drained, and the credit follows `expected_seq`.
  unfoldable pub skip_to_head : List ℕ → PollLocals → Action (LudpHost App) (Bool × PollLocals)
  skip_to_head [] loc = pure (true, record loc { gap_stall_start = none })
  skip_to_head (skip_to ∷ rest) loc = do
    modify (λ h. record h {
      stats = record (h.stats) { gap_count = h.stats.gap_count + (skip_to - h.expected_seq) };
      expected_seq = skip_to;
    })
    drain
    h ← get
    let new_credit = h.expected_seq + h.window_size
    send_credit new_credit
    modify (λ h. record h { abs_credit = new_credit })
    pure (false, record loc { gap_stall_start = none; last_expected_seq = h.expected_seq })

  unfoldable pub skip_gap : PollLocals → Action (LudpHost App) (Bool × PollLocals)
  skip_gap loc = do
    modify (λ h. record h { ooo_heap = drop_stale h.expected_seq h.ooo_heap })
    skip_to_head (← get).ooo_heap loc

  -- The stalled branch: the clock of the gap starts, or runs, or has run out.
  unfoldable pub check_stall : ℕ → Option ℕ → PollLocals → Action (LudpHost App) (Bool × PollLocals)
  check_stall now none loc = pure (false, record loc { gap_stall_start = some now })
  check_stall now (some since) loc =
      if ltb gap_timeout_us (now - since) then skip_gap loc else pure (false, loc)

  -- the branch on the buffer, `elif self.out_of_order`
  unfoldable pub check_stored :
      ℕ → Dict LudpDataPacket → PollLocals → Action (LudpHost App) (Bool × PollLocals)
  check_stored now [] loc = pure (false, loc)
  check_stored now (e ∷ d) loc = check_stall now loc.gap_stall_start loc

  -- The branches on progress and on the buffer; `true` is the `continue` of the loop.
  unfoldable pub check_gap : ℕ → PollLocals → Action (LudpHost App) (Bool × PollLocals)
  check_gap now loc = do
    h ← get
    if h.expected_seq == loc.last_expected_seq
        then check_stored now h.out_of_order loc
        else pure (false, record loc { last_expected_seq = h.expected_seq; gap_stall_start = none })

  -- the resend of the last credit when no data has come for two poll intervals
  unfoldable pub keep_alive : ℕ → PollLocals → Action (LudpHost App) PollLocals
  keep_alive now loc = do
    h ← get
    if ltb (h.credit_poll_us * 2) (now - loc.last_data_time)
        then (do send_credit h.abs_credit; pure (record loc { last_data_time = now }))
        else pure loc

  -- `if self.stats.packets_received > 0: last_data_time = now`
  unfoldable pub note_data : ℕ → PollLocals → Action (LudpHost App) PollLocals
  note_data now loc = do
    h ← get
    pure (if ltb 0 h.stats.packets_received then record loc { last_data_time = now } else loc)

  -- one round of `_poll_loop`, at time `now`
  unfoldable pub poll_round : ℕ → PollLocals → Action (LudpHost App) PollLocals
  poll_round now loc = do
    loc ← note_data now loc
    advance_credit
    (skipped, loc) ← check_gap now loc
    if skipped then pure loc else keep_alive now loc

  -- `_poll_loop`, on the times at which its sleeps end
  unfoldable pub poll_loop : List ℕ → PollLocals → Action (LudpHost App) ⊤
  poll_loop [] loc = pure tt
  poll_loop (now ∷ nows) loc = do
    h ← get
    when h.running (do loc' ← poll_round now loc; poll_loop nows loc')
