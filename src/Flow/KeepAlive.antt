-- ===== src/Flow/KeepAlive.antt =====
-- The resend of the last credit, and when it happens.
use mini_corundum.Base.{
  ℕ, ◌+◌, ◌-◌, ◌*◌, ◌<◌, ◌≡◌, refl, false, lt→ltb, le→ltb, arith, ◌>>=◌, ok, Returns, returns,
  Returns-bind,
}
use mini_corundum.Host.State.{LudpHost}
use mini_corundum.Host.Receive.{advance_credit}
use mini_corundum.Host.Poll.{PollLocals, check_gap, keep_alive, note_data, poll_round}
use mini_corundum.Reassembly.Credit.{credited, send_credit_lem}
use mini_corundum.Flow.Round.{is_due, Early, check_gap-Early}

module _ {App : Type 0} where
  -- with the credit at its limit there is nothing to advance
  advance_credit-tight :
      (h : LudpHost App)
      → h.abs_credit ≡ h.expected_seq + h.window_size
      → advance_credit h ≡ ok tt h
  unfolding advance_credit
  advance_credit-tight h tight =
      rw (le→ltb h.abs_credit (h.expected_seq + h.window_size) (omega arith))

  -- Once any DATA packet has come in, a round with the credit at the window ahead and no gap to
  -- skip changes nothing and sends nothing, however long ago the last packet came.
  pub poll_round-silent :
      (now : ℕ) (loc : PollLocals) (h : LudpHost App)
      → 0 < h.stats.packets_received
      → h.abs_credit ≡ h.expected_seq + h.window_size
      → is_due now loc h ≡ false
      → Returns (λ _ h'. h' ≡ h) (poll_round now loc h)
  unfolding poll_round note_data keep_alive
  poll_round-silent now loc h some tight early =
      rw (advance_credit-tight h tight, ◌>>=◌, lt→ltb 0 h.stats.packets_received some)
        (Returns-bind {P = Early (record loc { last_data_time = now }) h}
          (check_gap now (record loc { last_data_time = now })) _
          (check_gap-Early now (record loc { last_data_time = now }) h early)
          λ res h' (e, go, t).
            rw (go, e)
              (rw (le→ltb (h.credit_poll_us * 2) (now - res.1.last_data_time) (omega (arith, t)))
                (returns refl)))

  -- Before the first DATA packet, with the credit at the window ahead and below 2^32 and no gap to
  -- skip, a round later than two poll intervals after the last resend sends the credit again and
  -- restarts that clock.
  pub poll_round-resends :
      (now : ℕ) (loc : PollLocals) (h : LudpHost App)
      → h.stats.packets_received ≡ 0
      → h.abs_credit ≡ h.expected_seq + h.window_size
      → h.abs_credit < 4294967296
      → is_due now loc h ≡ false
      → h.credit_poll_us * 2 < now - loc.last_data_time
      → Returns
          (λ loc' h'. (h' ≡ credited h.abs_credit h) × (loc'.last_data_time ≡ now))
          (poll_round now loc h)
  unfolding poll_round note_data keep_alive
  poll_round-resends now loc h nothing tight fits early long =
      rw (advance_credit-tight h tight, ◌>>=◌, le→ltb 0 h.stats.packets_received (omega arith))
        (Returns-bind {P = Early loc h} (check_gap now loc) _ (check_gap-Early now loc h early)
          λ res h' (e, go, t).
            rw (go, e)
              (rw
                (
                  lt→ltb (h.credit_poll_us * 2) (now - res.1.last_data_time) (omega (arith, t)),
                  send_credit_lem h.abs_credit h fits,
                  ◌>>=◌,
                )
                (returns (refl, refl))))
