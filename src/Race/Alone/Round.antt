-- ===== src/Race/Alone/Round.antt =====
-- One round of `_poll_loop`, undisturbed.
use mini_corundum.Base.{
  ℕ, ◌+◌, ◌-◌, ◌*◌, ◌≡◌, ◌≤◌, refl, sym, Bool, false, ltb, ◌==◌, inl, inr, Bool-cases, Action,
  ◌>>=◌, ◌>>◌, pure, get, modify, if◌then◌else◌, List, [], ◌∷◌, Option, none, some, arith,
  Option-cases,
}
use mini_corundum.Dict.{Dict}
use mini_corundum.Struct.{pack_header}
use mini_corundum.Host.State.{LudpDataPacket, LudpHost}
use mini_corundum.Host.Packets.{build_credit, sendto, ludp_magic, pkt_credit, send_credit}
use mini_corundum.Host.Receive.{drop_stale, drain, advance_credit}
use mini_corundum.Host.Poll.{
  PollLocals, skip_to_head, skip_gap, check_stall, check_stored, check_gap, keep_alive, note_data,
  poll_round, gap_timeout_us,
}
use mini_corundum.Race.Machine.{
  at, left, end_of, Reaches, Reaches-trans, stay, go, Reaches-bind, Reaches-within, Reaches-eq,
  bind_assoc,
}
use mini_corundum.Race.Loops.{any_stale, any_ready, load_credit, renew, send}
use mini_corundum.Race.Poller
use mini_corundum.Race.Poller.{
  Polling, advance, has_moved, has_stored, skip_old, skip_any, skip_drain, skip_grant, count_skip,
  settle, is_quiet, repeat, resend, stored, stall, step_polling,
}
use mini_corundum.Race.Alone.Sections.{
  step_dropping-drop_stale, step_draining-drain, step_granting-advance_credit, step_granting-renew,
  step_sending-send_credit,
}

-- the head of what is left of the heap is not stale
drop_stale-le :
    (expected x : ℕ) (xs rest : List ℕ) → drop_stale expected xs ≡ x ∷ rest → expected ≤ x
unfolding drop_stale
drop_stale-le expected x [] rest e = absurd (ground arith)
drop_stale-le expected x (y ∷ ys) rest e = ground (arith, drop_stale-le expected x ys rest)

module _ {App : Type 0} (now : ℕ) where
  quiet_alone :
      (loc : PollLocals) (h : LudpHost App)
      → Reaches (step_polling now) (at (is_quiet, loc), h) (end_of (keep_alive now loc h))
  unfolding step_polling keep_alive
  quiet_alone loc h = elim (Bool-cases (ltb (h.credit_poll_us * 2) (now - loc.last_data_time))) [
    | inl quiet ↦ go (
        rw quiet (
          go (
            Reaches-bind (λ q. (resend q, loc)) (λ _. left (record loc { last_data_time = now }))
              (λ p s. refl) (send_credit h.abs_credit) _ (send h.abs_credit) h
              (step_sending-send_credit h.abs_credit h) λ _ s. stay)))
    | inr busy ↦ go (rw busy stay)
  ]

  -- the rest of a round behind the branches on the gap: `true` is the `continue` of the loop
  abbrev behind_gap : Bool × PollLocals → Action (LudpHost App) PollLocals
  behind_gap (skipped, loc) = if skipped then pure loc else keep_alive now loc

  -- the grant behind a skip
  abbrev renewed : PollLocals → Action (LudpHost App) (Bool × PollLocals)
  renewed loc h =
      (do
        send_credit (h.expected_seq + h.window_size)
        modify (λ s. record s { abs_credit = h.expected_seq + h.window_size })
        pure (false, record loc { gap_stall_start = none; last_expected_seq = h.expected_seq }))
        h

  -- The code reads `expected_seq` again behind the grant, which does not touch it.
  renewed_lem :
      (loc : PollLocals) (s : LudpHost App)
      → (do
        send_credit (s.expected_seq + s.window_size)
        modify (λ h. record h { abs_credit = s.expected_seq + s.window_size })
        h ← get
        keep_alive now (record loc { gap_stall_start = none; last_expected_seq = h.expected_seq }))
          s
        ≡ (renewed loc >>= behind_gap) s
  unfolding send_credit build_credit sendto
  renewed_lem loc s =
      elim (Option-cases
        (pack_header ludp_magic pkt_credit 0 (s.expected_seq + s.window_size) 0 0 0)) [
          | inl e ↦ rw (e, ◌>>=◌) refl
          | inr (bytes, e) ↦ rw (e, ◌>>=◌) refl
        ]

  granted_alone :
      (loc : PollLocals) (s : LudpHost App)
      → Reaches
          (step_polling now)
          (at (skip_grant renew, loc), s)
          (end_of ((renewed loc >>= behind_gap) s))
  unfolding step_polling
  granted_alone loc s = Reaches-eq (renewed_lem loc s) (
      Reaches-eq (sym (bind_assoc (send_credit (s.expected_seq + s.window_size) s) _ _ s)) (
        Reaches-bind (λ q. (skip_grant q, loc)) (λ _. at (settle, loc)) (λ p s. refl)
          (λ s.
            (do
              send_credit (s.expected_seq + s.window_size)
              modify (λ h. record h { abs_credit = s.expected_seq + s.window_size }))
              s)
          _ renew s (step_granting-renew s)
          λ _ s. go (
            quiet_alone (record loc { gap_stall_start = none; last_expected_seq = s.expected_seq })
              s)))

  skip_alone :
      (xs : List ℕ) (loc : PollLocals) (h : LudpHost App)
      → ((x : ℕ) (rest : List ℕ) → xs ≡ x ∷ rest → h.expected_seq ≤ x)
      → Reaches
          (step_polling now)
          (at (skip_any, loc), record h { ooo_heap = xs })
          (end_of ((skip_to_head xs loc >>= behind_gap) (record h { ooo_heap = xs })))
  unfolding step_polling skip_to_head
  skip_alone [] loc h above = go stay
  skip_alone (x ∷ xs) loc h above = go (
      go (
        go (
          go (
            rw gap (
              Reaches-eq (bind_assoc (drain jumped) (λ _. renewed loc) behind_gap jumped) (
                Reaches-bind (λ q. (skip_drain q, loc)) (λ _. at (skip_grant renew, loc))
                  (λ p s. refl) drain _ any_ready jumped (step_draining-drain jumped)
                  λ _ s. granted_alone loc s))))))
    where
      jumped : LudpHost App
      jumped = record h {
        expected_seq = x;
        ooo_heap = x ∷ xs;
        stats = record (h.stats) { gap_count = h.stats.gap_count + (x - h.expected_seq) };
      }

      gap : h.stats.gap_count + x - h.expected_seq ≡ h.stats.gap_count + (x - h.expected_seq)
      gap = omega (arith, above x xs refl)

  skip_gap_alone :
      (loc : PollLocals) (h : LudpHost App)
      → Reaches
          (step_polling now)
          (at (skip_old any_stale, loc), h)
          (end_of ((skip_gap loc >>= behind_gap) h))
  unfolding step_polling skip_gap
  skip_gap_alone loc h =
      Reaches-trans
        (Reaches-within (λ q. (skip_old q, loc)) (λ _. at (skip_any, loc)) (λ p s. refl)
          (step_dropping-drop_stale h))
        (skip_alone (drop_stale h.expected_seq h.ooo_heap) loc h
          λ x rest e. drop_stale-le h.expected_seq x h.ooo_heap rest e)

  stall_alone :
      (since : Option ℕ) (loc : PollLocals) (h : LudpHost App)
      → Reaches
          (step_polling now)
          (at (stall now since loc), h)
          (end_of ((check_stall now since loc >>= behind_gap) h))
  unfolding check_stall
  stall_alone none loc h = quiet_alone _ h
  stall_alone (some since) loc h = elim (Bool-cases (ltb gap_timeout_us (now - since))) [
    | inl due ↦ rw (due, ◌>>=◌) (skip_gap_alone loc h)
    | inr early ↦ rw (early, ◌>>=◌) (quiet_alone loc h)
  ]

  stored_alone :
      (d : Dict LudpDataPacket) (loc : PollLocals) (h : LudpHost App)
      → Reaches
          (step_polling now)
          (at (if stored d then stall now loc.gap_stall_start loc else (is_quiet, loc)), h)
          (end_of ((check_stored now d loc >>= behind_gap) h))
  unfolding check_stored
  stored_alone [] loc h = quiet_alone loc h
  stored_alone (e ∷ d) loc h = stall_alone loc.gap_stall_start loc h

  gap_alone :
      (loc : PollLocals) (h : LudpHost App)
      → Reaches
          (step_polling now)
          (at (has_moved, loc), h)
          (end_of ((check_gap now loc >>= behind_gap) h))
  unfolding step_polling check_gap
  gap_alone loc h = elim (Bool-cases (h.expected_seq == loc.last_expected_seq)) [
    | inl still ↦ go (rw (still, ◌>>=◌) (go (stored_alone h.out_of_order loc h)))
    | inr moved ↦ go (rw (moved, ◌>>=◌) (go (quiet_alone _ h)))
  ]

  -- The single steps of a round of the polling thread, with no other thread in between, come to
  -- the end that `poll_round` has on any host: the same state and local variables, and the same
  -- exception where there is one.
  pub step_polling-poll_round :
      (loc : PollLocals) (h : LudpHost App)
      → Reaches (step_polling now) (at (Poller.note_data, loc), h) (end_of (poll_round now loc h))
  unfolding step_polling poll_round note_data
  step_polling-poll_round loc h = go (
      Reaches-bind (λ q. (advance q, noted)) (λ _. at (has_moved, noted)) (λ p s. refl)
        advance_credit _ load_credit h (step_granting-advance_credit h) λ _ s. gap_alone noted s)
    where
      noted : PollLocals
      noted = if ltb 0 h.stats.packets_received then record loc { last_data_time = now } else loc
