-- ===== src/Flow/Round.antt =====
-- One round of the polling thread.
use mini_corundum.Base.{
  ℕ, ◌+◌, ◌-◌, ◌*◌, ◌≤◌, ◌<◌, ◌≡◌, ◌⊎◌, inl, inr, refl, Bool, true, false, ◌&&◌, Option, none, some,
  List, [], ◌∷◌, ltb, ◌==◌, arith, ◌>>=◌, Returns, returns, Bool-cases,
}
use mini_corundum.Dict.{Dict}
use mini_corundum.Host.State.{LudpDataPacket, LudpHost}
use mini_corundum.Host.Poll.{
  PollLocals, gap_timeout_us, skip_gap, check_stall, check_stored, check_gap, keep_alive,
}
use mini_corundum.Reassembly.Trace.{SameSetup}
use mini_corundum.Reassembly.Drain.{IsIndexed}
use mini_corundum.Reassembly.Credit.{credited, send_credit_lem}
use mini_corundum.Reassembly.Accept.{IsConsistent}
use mini_corundum.Flow.Skip.{FitsCredit, SkipsTo, Skipped, skip_gap_lem}

-- the clock of the gap has run for more than 5 ms
abbrev pub is_expired : ℕ → Option ℕ → Bool
is_expired now none = false
is_expired now (some since) = ltb gap_timeout_us (now - since)

abbrev pub is_stored : Dict LudpDataPacket → Bool
is_stored [] = false
is_stored (e ∷ d) = true

-- Since the last round no packet was handed over, one is stored, and the gap's clock has run out.
abbrev pub is_due : {App : Type 0} → ℕ → PollLocals → LudpHost App → Bool
is_due now loc h =
    h.expected_seq == loc.last_expected_seq
    && (is_stored h.out_of_order && is_expired now loc.gap_stall_start)

-- the heap of a buffer that holds a packet
heap_of_stored :
    (heap : List ℕ) (d : Dict LudpDataPacket)
    → IsIndexed heap d
    → is_stored d ≡ true
    → (x : ℕ) × (rest : List ℕ) × (heap ≡ x ∷ rest)
heap_of_stored heap [] i e = absurd (ground arith)
heap_of_stored [] ((k, v) ∷ d) i e = absurd (ground (arith, i.keys k))
heap_of_stored (x ∷ rest) (k ∷ d) i e = (x, rest, refl)

module _ {App : Type 0} where
  -- Nothing was handed over between `h` and `h'`.
  pub record Waits (h h' : LudpHost App) : Type 0 where
    pub app : h'.app ≡ h.app
    pub expected : h'.expected_seq ≡ h.expected_seq
    pub heap : h'.ooo_heap ≡ h.ooo_heap
    pub buffer : h'.out_of_order ≡ h.out_of_order
    pub processed : h'.stats.packets_processed ≡ h.stats.packets_processed
    pub gaps : h'.stats.gap_count ≡ h.stats.gap_count
    pub same : SameSetup h h'

  abbrev pub SkipsGap : LudpHost App → LudpHost App → Type 0
  SkipsGap h h' = (x : ℕ) × (ps : List LudpDataPacket) × SkipsTo x ps h h'

  -- A round that ends at `h'`: it skips a gap exactly if one is due, the credit is then the window
  -- ahead of the next packet, and it has not fallen.
  pub record Polled (now : ℕ) (loc : PollLocals) (h h' : LudpHost App) : Type 0 where
    pub consistent : IsConsistent h'
    pub tight : h'.abs_credit ≡ h'.expected_seq + h'.window_size
    pub grows : h.abs_credit ≤ h'.abs_credit
    pub waits : is_due now loc h ≡ false → Waits h h'
    pub skips : is_due now loc h ≡ true → SkipsGap h h'

  -- No skip: the host is left alone, and the round goes on.
  abbrev pub Early : PollLocals → LudpHost App → Bool × PollLocals → LudpHost App → Type 0
  Early loc h r h' = (h' ≡ h) × (r.0 ≡ false) × (r.1.last_data_time ≡ loc.last_data_time)

  module _ (now : ℕ) (loc : PollLocals) (h : LudpHost App) where
    check_stall-Early :
        (clock : Option ℕ)
        → is_expired now clock ≡ false
        → Returns (Early loc h) (check_stall now clock loc h)
    unfolding check_stall
    check_stall-Early none e = returns (refl, refl, refl)
    check_stall-Early (some since) e = rw e (returns (refl, refl, refl))

    check_stored-Early :
        (d : Dict LudpDataPacket)
        → (is_stored d && is_expired now loc.gap_stall_start) ≡ false
        → Returns (Early loc h) (check_stored now d loc h)
    unfolding check_stored
    check_stored-Early [] e = returns (refl, refl, refl)
    check_stored-Early (k ∷ d) e = check_stall-Early loc.gap_stall_start e

    pub check_gap-Early : is_due now loc h ≡ false → Returns (Early loc h) (check_gap now loc h)
    unfolding check_gap
    check_gap-Early e = elim (Bool-cases (h.expected_seq == loc.last_expected_seq)) [
      | inl still ↦ rw still (check_stored-Early h.out_of_order (rw still at e))
      | inr moved ↦ rw moved (returns (refl, refl, refl))
    ]

    check_stall-due :
        (clock : Option ℕ)
        → is_expired now clock ≡ true
        → check_stall now clock loc h ≡ skip_gap loc h
    unfolding check_stall
    check_stall-due none e = cc
    check_stall-due (some since) e = rw e

    check_stored-due :
        (d : Dict LudpDataPacket)
        → (is_stored d && is_expired now loc.gap_stall_start) ≡ true
        → check_stored now d loc h ≡ skip_gap loc h
    unfolding check_stored
    check_stored-due [] e = cc
    check_stored-due (k ∷ d) e = check_stall-due loc.gap_stall_start e

    check_gap-due : is_due now loc h ≡ true → check_gap now loc h ≡ skip_gap loc h
    unfolding check_gap
    check_gap-due e = elim (Bool-cases (h.expected_seq == loc.last_expected_seq)) [
      | inl still ↦ rw still (check_stored-due h.out_of_order (rw still at e))
      | inr moved ↦ absurd (ground arith)
    ]

    pub check_gap-skips :
        IsConsistent h
        → FitsCredit h
        → is_due now loc h ≡ true
        → Returns (Skipped loc h) (check_gap now loc h)
    check_gap-skips c f e =
        let (x, rest, q) = heap_of_stored h.ooo_heap h.out_of_order c.indexed (ground arith) in
        rw (check_gap-due e) (skip_gap_lem x rest loc h c f q)

    -- The resend is at most one more packet of the credit that was granted.
    pub keep_alive_lem :
        h.abs_credit < 4294967296
        → Returns (λ _ h'. (h' ≡ h) ⊎ (h' ≡ credited h.abs_credit h)) (keep_alive now loc h)
    unfolding keep_alive
    keep_alive_lem fits =
        elim (Bool-cases (ltb (h.credit_poll_us * 2) (now - loc.last_data_time))) [
          | inl quiet ↦ rw (quiet, send_credit_lem h.abs_credit h fits, ◌>>=◌) (returns (inr refl))
          | inr busy ↦ rw busy (returns (inl refl))
        ]
