-- ===== src/Race/Alone/Sections.antt =====
-- The sections that both threads go through, undisturbed.
use mini_corundum.Base.{
  ℕ, ◌+◌, refl, ⊤, Option, none, some, List, [], ◌∷◌, ltb, ◌==◌, inl, inr, Bool-cases, Outcome, ok,
  raised, Action, ◌>>=◌, ◌>>◌, or_raise, modify, key_error,
}
use mini_corundum.Dict.{lookup, erase}
use mini_corundum.Host.State.{LudpDataPacket, LudpHost}
use mini_corundum.Host.Packets.{build_credit, sendto, send_credit}
use mini_corundum.Host.Receive.{
  call, deliver, deliver_next, drop_stale, drain_from, drain, advance_credit,
}
use mini_corundum.Race.Machine.{at, left, end_of, Reaches, stay, go, Reaches-bind}
use mini_corundum.Race.Loops.{
  processed_up, any_stale, any_ready, load_credit, renew, sending, store_credit, step_sending, send,
  taken, handed_on, step_handing, step_dropping, step_draining, step_granting,
}

module _ {App : Type 0} where
  pub step_handing-deliver_next :
      (pkt : LudpDataPacket) (h : LudpHost App)
      → Reaches step_handing (at (processed_up pkt), h) (end_of (deliver_next pkt h))
  unfolding step_handing deliver_next deliver
  step_handing-deliver_next pkt h = go (go (go (go stay)))

  -- the loop over stale entries, on the entries of the heap
  dropping_from :
      (xs : List ℕ) (h : LudpHost App)
      → Reaches step_dropping
          (at any_stale, record h { ooo_heap = xs })
          (left tt, record h { ooo_heap = drop_stale h.expected_seq xs })
  unfolding step_dropping drop_stale
  dropping_from [] h = go stay
  dropping_from (x ∷ xs) h = elim (Bool-cases (ltb x h.expected_seq)) [
    | inl stale ↦ go (go (go (rw stale (go (dropping_from xs h)))))
    | inr kept ↦ go (go (go (rw kept stay)))
  ]

  pub step_dropping-drop_stale :
      (h : LudpHost App)
      → Reaches step_dropping
          (at any_stale, h)
          (left tt, record h { ooo_heap = drop_stale h.expected_seq h.ooo_heap })
  step_dropping-drop_stale h = dropping_from h.ooo_heap h

  -- `self._deliver(self.out_of_order.pop(seq)); self.expected_seq += 1`, and the loop behind it
  took :
      (seq : ℕ) (found : Option LudpDataPacket) (rest : Action (LudpHost App) ⊤) (xs : List ℕ)
      (h : LudpHost App)
      → ((h' : LudpHost App)
          → Reaches step_draining
              (at any_ready, record h' { ooo_heap = xs })
              (end_of (rest (record h' { ooo_heap = xs }))))
      → Reaches step_draining (taken seq found (record h { ooo_heap = xs })) (
          end_of (
            (do
              pkt ← or_raise found key_error
              modify (λ h. record h { out_of_order = erase seq h.out_of_order })
              deliver_next pkt
              rest)
              (record h { ooo_heap = xs })))
  unfolding step_draining step_handing deliver_next deliver
  took seq none rest xs h k = stay
  took seq (some pkt) rest xs h k = go (
      go (
        go (
          go (
            k (record h {
              out_of_order = erase seq h.out_of_order;
              stats = record (h.stats) { packets_processed = h.stats.packets_processed + 1 };
              app = call h.on_data pkt h.app;
              expected_seq = h.expected_seq + 1;
            })))))

  -- the loop over the entries that are next, on the entries of the heap
  draining_from :
      (xs : List ℕ) (h : LudpHost App)
      → Reaches step_draining
          (at any_ready, record h { ooo_heap = xs })
          (end_of (drain_from xs (record h { ooo_heap = xs })))
  unfolding step_draining drain_from
  draining_from [] h = go stay
  draining_from (x ∷ xs) h = elim (Bool-cases (x == h.expected_seq)) [
    | inl next ↦ go (
        go (
          go (
            rw next (
              go (go (took x (lookup x h.out_of_order) (drain_from xs) xs h (draining_from xs)))))))
    | inr other ↦ go (go (go (rw other stay)))
  ]

  pub step_draining-drain :
      (h : LudpHost App) → Reaches step_draining (at any_ready, h) (end_of (drain h))
  unfolding drain
  step_draining-drain h = draining_from h.ooo_heap h

  sent_on :
      (o : Outcome (LudpHost App) (List ℕ)) (h : LudpHost App)
      → Reaches step_sending (handed_on o) (
          end_of (
            ◌>>=◌ {S = LudpHost App} {A = List ℕ}
              (λ _. o)
              (λ bytes. do
                sendto bytes
                modify (λ h. record h {
                  stats = record (h.stats) { credits_sent = h.stats.credits_sent + 1 };
                }))
              h))
  unfolding step_sending sendto
  sent_on (ok bytes h') h = go stay
  sent_on (raised e h') h = stay

  pub step_sending-send_credit :
      (n : ℕ) (h : LudpHost App) → Reaches step_sending (at (send n), h) (end_of (send_credit n h))
  unfolding step_sending send_credit
  step_sending-send_credit n h = go (sent_on (build_credit n h) h)

  granted_on :
      (n : ℕ) (h : LudpHost App)
      → Reaches step_granting
          (at (sending n (send n)), h)
          (end_of ((send_credit n >> modify (λ h. record h { abs_credit = n })) h))
  unfolding step_granting
  granted_on n h =
      Reaches-bind (sending n) (λ _. at (store_credit n)) (λ p s. refl) (send_credit n) _ (send n) h
        (step_sending-send_credit n h) λ _ s. go stay

  pub step_granting-advance_credit :
      (h : LudpHost App) → Reaches step_granting (at load_credit, h) (end_of (advance_credit h))
  unfolding step_granting advance_credit
  step_granting-advance_credit h =
      elim (Bool-cases (ltb h.abs_credit (h.expected_seq + h.window_size))) [
        | inl more ↦ go (go (rw more (granted_on (h.expected_seq + h.window_size) h)))
        | inr enough ↦ go (go (rw enough stay))
      ]

  pub step_granting-renew :
      (h : LudpHost App)
      → Reaches step_granting
          (at renew, h)
          (end_of (
            (send_credit (h.expected_seq + h.window_size)
                >> modify (λ s. record s { abs_credit = h.expected_seq + h.window_size }))
              h))
  unfolding step_granting
  step_granting-renew h = go (granted_on (h.expected_seq + h.window_size) h)
