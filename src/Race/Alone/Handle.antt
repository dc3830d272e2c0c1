-- ===== src/Race/Alone/Handle.antt =====
-- `_handle_data` on one packet, undisturbed.
use mini_corundum.Base.{
  List, some, length, ◌≡◌, ℕ, ◌%◌, refl, Bool, true, false, ltb, ◌==◌, inl, inr, Bool-cases, ◌>>◌,
  raise, modify, when, zero_division,
}
use mini_corundum.Dict.{contains}
use mini_corundum.Host.State.{LudpDataPacket, LudpHost}
use mini_corundum.Host.Receive.{
  recv_datagram, count_received, track_highest, deliver_next, drop_stale, drain, advance_credit,
  credit_if_due, accept_in_order, store_future, accept,
}
use mini_corundum.Reassembly.Wire.{data_packet, take_data, recv_datagram-data}
use mini_corundum.Race.Machine.{at, end_of, Reaches, stay, go, Reaches-bind, Reaches-last}
use mini_corundum.Race.Loops.{processed_up, any_stale, any_ready, load_credit}
use mini_corundum.Race.Receiver.{
  count_in, is_next, hand_over, drop_old, drain_ready, is_due, due, grant, is_future, count_gap,
  step_handling,
}
use mini_corundum.Race.Alone.Sections.{
  step_handing-deliver_next, step_dropping-drop_stale, step_draining-drain,
  step_granting-advance_credit,
}

module _ {App : Type 0} where
  credit_alone :
      (h : LudpHost App) → Reaches step_handling (at is_due, h) (end_of (credit_if_due h))
  unfolding step_handling credit_if_due
  credit_alone h = go (decided (h.credit_interval == 0) (h.expected_seq % h.credit_interval == 0))
    where
      decided :
          (zero_interval now : Bool)
          → Reaches step_handling
              (due zero_interval now, h)
              (end_of ((do when zero_interval (raise zero_division); when now advance_credit) h))
      decided true now = stay
      decided false false = stay
      decided false true =
          Reaches-last grant (λ p s. refl) load_credit h (advance_credit h)
            (step_granting-advance_credit h)

  ordered_alone :
      (pkt : LudpDataPacket) (h : LudpHost App)
      → Reaches step_handling
          (at (hand_over (processed_up pkt)), h)
          (end_of (accept_in_order pkt h))
  unfolding step_handling accept_in_order
  ordered_alone pkt h =
      Reaches-bind hand_over (λ _. at (drop_old any_stale)) (λ p s. refl) (deliver_next pkt) _
        (processed_up pkt) h (step_handing-deliver_next pkt h)
        λ _ s.
          Reaches-bind drop_old (λ _. at (drain_ready any_ready)) (λ p s. refl)
            (modify (λ h. record h { ooo_heap = drop_stale h.expected_seq h.ooo_heap })) _ any_stale
            s (step_dropping-drop_stale s)
            λ _ s.
              Reaches-bind drain_ready (λ _. at is_due) (λ p s. refl) drain _ any_ready s
                (step_draining-drain s) λ _ s. credit_alone s

  store_alone :
      (pkt : LudpDataPacket) (h : LudpHost App)
      → Reaches step_handling (at (count_gap pkt), h) (end_of (store_future pkt h))
  unfolding step_handling store_future
  store_alone pkt h = elim (Bool-cases (contains pkt.seq_num h.out_of_order)) [
    | inl known ↦ go (go (rw known (go stay)))
    | inr new ↦ go (go (rw new (go (go stay))))
  ]

  future_alone :
      (pkt : LudpDataPacket) (h : LudpHost App)
      → Reaches step_handling
          (at (is_future pkt), h)
          (end_of (when (ltb h.expected_seq pkt.seq_num) (store_future pkt) h))
  unfolding step_handling
  future_alone pkt h = elim (Bool-cases (ltb h.expected_seq pkt.seq_num)) [
    | inl future ↦ go (rw future (store_alone pkt h))
    | inr old ↦ go (rw old stay)
  ]

  accept_alone :
      (pkt : LudpDataPacket) (h : LudpHost App)
      → Reaches step_handling (at (is_next pkt), h) (end_of (accept pkt h))
  unfolding step_handling accept
  accept_alone pkt h = elim (Bool-cases (pkt.seq_num == h.expected_seq)) [
    | inl next ↦ go (rw next (ordered_alone pkt h))
    | inr other ↦ go (rw other (future_alone pkt h))
  ]

  pub packet_alone :
      (size : ℕ) (pkt : LudpDataPacket) (h : LudpHost App)
      → Reaches step_handling (at (count_in size pkt), h) (end_of (take_data size pkt h))
  unfolding step_handling count_received track_highest
  packet_alone size pkt h = go (go (accept_alone pkt _))

  -- On the bytes of a DATA packet, the single steps of the receive thread, with no other thread in
  -- between, come to the end that the handler of a datagram has on any host: the same state, and
  -- the same exception where there is one.
  pub step_handling-recv_datagram :
      (bytes : List ℕ) (pkt : LudpDataPacket) (h : LudpHost App)
      → data_packet bytes ≡ some pkt
      → Reaches step_handling (at (count_in (length bytes) pkt), h) (end_of (recv_datagram bytes h))
  step_handling-recv_datagram bytes pkt h e =
      rw (recv_datagram-data bytes pkt h e) (packet_alone (length bytes) pkt h)
