-- ===== src/Flow/Limits.antt =====
-- Where the 32-bit fields of the wire meet the unbounded counters of the host.
use mini_corundum.Base.{
  ℕ, ◌+◌, ◌≤◌, ◌<◌, ◌≡◌, refl, some, List, ◌∷◌, arith, raised, struct_error, Returns, returns,
  ne→==, le→ltb,
}
use mini_corundum.Struct.{IsBytes, pack_header}
use mini_corundum.Host.State.{LudpDataPacket, LudpHost}
use mini_corundum.Host.Packets.{build_credit, send_credit}
use mini_corundum.Host.Receive.{
  count_received, track_highest, accept, advance_credit, recv_datagram,
}
use mini_corundum.Reassembly.Wire.{data_packet, recv_datagram-data}

-- A sequence number on the wire is below 2^32.
seq_num-lt :
    (bytes : List ℕ) (p : LudpDataPacket)
    → IsBytes bytes
    → data_packet bytes ≡ some p
    → p.seq_num < 4294967296
seq_num-lt (m0 ∷ m1 ∷ k ∷ f ∷ s0 ∷ s1 ∷ s2 ∷ s3 ∷ l0 ∷ l1 ∷ t0 ∷ t1 ∷ t2 ∷ t3 ∷ r0 ∷ r1 ∷ payload) p
      b e =
    ground arith
seq_num-lt _ p b e = absurd (ground arith)

module _ {App : Type 0} where
  -- Once `expected_seq` has passed 2^32 - 1, a DATA packet is neither handed over nor stored,
  -- `expected_seq` stays, and no credit is sent.
  pub wrapped_stalls :
      (bytes : List ℕ) (p : LudpDataPacket) (h : LudpHost App)
      → IsBytes bytes
      → data_packet bytes ≡ some p
      → 4294967296 ≤ h.expected_seq
      → Returns
          (λ _ h'.
            (h'.app ≡ h.app)
            × (h'.expected_seq ≡ h.expected_seq)
            × (h'.out_of_order ≡ h.out_of_order)
            × (h'.sent ≡ h.sent))
          (recv_datagram bytes h)
  unfolding count_received track_highest accept
  wrapped_stalls bytes p h b e past =
      let small = seq_num-lt bytes p b e in
      rw
        (
          recv_datagram-data bytes p h e,
          ne→== p.seq_num h.expected_seq (omega arith),
          le→ltb h.expected_seq p.seq_num (omega arith),
        )
        (returns (refl, refl, refl, refl))

  -- A credit update that is due and whose value does not fit 32 bits raises `struct.error`, and
  -- the host is left as it was.
  pub advance_credit-overflow :
      (h : LudpHost App)
      → h.abs_credit < h.expected_seq + h.window_size
      → 4294967296 ≤ h.expected_seq + h.window_size
      → advance_credit h ≡ raised struct_error h
  unfolding advance_credit send_credit build_credit pack_header
  advance_credit-overflow h more past = ground arith
