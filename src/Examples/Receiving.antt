-- ===== src/Examples/Receiving.antt =====
-- The receive path at concrete inputs.
use mini_corundum.Base.{◌≡◌, refl, List, [], ◌∷◌, map, arith, ok, raised, Returns}
use mini_corundum.Host.State.{LudpDataPacket, LudpHost}
use mini_corundum.Host.Receive.{
  datagram, recv_datagram, recv_loop, accept, drain, dispatch, handle_data, parse_data,
  count_received, track_highest, store_future, accept_in_order, deliver_next, deliver, drain_from,
  drop_stale, heappush, credit_if_due, advance_credit,
}
use mini_corundum.Host.Packets.{build_credit, send_credit, sendto}
use mini_corundum.Struct.{pack_header, pack_B, pack_H, pack_I}
use mini_corundum.Dict.{insert, erase}
use mini_corundum.Reassembly.Drain.{Drained, drain_lem}
use mini_corundum.Reassembly.Accept.{Accepted, accept_lem}
use mini_corundum.Reassembly.Stream.{data_packets}
use mini_corundum.Reassembly.Complete.{Reassembled, recv_loop_reassembles}
use mini_corundum.Logger.{Logger, on_data, flush}
use mini_corundum.Logger.Output.{payloads, recv_loop-output}
use mini_corundum.Examples.Data.{parsed, session, host, host-IsFresh, stalled, stalled-IsConsistent}

recv_loop_reassembles_example :
    Returns
      (λ _ h'. (ps : List LudpDataPacket) × Reassembled session ps host h')
      (recv_loop (map datagram session) host)
unfolding data_packets
recv_loop_reassembles_example =
    recv_loop_reassembles session host host-IsFresh refl (omega arith) (omega arith)

recv_loop-output_example :
    Returns
      (λ _ h'.
        (ps : List LudpDataPacket) × Reassembled session ps host h'
        × ((flush h'.app).output ≡ payloads ps))
      (recv_loop (map datagram session) host)
unfolding data_packets
recv_loop-output_example =
    recv_loop-output session host host-IsFresh refl refl refl (omega arith) (omega arith)

-- packet 5 stays behind the gap
session_output :
    elim (recv_loop (map datagram session) host) [ ok _ h ↦ h.app.write_buf | raised _ h ↦ [] ]
    ≡ (10 ∷ []) ∷ (11 ∷ []) ∷ (12 ∷ []) ∷ []
unfolding recv_loop recv_datagram dispatch handle_data parse_data count_received track_highest
    accept store_future accept_in_order deliver_next deliver drain drain_from drop_stale heappush
    credit_if_due advance_credit erase insert build_credit send_credit sendto pack_header pack_B
    pack_H pack_I on_data
session_output = refl

accept_lem_example : Returns (Accepted (parsed 0 10) stalled) (accept (parsed 0 10) stalled)
accept_lem_example =
    accept_lem (parsed 0 10) stalled stalled-IsConsistent (omega arith) (omega arith)

-- packet 2 is due
abbrev caught_up : LudpHost Logger
caught_up = record stalled { expected_seq = 2; abs_credit = 6 }

drain_lem_example : Returns (Drained caught_up) (drain caught_up)
drain_lem_example = drain_lem caught_up (omega arith, tt) stalled-IsConsistent.indexed
