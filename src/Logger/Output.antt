-- ===== src/Logger/Output.antt =====
-- What the output file holds in the end.
use mathlib.Core.List.{append-nil, append_assoc}
use mini_corundum.Base.{
  ℕ, ◌+◌, ◌<◌, ◌≡◌, ◌≢◌, ◌∙◌, sym, ap, refl, true, some, List, [], ◌∷◌, ◌++◌, map, length,
  length-append, leb, arith, Bool-cases, inl, inr, Returns, Returns-map,
}
use mini_corundum.Host.State.{LudpDataPacket, LudpHost}
use mini_corundum.Host.Receive.{datagram, recv_loop}
use mini_corundum.Reassembly.Trace.{feed}
use mini_corundum.Reassembly.Stream.{data_packets}
use mini_corundum.Reassembly.Complete.{IsFresh, Reassembled, recv_loop_reassembles}
use mini_corundum.Logger.{Logger, flush_threshold, join, opened, on_data, flush_rest, flush}

-- the payloads of the packets, one after the other
abbrev pub payloads : List LudpDataPacket → List ℕ
payloads ps = join (map LudpDataPacket.payload ps)

join-append : (xs ys : List (List ℕ)) → join (xs ++ ys) ≡ join xs ++ join ys
unfolding join
join-append [] ys = refl
join-append (x ∷ xs) ys = simp (join-append xs ys, append_assoc)

-- what the file would hold after a flush
abbrev pub pending : Logger → List ℕ
pending w = w.output ++ join w.write_buf

-- A payload goes to the file or to the buffer, behind all before it.
on_data-pending :
    (pkt : LudpDataPacket) (w : Logger) → pending (on_data pkt w) ≡ pending w ++ pkt.payload
unfolding on_data join
on_data-pending pkt w =
    elim (Bool-cases (leb flush_threshold (w.write_buf_size + length pkt.payload))) [
      | inl full ↦ rw full (simp (join-append, append_assoc, append-nil))
      | inr room ↦ rw room (simp (join-append, append_assoc, append-nil))
    ]

pub feed-pending :
    (ps : List LudpDataPacket) (w : Logger)
    → pending (feed (some on_data) ps w) ≡ pending w ++ payloads ps
unfolding feed join
feed-pending [] w = sym (append-nil (pending w))
feed-pending (p ∷ ps) w = rw (feed-pending ps (on_data p w), on_data-pending p w, append_assoc)

flush_rest-output :
    (bufs : List (List ℕ)) (w : Logger) → (flush_rest bufs w).output ≡ w.output ++ join bufs
unfolding flush_rest join
flush_rest-output [] w = sym (append-nil w.output)
flush_rest-output (b ∷ bufs) w = refl

pub flush-output : (w : Logger) → (flush w).output ≡ pending w
unfolding flush
flush-output w = flush_rest-output w.write_buf w

-- The counter is the size of the buffer, which stays below 4 MB.
pub record IsBuffered (w : Logger) : Type 0 where
  pub counted : w.write_buf_size ≡ length (join w.write_buf)
  pub bounded : w.write_buf_size < flush_threshold

-- With a counter that is the size of the buffer, below 4 MB, the callback keeps it so on any
-- packet.
pub on_data-IsBuffered :
    (pkt : LudpDataPacket) (w : Logger) → IsBuffered w → IsBuffered (on_data pkt w)
unfolding on_data join
on_data-IsBuffered pkt w b =
    elim (Bool-cases (leb flush_threshold (w.write_buf_size + length pkt.payload))) [
      | inl full ↦ rw full (omega arith)
      | inr room ↦ rw room (record {
        counted = rw (join-append w.write_buf (pkt.payload ∷ [])) (
            omega (
              arith,
              b.counted,
              length-append (join w.write_buf) (pkt.payload ++ []),
              ap length (append-nil pkt.payload),
            ));
        bounded = ground arith;
      })
    ]

-- The whole path from the wire to the file: from a fresh running host with the callback of
-- `run_logger`, an empty file and buffer, a credit interval other than 0, and fewer than 2^32 for
-- packets and window together, the receive loop raises nothing, and after the last flush the file
-- holds the payloads of exactly the packets 0, 1, 2, ... up to the first that has not come, in
-- order and each once.
pub recv_loop-output :
    (ds : List (List ℕ)) (h : LudpHost Logger)
    → IsFresh h
    → h.on_data ≡ some on_data
    → h.app ≡ opened
    → h.running ≡ true
    → h.credit_interval ≢ 0
    → length (data_packets ds) + h.window_size < 4294967296
    → Returns
        (λ _ h'.
          (ps : List LudpDataPacket) × Reassembled ds ps h h'
          × ((flush h'.app).output ≡ payloads ps))
        (recv_loop (map datagram ds) h)
unfolding join
recv_loop-output ds h f callback empty on nz fits =
    Returns-map (recv_loop_reassembles ds h f on nz fits) λ _ h' (ps, r).
      (ps, r, flush-output h'.app ∙ rw (r.fed, callback, empty) (feed-pending ps opened))
