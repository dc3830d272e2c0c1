-- ===== src/Race/Receiver.antt =====
-- The receive thread on one DATA packet: `_handle_data` behind the parsing of the header.
use mini_corundum.Base.{
  ℕ, ◌+◌, ◌%◌, ⊤, Bool, true, false, some, ltb, ◌==◌, if◌then◌else◌, zero_division,
}
use mini_corundum.Dict.{contains, insert}
use mini_corundum.Host.State.{LudpDataPacket, is_retransmit, LudpHost}
use mini_corundum.Host.Receive.{heappush}
use mini_corundum.Race.Machine.{Next, at, left, broken, Machine, within}
use mini_corundum.Race.Loops.{
  Handing, processed_up, Dropping, any_stale, Draining, any_ready, Granting, load_credit,
  step_handing, step_dropping, step_draining, step_granting,
}

-- `hand_over` to `grant` are the branch of the packet that is in order, `is_future` to `put_in` that
-- of a packet from the future. `highest_seq` belongs to this thread alone.
pub data Handling : Type 0 where
  count_in : ℕ → LudpDataPacket → Handling
  track : LudpDataPacket → Handling
  is_next : LudpDataPacket → Handling
  hand_over : Handing → Handling
  drop_old : Dropping → Handling
  drain_ready : Draining → Handling
  is_due : Handling
  grant : Granting → Handling
  is_future : LudpDataPacket → Handling
  count_gap : LudpDataPacket → Handling
  is_stored : LudpDataPacket → Handling
  push_on : LudpDataPacket → Handling
  put_in : LudpDataPacket → Handling

-- `if self.expected_seq % self.credit_interval == 0`
abbrev pub due : Bool → Bool → Next Handling ⊤
due true _ = broken zero_division
due false true = at (grant load_credit)
due false false = left tt

module _ {App : Type 0} where
  unfoldable pub step_handling : Machine (LudpHost App) Handling ⊤
  step_handling (count_in size pkt) h = (
    at (track pkt),
    record h {
      stats = record (h.stats) {
        packets_received = h.stats.packets_received + 1;
        bytes_received = h.stats.bytes_received + size;
        last_seq = some pkt.seq_num;
        packets_retransmitted =
            if is_retransmit pkt
            then h.stats.packets_retransmitted + 1
            else h.stats.packets_retransmitted;
      };
    },
  )
  step_handling (track pkt) h = (
    at (is_next pkt),
    record h { highest_seq = if ltb h.highest_seq pkt.seq_num then pkt.seq_num else h.highest_seq },
  )
  step_handling (is_next pkt) h = (
    if pkt.seq_num == h.expected_seq then at (hand_over (processed_up pkt)) else at (is_future pkt),
    h,
  )
  step_handling (hand_over p) h = within hand_over (λ _. at (drop_old any_stale)) (step_handing p h)
  step_handling (drop_old p) h =
      within drop_old (λ _. at (drain_ready any_ready)) (step_dropping p h)
  step_handling (drain_ready p) h = within drain_ready (λ _. at is_due) (step_draining p h)
  step_handling is_due h =
      (due (h.credit_interval == 0) (h.expected_seq % h.credit_interval == 0), h)
  step_handling (grant p) h = within grant left (step_granting p h)
  step_handling (is_future pkt) h =
      (if ltb h.expected_seq pkt.seq_num then at (count_gap pkt) else left tt, h)
  step_handling (count_gap pkt) h = (
    at (is_stored pkt),
    record h {
      stats = record (h.stats) {
        packets_out_of_order = h.stats.packets_out_of_order + 1;
        gap_count = h.stats.gap_count + 1;
      };
    },
  )
  step_handling (is_stored pkt) h =
      (if contains pkt.seq_num h.out_of_order then at (put_in pkt) else at (push_on pkt), h)
  step_handling (push_on pkt) h =
      (at (put_in pkt), record h { ooo_heap = heappush pkt.seq_num h.ooo_heap })
  step_handling (put_in pkt) h =
      (left tt, record h { out_of_order = insert pkt.seq_num pkt h.out_of_order })
