-- ===== src/Host/Receive.antt =====
-- The receive thread: `_recv_loop` and the handlers that it calls. A handler runs to its end before
-- the next datagram is read.
use mini_corundum.Base.{
  ℕ, ◌+◌, ◌%◌, ⊤, true, Option, none, some, List, [], ◌∷◌, length, get_elem?, slice, drop, ltb,
  ◌==◌, if◌then◌else◌, Action, ◌>>=◌, ◌>>◌, pure, raise, get, modify, or_raise, when, struct_error,
  key_error, index_error, zero_division,
}
use mini_corundum.Dict.{lookup, contains, insert, erase}
use mini_corundum.Struct.{unpack_H, unpack_I}
use mini_corundum.Host.State.{LudpDataPacket, is_retransmit, LudpHost}
use mini_corundum.Host.Packets.{
  ludp_hdr_len, ludp_magic, pkt_data, pkt_cmd_ack, pkt_cmd_cpl, send_credit,
}

-- `heappush`: the heap is kept as the ascending list of its entries, of which the code reads the
-- first.
unfoldable pub heappush : ℕ → List ℕ → List ℕ
heappush s [] = s ∷ []
heappush s (x ∷ xs) = if ltb x s then x ∷ heappush s xs else s ∷ x ∷ xs

-- `while self.ooo_heap and self.ooo_heap[0] < expected_seq: heappop(self.ooo_heap)`
unfoldable pub drop_stale : ℕ → List ℕ → List ℕ
drop_stale expected [] = []
drop_stale expected (x ∷ xs) =
    let rest = drop_stale expected xs in if ltb x expected then rest else x ∷ xs

-- the call of `self.on_data`, if it is set
abbrev pub call : {App : Type 0} → Option (LudpDataPacket → App → App) → LudpDataPacket → App → App
call none pkt app = app
call (some f) pkt app = f pkt app

module _ {App : Type 0} where
  -- the header of a DATA packet
  unfoldable pub parse_data : List ℕ → Action (LudpHost App) LudpDataPacket
  parse_data bytes = do
    magic ← or_raise (unpack_H (slice 0 2 bytes)) struct_error
    pkt_type ← or_raise (get_elem? bytes 2) index_error
    flags ← or_raise (get_elem? bytes 3) index_error
    seq_num ← or_raise (unpack_I (slice 4 8 bytes)) struct_error
    payload_len ← or_raise (unpack_H (slice 8 10 bytes)) struct_error
    timestamp ← or_raise (unpack_I (slice 10 14 bytes)) struct_error
    pure (record {
      magic = magic;
      pkt_type = pkt_type;
      flags = flags;
      seq_num = seq_num;
      payload_len = payload_len;
      timestamp = timestamp;
      payload = drop ludp_hdr_len bytes;
    })

  unfoldable pub deliver : LudpDataPacket → Action (LudpHost App) ⊤
  deliver pkt = modify (λ h. record h {
    stats = record (h.stats) { packets_processed = h.stats.packets_processed + 1 };
    app = call h.on_data pkt h.app;
  })

  -- the counters under the lock
  unfoldable pub count_received : ℕ → LudpDataPacket → Action (LudpHost App) ⊤
  count_received size pkt = modify (λ h. record h {
    stats = record (h.stats) {
      packets_received = h.stats.packets_received + 1;
      bytes_received = h.stats.bytes_received + size;
      last_seq = some pkt.seq_num;
      packets_retransmitted =
          if is_retransmit pkt
          then h.stats.packets_retransmitted + 1
          else h.stats.packets_retransmitted;
    };
  })

  unfoldable pub track_highest : ℕ → Action (LudpHost App) ⊤
  track_highest seq =
      modify (λ h. record h { highest_seq = if ltb h.highest_seq seq then seq else h.highest_seq })

  -- `self._deliver(...); self.expected_seq += 1`
  unfoldable pub deliver_next : LudpDataPacket → Action (LudpHost App) ⊤
  deliver_next pkt = do deliver pkt; modify (λ h. record h { expected_seq = h.expected_seq + 1 })

  -- `while self.ooo_heap and self.ooo_heap[0] == self.expected_seq`, on the entries of the heap
  unfoldable pub drain_from : List ℕ → Action (LudpHost App) ⊤
  drain_from [] = pure tt
  drain_from (seq ∷ rest) = do
    h ← get
    when (seq == h.expected_seq) (do
      modify (λ h. record h { ooo_heap = rest })
      pkt ← or_raise (lookup seq h.out_of_order) key_error
      modify (λ h. record h { out_of_order = erase seq h.out_of_order })
      deliver_next pkt
      drain_from rest)

  unfoldable pub drain : Action (LudpHost App) ⊤
  drain = do drain_from (← get).ooo_heap

  -- `if new_credit > self.abs_credit: ...`
  unfoldable pub advance_credit : Action (LudpHost App) ⊤
  advance_credit = do
    h ← get
    let new_credit = h.expected_seq + h.window_size
    when (ltb h.abs_credit new_credit)
        (do send_credit new_credit; modify (λ h. record h { abs_credit = new_credit }))

  -- every `credit_interval` packets; `%` by zero raises
  unfoldable pub credit_if_due : Action (LudpHost App) ⊤
  credit_if_due = do
    h ← get
    when (h.credit_interval == 0) (raise zero_division)
    when (h.expected_seq % h.credit_interval == 0) advance_credit

  unfoldable pub accept_in_order : LudpDataPacket → Action (LudpHost App) ⊤
  accept_in_order pkt = do
    deliver_next pkt
    modify (λ h. record h { ooo_heap = drop_stale h.expected_seq h.ooo_heap })
    drain
    credit_if_due

  unfoldable pub store_future : LudpDataPacket → Action (LudpHost App) ⊤
  store_future pkt = modify (λ h. record h {
    stats = record (h.stats) {
      packets_out_of_order = h.stats.packets_out_of_order + 1;
      gap_count = h.stats.gap_count + 1;
    };
    ooo_heap =
        if contains pkt.seq_num h.out_of_order then h.ooo_heap else heappush pkt.seq_num h.ooo_heap;
    out_of_order = insert pkt.seq_num pkt h.out_of_order;
  })

  -- in order, from the future, or old
  unfoldable pub accept : LudpDataPacket → Action (LudpHost App) ⊤
  accept pkt = do
    h ← get
    if pkt.seq_num == h.expected_seq
        then accept_in_order pkt
        else when (ltb h.expected_seq pkt.seq_num) (store_future pkt)

  -- `_handle_data`
  unfoldable pub handle_data : List ℕ → Action (LudpHost App) ⊤
  handle_data bytes = if ltb (length bytes) ludp_hdr_len then pure tt else do
    pkt ← parse_data bytes
    count_received (length bytes) pkt
    track_highest pkt.seq_num
    accept pkt

  -- `self.pending_cmds[cmd_id]["response"] = data; ...["event"].set()`, if the command is pending
  unfoldable pub answer : ℕ → List ℕ → Action (LudpHost App) ⊤
  answer cmd_id bytes = modify (λ h. record h {
    pending_cmds =
        if contains cmd_id h.pending_cmds
        then insert cmd_id (record { event = true; response = some bytes }) h.pending_cmds
        else h.pending_cmds;
  })

  unfoldable pub handle_cmd_ack : List ℕ → Action (LudpHost App) ⊤
  handle_cmd_ack bytes = if ltb (length bytes) 12 then pure tt else do
    cmd_id ← or_raise (unpack_I (slice 4 8 bytes)) struct_error
    status ← or_raise (get_elem? bytes 3) index_error
    opcode ← or_raise (unpack_H (slice 8 10 bytes)) struct_error
    answer cmd_id bytes

  unfoldable pub handle_cmd_cpl : List ℕ → Action (LudpHost App) ⊤
  handle_cmd_cpl bytes = if ltb (length bytes) 16 then pure tt else do
    cmd_id ← or_raise (unpack_I (slice 4 8 bytes)) struct_error
    opcode ← or_raise (unpack_H (slice 8 10 bytes)) struct_error
    resp_data ← or_raise (unpack_I (slice 10 14 bytes)) struct_error
    answer cmd_id bytes

  -- the branches on the packet's type; any other type is ignored
  unfoldable pub dispatch : ℕ → List ℕ → Action (LudpHost App) ⊤
  dispatch pkt_type bytes =
      if pkt_type == pkt_data
      then handle_data bytes
      else (if pkt_type == pkt_cmd_ack
          then handle_cmd_ack bytes
          else when (pkt_type == pkt_cmd_cpl) (handle_cmd_cpl bytes))

  -- one datagram in `_recv_loop`
  unfoldable pub recv_datagram : List ℕ → Action (LudpHost App) ⊤
  recv_datagram bytes = if ltb (length bytes) ludp_hdr_len then pure tt else do
    magic ← or_raise (unpack_H (slice 0 2 bytes)) struct_error
    if magic == ludp_magic
        then (do dispatch (← or_raise (get_elem? bytes 2) index_error) bytes)
        else pure tt

-- what `recvfrom` gives: a datagram, or an `OSError`
pub data Received : Type 0 where
  datagram : List ℕ → Received
  os_error : Received

module _ {App : Type 0} where
  -- `_recv_loop`, on what its calls of `recvfrom` give; where the list ends the thread is blocked
  unfoldable pub recv_loop : List Received → Action (LudpHost App) ⊤
  recv_loop [] = pure tt
  recv_loop (os_error ∷ rs) = pure tt
  recv_loop (datagram bytes ∷ rs) = do
    h ← get
    when h.running (do recv_datagram bytes; recv_loop rs)
