-- ===== src/Host/State.antt =====
-- The data of sw/ludp_host.py: the packets, the counters, and the fields of `LudpHost`.
-- Times are whole microseconds. `App` is what the application's callback `on_data` keeps.
use mini_corundum.Base.{
  ℕ, ⊤, Bool, true, false, Option, none, List, [], ◌%◌, ◌==◌, Action, modify, ok,
}
use mini_corundum.Dict.{Dict}

-- `last_seq` starts as -1, which is `none`.
pub record LudpStats : Type 0 where
  pub packets_received : ℕ
  pub packets_processed : ℕ
  pub packets_out_of_order : ℕ
  pub packets_retransmitted : ℕ
  pub nacks_sent : ℕ
  pub credits_sent : ℕ
  pub bytes_received : ℕ
  pub start_time : ℕ
  pub last_seq : Option ℕ
  pub gap_count : ℕ

abbrev pub initial_stats : LudpStats
initial_stats = record {
  packets_received = 0;
  packets_processed = 0;
  packets_out_of_order = 0;
  packets_retransmitted = 0;
  nacks_sent = 0;
  credits_sent = 0;
  bytes_received = 0;
  start_time = 0;
  last_seq = none;
  gap_count = 0;
}

pub record LudpDataPacket : Type 0 where
  pub magic : ℕ
  pub pkt_type : ℕ
  pub flags : ℕ
  pub seq_num : ℕ
  pub payload_len : ℕ
  pub timestamp : ℕ
  pub payload : List ℕ

-- `(self.flags & 0x01) != 0`
abbrev pub is_retransmit : LudpDataPacket → Bool
is_retransmit p = p.flags % 2 == 1

-- a command that waits for its answer: whether its event is set, and the answer
pub record PendingCmd : Type 0 where
  pub event : Bool
  pub response : Option (List ℕ)

-- `sent` lists the datagrams handed to `sock.sendto`, all of them to the FPGA's address.
pub record LudpHost (App : Type 0) : Type 0 where
  pub window_size : ℕ
  pub credit_interval : ℕ
  pub credit_poll_us : ℕ
  pub on_data : Option (LudpDataPacket → App → App)
  pub app : App
  pub sent : List (List ℕ)
  pub expected_seq : ℕ
  pub abs_credit : ℕ
  pub highest_seq : ℕ
  pub out_of_order : Dict LudpDataPacket
  pub ooo_heap : List ℕ
  pub pending_nacks : Dict ℕ
  pub running : Bool
  pub stats : LudpStats
  pub pending_cmds : Dict PendingCmd
  pub next_cmd_id : ℕ

module _ {App : Type 0} where
  -- `LudpHost.__init__`
  unfoldable pub new_host : ℕ → ℕ → ℕ → Option (LudpDataPacket → App → App) → App → LudpHost App
  new_host window interval poll_us callback start = record {
    window_size = window;
    credit_interval = interval;
    credit_poll_us = poll_us;
    on_data = callback;
    app = start;
    sent = [];
    expected_seq = 0;
    abs_credit = window;
    highest_seq = 0;
    out_of_order = [];
    ooo_heap = [];
    pending_nacks = [];
    running = false;
    stats = initial_stats;
    pending_cmds = [];
    next_cmd_id = 1;
  }

  -- `LudpHost.start`, at time `now`; its threads run `recv_loop` and `poll_loop`
  unfoldable pub start : ℕ → Action (LudpHost App) ⊤
  start now =
      modify (λ h. record h { running = true; stats = record (h.stats) { start_time = now } })

  -- The `self.running = False` of `LudpHost.stop`. A host of this type has its socket open: the
  -- `self.sock.close()` that follows is the end of it, and nothing is sent from it any more.
  unfoldable pub clear_running : Action (LudpHost App) ⊤
  clear_running = modify (λ h. record h { running = false })

  unfoldable pub reset_state : Action (LudpHost App) ⊤
  reset_state = modify (λ h. record h {
    expected_seq = 0;
    abs_credit = h.window_size;
    highest_seq = 0;
    out_of_order = [];
    ooo_heap = [];
    pending_nacks = [];
    pending_cmds = [];
    next_cmd_id = 1;
    stats = initial_stats;
  })

  -- `get_stats`: the copy has every field of the original
  unfoldable pub get_stats : Action (LudpHost App) LudpStats
  get_stats h =
      ok
        (record {
          packets_received = h.stats.packets_received;
          packets_processed = h.stats.packets_processed;
          packets_out_of_order = h.stats.packets_out_of_order;
          packets_retransmitted = h.stats.packets_retransmitted;
          nacks_sent = h.stats.nacks_sent;
          credits_sent = h.stats.credits_sent;
          bytes_received = h.stats.bytes_received;
          start_time = h.stats.start_time;
          last_seq = h.stats.last_seq;
          gap_count = h.stats.gap_count;
        })
        h
