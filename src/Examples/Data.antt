-- ===== src/Examples/Data.antt =====
-- The hosts, packets and locals that the runs share.
use mini_corundum.Base.{ℕ, refl, true, none, some, List, [], ◌∷◌, arith}
use mini_corundum.Host.State.{LudpDataPacket, LudpHost, initial_stats}
use mini_corundum.Host.Poll.{PollLocals}
use mini_corundum.Reassembly.Accept.{IsConsistent}
use mini_corundum.Reassembly.Complete.{IsFresh, IsFresh-IsConsistent}
use mini_corundum.Flow.Skip.{FitsCredit}
use mini_corundum.Logger.{Logger, opened, on_data}

-- a DATA packet with sequence number `seq` and the payload of one byte
abbrev pub packet : ℕ → ℕ → List ℕ
packet seq b = 0x01 ∷ 0xDA ∷ 0x01 ∷ 0 ∷ seq ∷ 0 ∷ 0 ∷ 0 ∷ 1 ∷ 0 ∷ 0 ∷ 0 ∷ 0 ∷ 0 ∷ 0 ∷ 0 ∷ b ∷ []

-- what `packet` is parsed to
abbrev pub parsed : ℕ → ℕ → LudpDataPacket
parsed seq b = record {
  magic = 0xDA01;
  pkt_type = 1;
  flags = 0;
  seq_num = seq;
  payload_len = 1;
  timestamp = 0;
  payload = b ∷ [];
}

-- 2 comes before 0 and 1; 5 is ahead of a gap; one datagram is noise
abbrev pub session : List (List ℕ)
session = packet 2 12 ∷ packet 0 10 ∷ (7 ∷ 7 ∷ []) ∷ packet 5 15 ∷ packet 1 11 ∷ []

-- a CMD_ACK of command `cmd_id`
abbrev pub ack : ℕ → List ℕ
ack cmd_id = 0x01 ∷ 0xDA ∷ 0x04 ∷ 0 ∷ cmd_id ∷ 0 ∷ 0 ∷ 0 ∷ 1 ∷ 0 ∷ 0 ∷ 0 ∷ 0 ∷ 0 ∷ 0 ∷ 0 ∷ []

-- a CMD_CPL of command `cmd_id` that carries one byte of read data
abbrev pub completion : ℕ → ℕ → List ℕ
completion cmd_id value =
    0x01 ∷ 0xDA ∷ 0x05 ∷ 0 ∷ cmd_id ∷ 0 ∷ 0 ∷ 0 ∷ 0x10 ∷ 0 ∷ value ∷ 0 ∷ 0 ∷ 0 ∷ 0 ∷ 0 ∷ []

abbrev pub host : LudpHost Logger
host = record {
  window_size = 4;
  credit_interval = 1;
  credit_poll_us = 5000;
  on_data = some on_data;
  app = opened;
  sent = [];
  expected_seq = 0;
  abs_credit = 4;
  highest_seq = 0;
  out_of_order = [];
  ooo_heap = [];
  pending_nacks = [];
  running = true;
  stats = initial_stats;
  pending_cmds = [];
  next_cmd_id = 1;
}

pub host-IsFresh : IsFresh host
host-IsFresh = record {
  first = refl;
  empty_heap = refl;
  empty_buffer = refl;
  window = refl;
  counters = refl;
}

pub host-IsConsistent : IsConsistent host
host-IsConsistent = IsFresh-IsConsistent host host-IsFresh

-- packet 2 has come in, and 0 and 1 have not
abbrev pub stalled : LudpHost Logger
stalled = record host {
  highest_seq = 2;
  out_of_order = (2, parsed 2 12) ∷ [];
  ooo_heap = 2 ∷ [];
  stats = record initial_stats {
    packets_received = 1;
    packets_out_of_order = 1;
    bytes_received = 17;
    last_seq = some 2;
    gap_count = 1;
  };
}

pub stalled-IsConsistent : IsConsistent stalled
stalled-IsConsistent = record {
  above = (omega arith, tt);
  indexed = record { keys = λ s. ground arith; seqs = λ s p e. ground arith };
  granted = omega arith;
  accounts = refl;
  quiet = refl;
}

pub stalled-FitsCredit : FitsCredit stalled
stalled-FitsCredit = record { now = omega arith; stored = λ s e. ground arith }

-- no gap has been seen yet
abbrev pub idle_locals : PollLocals
idle_locals = record { last_data_time = 0; last_expected_seq = 0; gap_stall_start = none }

-- a gap has been seen at 1 ms
abbrev pub stalled_locals : PollLocals
stalled_locals = record idle_locals { gap_stall_start = some 1000 }
