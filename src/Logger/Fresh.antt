-- ===== src/Logger/Fresh.antt =====
-- The data logger's host right after `start`, and right after `reset_state`.
use mini_corundum.Logger.{Logger, opened, on_data}
use mini_corundum.Host.State.{LudpHost, initial_stats}
use mini_corundum.Threads.Ready.{IsNew}
use mini_corundum.Base.{ℕ, refl, true, some, [], arith}

-- the state after `reset_state`
abbrev pub resetted : LudpHost Logger → LudpHost Logger
resetted h = record h {
  expected_seq = 0;
  abs_credit = h.window_size;
  highest_seq = 0;
  out_of_order = [];
  ooo_heap = [];
  pending_nacks = [];
  pending_cmds = [];
  next_cmd_id = 1;
  stats = initial_stats;
}

pub resetted-IsNew : (h : LudpHost Logger) → IsNew (resetted h)
resetted-IsNew h = record {
  first = refl;
  heap = refl;
  buffer = refl;
  grant = refl;
  accounts = omega arith;
  quiet = refl;
}

-- the state after `start`
abbrev pub started_host : ℕ → ℕ → ℕ → LudpHost Logger
started_host window interval now = record {
  window_size = window;
  credit_interval = interval;
  credit_poll_us = 5000;
  on_data = some on_data;
  app = opened;
  sent = [];
  expected_seq = 0;
  abs_credit = window;
  highest_seq = 0;
  out_of_order = [];
  ooo_heap = [];
  pending_nacks = [];
  running = true;
  stats = record initial_stats { start_time = now };
  pending_cmds = [];
  next_cmd_id = 1;
}
