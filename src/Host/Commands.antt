-- ===== src/Host/Commands.antt =====
-- The commands: `send_start`, `send_stop`, `write_reg`, `read_reg`. A call's wait is given by what
-- the receive thread reads until the wait ends, by the event or by the timeout.
use mini_corundum.Base.{
  ℕ, zero, suc, ◌+◌, ⊤, Bool, true, false, Option, none, some, List, length, slice, ltb,
  if◌then◌else◌, ok, raised, Action, ◌>>=◌, ◌>>◌, pure, get, modify, or_raise, key_error,
}
use mini_corundum.Dict.{Dict, lookup, insert, erase}
use mini_corundum.Struct.{unpack_I}
use mini_corundum.Host.State.{PendingCmd, LudpHost}
use mini_corundum.Host.Packets.{
  cmd_start, cmd_stop, cmd_read_reg, cmd_write_reg, take_cmd_id, build_cmd, sendto,
}
use mini_corundum.Host.Receive.{Received, recv_loop}

-- `self.pending_cmds[cmd_id]["event"].is_set()`
abbrev pub is_set : ℕ → Dict PendingCmd → Bool
is_set cmd_id d = elim (lookup cmd_id d) [ none ↦ false | some c ↦ c.event ]

-- `self.pending_cmds[cmd_id]["response"]`
abbrev pub response_of : ℕ → Dict PendingCmd → Option (List ℕ)
response_of cmd_id d = elim (lookup cmd_id d) [ none ↦ none | some c ↦ c.response ]

-- `if resp and len(resp) >= 16: return struct.unpack("<I", resp[10:14])[0]`
abbrev pub read_data : Option (List ℕ) → Option ℕ
read_data none = none
read_data (some resp) = if ltb (length resp) 16 then none else unpack_I (slice 10 14 resp)

module _ {App : Type 0} where
  -- Another thread's work: what it raises ends that thread, and not the caller.
  unfoldable pub in_thread : Action (LudpHost App) ⊤ → Action (LudpHost App) ⊤
  in_thread work h = elim (work h) [ ok _ h' ↦ ok tt h' | raised _ h' ↦ ok tt h' ]

  -- the entry in `pending_cmds` and the packet
  unfoldable pub issue : ℕ → List ℕ → Action (LudpHost App) ⊤
  issue cmd_id pkt = do
    modify (λ h. record h {
      pending_cmds = insert cmd_id (record { event = false; response = none }) h.pending_cmds;
    })
    sendto pkt

  -- The wait for the answer to `cmd_id`, while the receive thread reads `rs`.
  unfoldable pub wait : ℕ → List Received → Action (LudpHost App) Bool
  wait cmd_id rs = do
    h ← get
    or_raise (lookup cmd_id h.pending_cmds) key_error
    in_thread (recv_loop rs)
    h ← get
    pure (is_set cmd_id h.pending_cmds)

  unfoldable pub forget : ℕ → Action (LudpHost App) ⊤
  forget cmd_id = modify (λ h. record h { pending_cmds = erase cmd_id h.pending_cmds })

  -- one round of the loop of `_send_cmd_wait_ack`
  unfoldable pub attempt_cmd : ℕ → ℕ → ℕ → List Received → Action (LudpHost App) Bool
  attempt_cmd opcode arg1 arg2 rs = do
    cmd_id ← take_cmd_id
    pkt ← build_cmd opcode arg1 arg2 0x00 (some cmd_id)
    issue cmd_id pkt
    success ← wait cmd_id rs
    forget cmd_id
    pure success

  -- `_send_cmd_wait_ack` with `retries` rounds; `waits n` is what is read during round `n`
  unfoldable pub send_cmd_from :
      ℕ → ℕ → ℕ → ℕ → ℕ → (ℕ → List Received) → Action (LudpHost App) Bool
  send_cmd_from zero attempt opcode arg1 arg2 waits = pure false
  send_cmd_from (suc left) attempt opcode arg1 arg2 waits = do
    success ← attempt_cmd opcode arg1 arg2 (waits attempt)
    if success then pure true else send_cmd_from left (attempt + 1) opcode arg1 arg2 waits

  unfoldable pub send_cmd_wait_ack :
      ℕ → ℕ → ℕ → ℕ → (ℕ → List Received) → Action (LudpHost App) Bool
  send_cmd_wait_ack opcode arg1 arg2 retries waits = send_cmd_from retries 0 opcode arg1 arg2 waits

  unfoldable pub send_start : (ℕ → List Received) → Action (LudpHost App) Bool
  send_start waits = send_cmd_wait_ack cmd_start 0 0 3 waits

  unfoldable pub send_stop : (ℕ → List Received) → Action (LudpHost App) Bool
  send_stop waits = send_cmd_wait_ack cmd_stop 0 0 3 waits

  unfoldable pub write_reg : ℕ → ℕ → (ℕ → List Received) → Action (LudpHost App) Bool
  write_reg addr value waits = send_cmd_wait_ack cmd_write_reg addr value 3 waits

  unfoldable pub read_reg : ℕ → List Received → Action (LudpHost App) (Option ℕ)
  read_reg addr rs = do
    cmd_id ← take_cmd_id
    pkt ← build_cmd cmd_read_reg addr 0 0x01 (some cmd_id)
    issue cmd_id pkt
    success ← wait cmd_id rs
    h ← get
    forget cmd_id
    pure (if success then read_data (response_of cmd_id h.pending_cmds) else none)
