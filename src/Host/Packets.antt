-- ===== src/Host/Packets.antt =====
-- The constants of the protocol, the packet builders, and `send_credit`.
use mini_corundum.Base.{
  ℕ, ◌+◌, ⊤, Option, none, some, List, [], ◌∷◌, ◌++◌, Action, ◌>>=◌, ◌>>◌, pure, get, modify,
  or_raise, struct_error,
}
use mini_corundum.Struct.{pack_header}
use mini_corundum.Host.State.{LudpHost}

abbrev pub ludp_port : ℕ
ludp_port = 1234

abbrev pub ludp_magic : ℕ
ludp_magic = 0xDA01

abbrev pub pkt_data : ℕ
pkt_data = 0x01

abbrev pub pkt_cmd : ℕ
pkt_cmd = 0x02

abbrev pub pkt_nack : ℕ
pkt_nack = 0x03

abbrev pub pkt_cmd_ack : ℕ
pkt_cmd_ack = 0x04

abbrev pub pkt_cmd_cpl : ℕ
pkt_cmd_cpl = 0x05

abbrev pub pkt_credit : ℕ
pkt_credit = 0x06

abbrev pub cmd_start : ℕ
cmd_start = 0x0001

abbrev pub cmd_stop : ℕ
cmd_stop = 0x0002

abbrev pub cmd_read_reg : ℕ
cmd_read_reg = 0x0010

abbrev pub cmd_write_reg : ℕ
cmd_write_reg = 0x0011

abbrev pub ludp_hdr_len : ℕ
ludp_hdr_len = 16

abbrev pub default_window_size : ℕ
default_window_size = 256

abbrev pub default_credit_interval : ℕ
default_credit_interval = 8

module _ {App : Type 0} where
  -- `cmd_id = self.next_cmd_id; self.next_cmd_id += 1`
  unfoldable pub take_cmd_id : Action (LudpHost App) ℕ
  take_cmd_id = do
    h ← get
    modify (λ h. record h { next_cmd_id = h.next_cmd_id + 1 })
    pure h.next_cmd_id

  unfoldable pub build_cmd : ℕ → ℕ → ℕ → ℕ → Option ℕ → Action (LudpHost App) (List ℕ)
  build_cmd opcode arg1 arg2 flags none = do
    cmd_id ← take_cmd_id
    or_raise (pack_header ludp_magic pkt_cmd flags cmd_id opcode arg1 arg2) struct_error
  build_cmd opcode arg1 arg2 flags (some cmd_id) =
      or_raise (pack_header ludp_magic pkt_cmd flags cmd_id opcode arg1 arg2) struct_error

  unfoldable pub build_credit : ℕ → Action (LudpHost App) (List ℕ)
  build_credit abs_credit =
      or_raise (pack_header ludp_magic pkt_credit 0x00 abs_credit 0 0 0) struct_error

  unfoldable pub build_nack : ℕ → ℕ → Action (LudpHost App) (List ℕ)
  build_nack miss_seq count =
      or_raise (pack_header ludp_magic pkt_nack 0x00 miss_seq count 0 0) struct_error

  -- `self.sock.sendto(pkt, self.fpga_addr)`
  unfoldable pub sendto : List ℕ → Action (LudpHost App) ⊤
  sendto pkt = modify (λ h. record h { sent = h.sent ++ pkt ∷ [] })

  unfoldable pub send_credit : ℕ → Action (LudpHost App) ⊤
  send_credit abs_credit = do
    pkt ← build_credit abs_credit
    sendto pkt
    modify (λ h. record h { stats = record (h.stats) { credits_sent = h.stats.credits_sent + 1 } })
