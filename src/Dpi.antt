-- ===== src/Dpi.antt =====
-- `class LudpHostDPI` of sw/ludp_host_dpi.py, the client of the co-simulation's socket.
pub mod Framing
pub mod Main
pub mod Exit
use mini_corundum.Base.{
  ℕ, ◌+◌, ⊤, Bool, true, false, Option, none, some, List, [], ◌∷◌, ◌++◌, length, Action, ◌>>=◌,
  ◌>>◌, pure, raise, get, modify, or_raise, if◌then◌else◌, struct_error, runtime_error, os_error,
  take,
}
use mini_corundum.Struct.{pack_I, pack_header}
use mini_corundum.Host.Packets.{ludp_magic, pkt_cmd, pkt_credit, pkt_nack}

-- `sock` is what has been written to the socket, if there is one.
pub record LudpHostDpi : Type 0 where
  pub fpga_port : ℕ
  pub window_size : ℕ
  pub abs_credit : ℕ
  pub next_cmd_id : ℕ
  pub sock : Option (List ℕ)
  pub connected : Bool
  pub sent_packets : List (List ℕ)
  pub received_packets : List (List ℕ)

unfoldable pub new_host_dpi : ℕ → ℕ → LudpHostDpi
new_host_dpi port window = record {
  fpga_port = port;
  window_size = window;
  abs_credit = 0;
  next_cmd_id = 1;
  sock = none;
  connected = false;
  sent_packets = [];
  received_packets = [];
}

-- `connect_dpi`, on whether each try of `connect` before the timeout succeeds
unfoldable pub connect_dpi : List Bool → Action LudpHostDpi Bool
connect_dpi [] = pure false
connect_dpi (true ∷ tries) = do
  modify (λ h. record h { sock = some []; connected = true })
  pure true
connect_dpi (false ∷ tries) = do modify (λ h. record h { sock = none }); connect_dpi tries

unfoldable pub disconnect : Action LudpHostDpi ⊤
disconnect = modify (λ h. record h { sock = none; connected = false })

-- How a `sendall` of the socket goes: it writes everything, or raises after its first bytes.
pub data Delivery : Type 0 where
  whole : Delivery
  broken : ℕ → Delivery

-- `self.sock.sendall(header + data)` and what follows it, where the client is connected and has a
-- socket
unfoldable pub sendall : Delivery → Bool → Option (List ℕ) → List ℕ → Action LudpHostDpi ⊤
sendall whole true (some stream) contents = do
  header ← or_raise (pack_I (length contents)) struct_error
  modify (λ h. record h {
    sock = some (stream ++ header ++ contents);
    sent_packets = h.sent_packets ++ contents ∷ [];
  })
sendall (broken n) true (some stream) contents = do
  header ← or_raise (pack_I (length contents)) struct_error
  modify (λ h. record h { sock = some (stream ++ take n (header ++ contents)) })
  raise os_error
sendall _ _ _ contents = raise runtime_error

-- `_send_packet`
unfoldable pub send_packet : Delivery → List ℕ → Action LudpHostDpi Bool
send_packet d contents = do h ← get; sendall d h.connected h.sock contents; pure true

unfoldable pub send_cmd : Delivery → ℕ → ℕ → ℕ → ℕ → Action LudpHostDpi ℕ
send_cmd d opcode arg1 arg2 flags = do
  h ← get
  modify (λ h. record h { next_cmd_id = h.next_cmd_id + 1 })
  pkt ← or_raise (pack_header ludp_magic pkt_cmd flags h.next_cmd_id opcode arg1 arg2) struct_error
  send_packet d pkt
  pure h.next_cmd_id

unfoldable pub send_credit_dpi : Delivery → ℕ → Action LudpHostDpi Bool
send_credit_dpi d abs_credit = do
  pkt ← or_raise (pack_header ludp_magic pkt_credit 0x00 abs_credit 0 0 0) struct_error
  send_packet d pkt
  modify (λ h. record h { abs_credit = abs_credit })
  pure true

unfoldable pub send_nack : Delivery → ℕ → ℕ → Action LudpHostDpi Bool
send_nack d miss_seq count = do
  pkt ← or_raise (pack_header ludp_magic pkt_nack 0x00 miss_seq count 0 0) struct_error
  send_packet d pkt
  pure true
