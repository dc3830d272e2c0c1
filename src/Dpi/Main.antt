-- ===== src/Dpi/Main.antt =====
-- `main` and `run_test_script` of sw/ludp_host_dpi.py.
use mini_corundum.Base.{
  ℕ, ⊤, Bool, Option, none, some, List, ok, raised, Action, ◌>>=◌, ◌>>◌, pure, or_raise,
  if◌then◌else◌, struct_error,
}
use mini_corundum.Frames.Generate.{
  generate_arp_request, generate_icmp_echo_request, generate_ludp_start, generate_ludp_credit,
}
use mini_corundum.Dpi.{LudpHostDpi, Delivery, connect_dpi, disconnect, send_packet}

-- the choices of `--packet-type`
pub data PacketType : Type 0 where
  arp icmp ludp_start ludp_credit : PacketType

-- the frame that a choice stands for
unfoldable pub frame_of : PacketType → Option (List ℕ)
frame_of arp = generate_arp_request
frame_of icmp = generate_icmp_echo_request 0x1234 0x0001 32
frame_of ludp_start = generate_ludp_start
frame_of ludp_credit = generate_ludp_credit 64

-- `run_test_script`, on the `run_test` of the user's file, if it has one
unfoldable pub run_test_script : Option (Action LudpHostDpi ⊤) → Action LudpHostDpi ⊤
run_test_script none = pure tt
run_test_script (some run_test) = run_test

-- what the command line asks for: a packet, a script, or neither
pub data Job : Type 0 where
  packet : PacketType → Job
  script : Option (Action LudpHostDpi ⊤) → Job
  nothing : Job

-- the body of the `try`, on how the sending of the packet goes
unfoldable pub perform : Delivery → Job → Action LudpHostDpi ⊤
perform d (packet packet_type) = do
  pkt ← or_raise (frame_of packet_type) struct_error
  send_packet d pkt
  pure tt
perform d (script run_test) = run_test_script run_test
perform d nothing = pure tt

-- `try: ... finally: ...`
unfoldable pub try_finally : Action LudpHostDpi ⊤ → Action LudpHostDpi ⊤ → Action LudpHostDpi ⊤
try_finally body cleanup h = elim (body h) [
  | ok _ h' ↦ cleanup h'
  | raised e h' ↦ (cleanup >> (λ h''. raised e h'')) h'
]

-- The exit status, on how the tries to connect and the sending of the packet go.
unfoldable pub main : List Bool → Delivery → Job → Action LudpHostDpi ℕ
main tries d job = do
  connected ← connect_dpi tries
  if connected then (do try_finally (perform d job) disconnect; pure 0) else pure 1
