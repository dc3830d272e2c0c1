-- ===== src/Reassembly/Wire.antt =====
-- The DATA packets among the datagrams, by the table of the wire format, and what the receive loop
-- does with each datagram.
use mini_corundum.Base.{
  ℕ, ◌+◌, ◌*◌, ◌≡◌, refl, ⊤, Option, none, some, List, [], ◌∷◌, ◌&&◌, ◌||◌, true, length, ◌==◌,
  if◌then◌else◌, arith, Action, ◌>>◌, ok,
}
use mini_corundum.Dict.{Dict, contains, insert}
use mini_corundum.Host.State.{LudpDataPacket, PendingCmd, LudpHost}
use mini_corundum.Host.Packets.{ludp_magic, pkt_data, pkt_cmd_ack, pkt_cmd_cpl}
use mini_corundum.Host.Receive.{
  parse_data, count_received, track_highest, accept, handle_data, answer, handle_cmd_ack,
  handle_cmd_cpl, dispatch, recv_datagram,
}

-- the DATA packet that a datagram is, if it is one: little-endian fields at fixed offsets
abbrev pub data_packet : List ℕ → Option LudpDataPacket
data_packet
      (m0 ∷ m1 ∷ kind ∷ flags ∷ s0 ∷ s1 ∷ s2 ∷ s3 ∷ l0 ∷ l1 ∷ t0 ∷ t1 ∷ t2 ∷ t3 ∷ r0 ∷ r1
        ∷ payload) =
    if m0 + 256 * m1 == ludp_magic && kind == pkt_data
    then some (record {
      magic = m0 + 256 * m1;
      pkt_type = kind;
      flags = flags;
      seq_num = s0 + 256 * s1 + 65536 * s2 + 16777216 * s3;
      payload_len = l0 + 256 * l1;
      timestamp = t0 + 256 * t1 + 65536 * t2 + 16777216 * t3;
      payload = payload;
    })
    else none
data_packet _ = none

-- the command that a datagram answers, if it is a CMD_ACK or a CMD_CPL
abbrev pub answer_id : List ℕ → Option ℕ
answer_id
      (m0 ∷ m1 ∷ kind ∷ flags ∷ i0 ∷ i1 ∷ i2 ∷ i3 ∷ c0 ∷ c1 ∷ t0 ∷ t1 ∷ t2 ∷ t3 ∷ r0 ∷ r1 ∷ rest) =
    if m0 + 256 * m1 == ludp_magic && (kind == pkt_cmd_ack || kind == pkt_cmd_cpl)
    then some (i0 + 256 * i1 + 65536 * i2 + 16777216 * i3)
    else none
answer_id _ = none

-- The pending commands after an answer: a pending command gets it, an unknown one is ignored.
abbrev pub answered : Option ℕ → List ℕ → Dict PendingCmd → Dict PendingCmd
answered none bytes d = d
answered (some cmd_id) bytes d =
    if contains cmd_id d
    then insert cmd_id (record { event = true; response = some bytes }) d
    else d

-- the pending commands after the answers among the datagrams
unfoldable pub answer_all : List (List ℕ) → Dict PendingCmd → Dict PendingCmd
answer_all [] d = d
answer_all (bytes ∷ ds) d = answer_all ds (answered (answer_id bytes) bytes d)

-- a DATA packet answers no command
pub answer_id-data :
    (bytes : List ℕ) (p : LudpDataPacket) → data_packet bytes ≡ some p → answer_id bytes ≡ none
answer_id-data (m0 ∷ m1 ∷ k ∷ f ∷ s0 ∷ s1 ∷ s2 ∷ s3 ∷ l0 ∷ l1 ∷ t0 ∷ t1 ∷ t2 ∷ t3 ∷ r0 ∷ r1 ∷ rest)
      p e =
    ground arith
answer_id-data _ p e = refl

module _ {App : Type 0} where
  -- what a DATA packet sets off
  abbrev pub take_data : ℕ → LudpDataPacket → Action (LudpHost App) ⊤
  take_data size pkt = count_received size pkt >> (track_highest pkt.seq_num >> accept pkt)

  pub recv_datagram-data :
      (bytes : List ℕ) (p : LudpDataPacket) (h : LudpHost App)
      → data_packet bytes ≡ some p
      → recv_datagram bytes h ≡ take_data (length bytes) p h
  unfolding recv_datagram dispatch handle_data parse_data
  recv_datagram-data
        (m0 ∷ m1 ∷ k ∷ f ∷ s0 ∷ s1 ∷ s2 ∷ s3 ∷ l0 ∷ l1 ∷ t0 ∷ t1 ∷ t2 ∷ t3 ∷ r0 ∷ r1 ∷ payload) p h
        e =
      ground arith
  recv_datagram-data _ p h e = cc

  -- A datagram that is not a DATA packet, be it short, of another magic number or of another type,
  -- changes at most the pending command that it answers, and raises nothing.
  pub recv_datagram-other :
      (bytes : List ℕ) (h : LudpHost App)
      → data_packet bytes ≡ none
      → recv_datagram bytes h
        ≡ ok tt (record h { pending_cmds = answered (answer_id bytes) bytes h.pending_cmds })
  unfolding recv_datagram dispatch handle_cmd_ack handle_cmd_cpl answer
  recv_datagram-other
        (m0 ∷ m1 ∷ k ∷ f ∷ s0 ∷ s1 ∷ s2 ∷ s3 ∷ l0 ∷ l1 ∷ t0 ∷ t1 ∷ t2 ∷ t3 ∷ r0 ∷ r1 ∷ payload) h
        e =
      ground arith
  recv_datagram-other _ h e = refl
