-- ===== src/Reply/Build.antt =====
-- The packet builders of `LudpHost`.
use mini_corundum.Base.{ℕ, ◌+◌, ◌<◌, ◌≡◌, refl, none, arith, Returns, returns}
use mini_corundum.Struct.RoundTrip.{Header, Fits, Carries, pack-wire, wire-Carries}
use mini_corundum.Host.State.{LudpHost}
use mini_corundum.Host.Packets.{ludp_magic, pkt_nack, take_cmd_id, build_cmd, build_nack}
use mini_corundum.Reply.Attempt.{cmd_header}

-- the fields of a NACK packet
abbrev pub nack_header : ℕ → ℕ → Header
nack_header miss_seq count = record {
  magic = ludp_magic;
  kind = pkt_nack;
  flags = 0x00;
  ident = miss_seq;
  code = count;
  arg1 = 0;
  arg2 = 0;
}

module _ {App : Type 0} where
  -- For fields that fit, and with no number given, the command takes the next number; its packet
  -- is 16 bytes in which a reader finds each field at its offset, and nothing is sent.
  pub build_cmd-Carries :
      (opcode arg1 arg2 flags : ℕ) (h : LudpHost App)
      → Fits (cmd_header opcode arg1 arg2 flags h.next_cmd_id)
      → Returns
          (λ pkt h'.
            Carries (cmd_header opcode arg1 arg2 flags h.next_cmd_id) pkt
            × (h' ≡ record h { next_cmd_id = h.next_cmd_id + 1 }))
          (build_cmd opcode arg1 arg2 flags none h)
  unfolding build_cmd take_cmd_id
  build_cmd-Carries opcode arg1 arg2 flags h f =
      let header = cmd_header opcode arg1 arg2 flags h.next_cmd_id in
      rw (pack-wire header f) (returns (wire-Carries header f, refl))

  -- For a number below 2^32 and a count below 2^16, the NACK packet is 16 bytes in which a reader
  -- finds each field at its offset, and nothing is sent.
  pub build_nack-Carries :
      (miss_seq count : ℕ) (h : LudpHost App)
      → miss_seq < 4294967296
      → count < 65536
      → Returns
          (λ pkt h'. Carries (nack_header miss_seq count) pkt × (h' ≡ h))
          (build_nack miss_seq count h)
  unfolding build_nack
  build_nack-Carries miss_seq count h m c =
      let header = nack_header miss_seq count in
      let f : Fits header = omega arith in
      rw (pack-wire header f) (returns (wire-Carries header f, refl))
