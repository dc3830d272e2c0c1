-- ===== src/Reassembly/Credit.antt =====
-- Flow control: what a credit update sends, and when.
use mini_corundum.Base.{
  ℕ, ◌+◌, ◌%◌, ◌<◌, ◌≡◌, ◌≢◌, [], ◌∷◌, ◌++◌, ltb, ◌==◌, if◌then◌else◌, arith, ok, Bool-cases, inl,
  inr, ne→==,
}
use mini_corundum.Struct.RoundTrip.{Header, wire, pack-wire}
use mini_corundum.Host.State.{LudpHost}
use mini_corundum.Host.Packets.{ludp_magic, pkt_credit, build_credit, sendto, send_credit}
use mini_corundum.Host.Receive.{advance_credit, credit_if_due}

-- the fields of a CREDIT packet
abbrev pub credit_header : ℕ → Header
credit_header n = record {
  magic = ludp_magic;
  kind = pkt_credit;
  flags = 0x00;
  ident = n;
  code = 0;
  arg1 = 0;
  arg2 = 0;
}

module _ {App : Type 0} where
  -- the state after a CREDIT packet of `n`
  abbrev pub credited : ℕ → LudpHost App → LudpHost App
  credited n h = record h {
    sent = h.sent ++ wire (credit_header n) ∷ [];
    stats = record (h.stats) { credits_sent = h.stats.credits_sent + 1 };
  }

  pub send_credit_lem :
      (n : ℕ) (h : LudpHost App) → n < 4294967296 → send_credit n h ≡ ok tt (credited n h)
  unfolding send_credit build_credit sendto
  send_credit_lem n h fits = rw (pack-wire (credit_header n) (omega arith))

  -- the state after `advance_credit`
  abbrev pub advanced : LudpHost App → LudpHost App
  advanced h =
      if ltb h.abs_credit (h.expected_seq + h.window_size)
      then record (credited (h.expected_seq + h.window_size) h) {
        abs_credit = h.expected_seq + h.window_size;
      }
      else h

  pub advance_credit_lem :
      (h : LudpHost App)
      → h.expected_seq + h.window_size < 4294967296
      → advance_credit h ≡ ok tt (advanced h)
  unfolding advance_credit
  advance_credit_lem h fits =
      ground (arith, send_credit_lem (h.expected_seq + h.window_size) h fits)

  -- the state after `credit_if_due`
  abbrev pub credit_updated : LudpHost App → LudpHost App
  credit_updated h = if h.expected_seq % h.credit_interval == 0 then advanced h else h

  pub credit_if_due_lem :
      (h : LudpHost App)
      → h.expected_seq + h.window_size < 4294967296
      → h.credit_interval ≢ 0
      → credit_if_due h ≡ ok tt (credit_updated h)
  unfolding credit_if_due
  credit_if_due_lem h fits nonzero =
      rw (ne→== h.credit_interval 0 nonzero)
        (elim (Bool-cases (h.expected_seq % h.credit_interval == 0)) [
          | inl due ↦ rw due (advance_credit_lem h fits)
          | inr early ↦ rw early
        ])
