-- ===== src/Dpi/Framing.antt =====
-- What stands on the socket: each packet behind its length, whatever calls are made.
use mathlib.Core.List.{append-nil, append_assoc}
use mini_corundum.Base.{
  All, ℕ, ◌≡◌, sym, refl, ⊤, Bool, true, false, Option, none, some, List, [], ◌∷◌, ◌++◌, length,
  arith, Action, Outcome, ◌+◌, struct_error, modify, or_raise, ok, raised, ◌>>=◌, ◌>>◌, pure,
  Option-cases, inl, inr,
}
use mini_corundum.Struct.{pack_I, pack_header}
use mini_corundum.Host.Packets.{ludp_magic, pkt_cmd, pkt_credit, pkt_nack}
use mini_corundum.Fifo.{write_each}
use mini_corundum.Dpi.{
  Delivery, whole, broken, LudpHostDpi, new_host_dpi, connect_dpi, disconnect, sendall, send_packet,
  send_cmd, send_credit_dpi, send_nack,
}

-- a call of the client
pub data Call : Type 0 where
  connecting : List Bool → Call
  disconnecting : Call
  packet : Delivery → List ℕ → Call
  cmd : Delivery → ℕ → ℕ → ℕ → ℕ → Call
  credit : Delivery → ℕ → Call
  nack : Delivery → ℕ → ℕ → Call

-- the state that an action leaves, also where it raises
abbrev pub left_by : {S A : Type 0} → Outcome S A → S
left_by (ok a s) = s
left_by (raised e s) = s

-- the state after a call; the script goes on after what it raises
unfoldable pub after : Call → LudpHostDpi → LudpHostDpi
after (connecting tries) h = left_by (connect_dpi tries h)
after disconnecting h = left_by (disconnect h)
after (packet d contents) h = left_by (send_packet d contents h)
after (cmd d opcode arg1 arg2 flags) h = left_by (send_cmd d opcode arg1 arg2 flags h)
after (credit d n) h = left_by (send_credit_dpi d n h)
after (nack d miss_seq count) h = left_by (send_nack d miss_seq count h)

-- how the call's `sendall` goes
abbrev delivery : Call → Delivery
delivery (connecting tries) = whole
delivery disconnecting = whole
delivery (packet d contents) = d
delivery (cmd d opcode arg1 arg2 flags) = d
delivery (credit d n) = d
delivery (nack d miss_seq count) = d

-- The call's `sendall` writes everything, if there is one.
abbrev pub IsWhole : Call → Type 0
IsWhole c = delivery c ≡ whole

unfoldable pub after_all : List Call → LudpHostDpi → LudpHostDpi
after_all [] h = h
after_all (c ∷ cs) h = after_all cs (after c h)

-- The last packets of `sent` are what the stream holds, each behind its length.
pub record Framed (sent : List (List ℕ)) (stream : List ℕ) : Type 0 where
  pub old : List (List ℕ)
  pub now : List (List ℕ)
  pub split : sent ≡ old ++ now
  pub written : write_each now ≡ some stream

abbrev pub IsFramed : LudpHostDpi → Type 0
IsFramed h = elim h.sock [ none ↦ ⊤ | some stream ↦ Framed h.sent_packets stream ]

write_each-snoc :
    (pkts : List (List ℕ)) (pkt bytes size : List ℕ)
    → write_each pkts ≡ some bytes
    → pack_I (length pkt) ≡ some size
    → write_each (pkts ++ pkt ∷ []) ≡ some (bytes ++ size ++ pkt)
unfolding write_each
write_each-snoc [] pkt bytes size w p =
    let none_before : bytes ≡ [] = ground arith in rw (none_before, p) (simp append-nil)
write_each-snoc (q ∷ pkts) pkt bytes size w p = elim (Option-cases (pack_I (length q))) [
  | inl bad ↦ absurd (ground arith)
  | inr (n, e) ↦ elim (Option-cases (write_each pkts)) [
    | inl bad ↦ absurd (ground arith)
    | inr (rest, f) ↦
        let before : bytes ≡ n ++ q ++ rest = ground arith in
        rw (before, e, write_each-snoc pkts pkt rest size f p) (simp append_assoc)
  ]
]

-- one more packet
Framed-snoc :
    (sent : List (List ℕ)) (pkt stream size : List ℕ)
    → Framed sent stream
    → pack_I (length pkt) ≡ some size
    → Framed (sent ++ pkt ∷ []) (stream ++ size ++ pkt)
Framed-snoc sent pkt stream size f p = record {
  old = f.old;
  now = f.now ++ pkt ∷ [];
  split = rw (f.split) (append_assoc f.old f.now (pkt ∷ []));
  written = write_each-snoc f.now pkt stream size f.written p;
}

-- an action that leaves the stream framed, whether it returns or raises
Keeps : {A : Type 0} → Action LudpHostDpi A → Type 0
Keeps m = (h : LudpHostDpi) → IsFramed h → IsFramed (left_by (m h))

send_packet-Keeps : (contents : List ℕ) → Keeps (send_packet whole contents)
unfolding send_packet Keeps sendall
send_packet-Keeps contents h f = sending h.connected h.sock refl f
  where
    sending :
        (b : Bool) (sock : Option (List ℕ))
        → h.sock ≡ sock
        → IsFramed h
        → IsFramed (left_by ((sendall whole b sock contents >>= λ _. pure true) h))
    sending true (some stream) e f = elim (Option-cases (pack_I (length contents))) [
      | inl long ↦ rw long f
      | inr (size, q) ↦ rw q (Framed-snoc h.sent_packets contents stream size (rw e at f) q)
    ]
    sending true none e f = f
    sending false (some stream) e f = f
    sending false none e f = f

connect_dpi-Keeps : (tries : List Bool) → Keeps (connect_dpi tries)
unfolding connect_dpi Keeps write_each
connect_dpi-Keeps [] h f = f
connect_dpi-Keeps (true ∷ tries) h f = record {
  old = h.sent_packets;
  now = [];
  split = sym (append-nil h.sent_packets);
  written = refl;
}
connect_dpi-Keeps (false ∷ tries) h f = connect_dpi-Keeps tries (record h { sock = none }) tt

-- after a packet that was built or not, sent or not, and what follows it
sent-Keeps :
    {A : Type 0} (pkt : Option (List ℕ)) (k : Action LudpHostDpi A)
    → Keeps k
    → Keeps (or_raise pkt struct_error >>= λ p. send_packet whole p >>= λ _. k)
unfolding Keeps
sent-Keeps none k keeps h f = f
sent-Keeps (some p) k keeps h f = then_keeps (send_packet whole p h) (send_packet-Keeps p h f)
  where
    then_keeps :
        (r : Outcome LudpHostDpi Bool)
        → IsFramed (left_by r)
        → IsFramed (left_by (elim r [ ok a s ↦ k s | raised e s ↦ raised e s ]))
    then_keeps (ok a s) g = keeps s g
    then_keeps (raised e s) g = g

after-IsFramed : (c : Call) (h : LudpHostDpi) → IsWhole c → IsFramed h → IsFramed (after c h)
unfolding after disconnect send_cmd send_credit_dpi send_nack Keeps
after-IsFramed (connecting tries) h w f = connect_dpi-Keeps tries h f
after-IsFramed disconnecting h w f = tt
after-IsFramed (packet whole contents) h w f = send_packet-Keeps contents h f
after-IsFramed (cmd whole opcode arg1 arg2 flags) h w f =
    sent-Keeps (pack_header ludp_magic pkt_cmd flags h.next_cmd_id opcode arg1 arg2)
      (pure h.next_cmd_id) (λ s g. g) (record h { next_cmd_id = h.next_cmd_id + 1 }) f
after-IsFramed (credit whole n) h w f =
    sent-Keeps (pack_header ludp_magic pkt_credit 0x00 n 0 0 0)
      (modify (λ h. record h { abs_credit = n }) >> pure true) (λ s g. g) h f
after-IsFramed (nack whole miss_seq count) h w f =
    sent-Keeps (pack_header ludp_magic pkt_nack 0x00 miss_seq count 0 0) (pure true) (λ s g. g) h f
after-IsFramed (packet (broken n) contents) h w f = absurd (cc)
after-IsFramed (cmd (broken n) opcode arg1 arg2 flags) h w f = absurd (cc)
after-IsFramed (credit (broken n) k) h w f = absurd (cc)
after-IsFramed (nack (broken n) miss_seq count) h w f = absurd (cc)

after_all-IsFramed_from :
    (cs : List Call) (h : LudpHostDpi) → All IsWhole cs → IsFramed h → IsFramed (after_all cs h)
unfolding after_all
after_all-IsFramed_from [] h w f = f
after_all-IsFramed_from (c ∷ cs) h w f =
    after_all-IsFramed_from cs (after c h) w.1 (after-IsFramed c h w.0 f)

-- From a new client of the co-simulation's socket, whatever calls are made, where each `sendall`
-- writes everything, and whichever of the calls raise for another reason (no connection, a value
-- that does not fit its field): what stands on an open socket is a final part of `sent_packets`,
-- each packet behind its length and nothing else.
pub after_all-IsFramed :
    (cs : List Call) (port window : ℕ)
    → All IsWhole cs
    → IsFramed (after_all cs (new_host_dpi port window))
unfolding new_host_dpi
after_all-IsFramed cs port window w = after_all-IsFramed_from cs (new_host_dpi port window) w tt
