-- ===== src/Threads/Steps.antt =====
-- One event at a time.
use mini_corundum.Base.{
  ℕ, ◌+◌, ◌<◌, ◌≡◌, ◌≢◌, inl, inr, ⊤, Bool, true, false, some, List, [], ◌∷◌, length, arith, ◌>>=◌,
  pure, Action, if◌then◌else◌, Returns, returns, Returns-map, Returns-bind, Option-cases,
}
use mini_corundum.Host.State.{LudpDataPacket, LudpHost}
use mini_corundum.Host.Packets.{take_cmd_id, sendto}
use mini_corundum.Host.Receive.{recv_datagram}
use mini_corundum.Host.Poll.{PollLocals}
use mini_corundum.Host.Commands.{issue, forget}
use mini_corundum.Reassembly.Wire.{
  data_packet, answered, answer_id, recv_datagram-data, recv_datagram-other,
}
use mini_corundum.Reassembly.Credit.{send_credit_lem}
use mini_corundum.Reassembly.Accept.{IsConsistent}
use mini_corundum.Reassembly.Stream.{Taken, one_packet}
use mini_corundum.Reply.Attempt.{build_cmd_lem}
use mini_corundum.Flow.Credit.{poll_round_lem}
use mini_corundum.Threads.{Event, received, woken, commanded, forgotten, granted, step}
use mini_corundum.Threads.Room.{HasRoom, HasRoom-FitsCredit, HasRoom-heap}
use mini_corundum.Threads.Moves.{streamed-RanBy, touched-RanBy, Polled-RanBy, RanBy-one}
use mini_corundum.Threads.Ran.{came, RanBy}

-- The event stays below the ends of the 32-bit and 16-bit fields, with `window` the window.
abbrev pub EventFits : ℕ → Event → Type 0
EventFits window (received bytes) =
    (p : LudpDataPacket) → data_packet bytes ≡ some p → p.seq_num + 2 + window < 4294967296
EventFits window (woken now) = ⊤
EventFits window (commanded opcode arg1 arg2 flags) =
    (opcode < 65536) × (arg1 < 4294967296) × (arg2 < 65536) × (flags < 256)
EventFits window (forgotten cmd_id) = ⊤
EventFits window (granted abs_credit) = abs_credit < 4294967296

came-some :
    (bytes : List ℕ) (p : LudpDataPacket)
    → data_packet bytes ≡ some p
    → came (received bytes ∷ []) ≡ p ∷ []
came-some bytes p e = ground arith

module _ {App : Type 0} where
  -- what an event does that takes a host from `h`
  abbrev pub Stepped : Event → LudpHost App → PollLocals → LudpHost App → Type 0
  Stepped e h _ h' = (ps : List LudpDataPacket) × RanBy (came (e ∷ [])) 1 ps h h'

  -- either branch of a test
  pub either_way :
      {A : Type 0} {P : A → LudpHost App → Type 0} (b : Bool) (m k : Action (LudpHost App) A)
      (h : LudpHost App)
      → Returns P (m h)
      → Returns P (k h)
      → Returns P ((if b then m else k) h)
  either_way true m k h r s = r
  either_way false m k h r s = s

  unchanged :
      (e : Event) (loc : PollLocals) (h : LudpHost App)
      → IsConsistent h
      → HasRoom h
      → Returns (Stepped e h) (pure loc h)
  unchanged e loc h c r = returns (
    [],
    touched-RanBy _ 1 h.next_cmd_id h.sent h.running h.pending_cmds h.stats.credits_sent h
        (omega arith) c r,
  )

  received_lem :
      (bytes : List ℕ) (loc : PollLocals) (h : LudpHost App)
      → IsConsistent h
      → HasRoom h
      → h.credit_interval ≢ 0
      → EventFits h.window_size (received bytes)
      → Returns (Stepped (received bytes) h) ((recv_datagram bytes >>= λ _. pure loc) h)
  received_lem bytes loc h c r nz fits = elim (Option-cases (data_packet bytes)) [
    | inl other ↦
        rw (recv_datagram-other bytes h other, ◌>>=◌)
          (returns (
            [],
            touched-RanBy _ 1 h.next_cmd_id h.sent h.running
                (answered (answer_id bytes) bytes h.pending_cmds) h.stats.credits_sent h
                (omega arith) c r,
          ))
    | inr (p, e) ↦
        Returns-bind {P = Taken p h} (recv_datagram bytes) (λ _. pure loc)
          (rw (recv_datagram-data bytes p h e)
            (one_packet (length bytes) p h c nz (HasRoom-heap h c r)))
          λ _ h' (ps, a, _). returns (
            ps,
            rw (came-some bytes p e)
                (RanBy-one (p ∷ []) ps h h' (streamed-RanBy p ps h h' (fits p e) a r)),
          )
  ]

  commanded_lem :
      (opcode arg1 arg2 flags : ℕ) (loc : PollLocals) (h : LudpHost App)
      → IsConsistent h
      → HasRoom h
      → h.next_cmd_id < 4294967296
      → EventFits h.window_size (commanded opcode arg1 arg2 flags)
      → Returns
          (Stepped (commanded opcode arg1 arg2 flags) h)
          (step (commanded opcode arg1 arg2 flags) loc h)
  unfolding step take_cmd_id issue sendto
  commanded_lem opcode arg1 arg2 flags loc h c r n (o, a, b, f) =
      rw
        (
          build_cmd_lem opcode arg1 arg2 flags h.next_cmd_id
              (record h { next_cmd_id = h.next_cmd_id + 1 }) (omega arith),
          ◌>>=◌,
        )
        (returns (
          [],
          touched-RanBy _ 1 (h.next_cmd_id + 1) _ h.running _ h.stats.credits_sent h (omega arith) c
              r,
        ))

  -- No event raises.
  pub step_lem :
      (e : Event) (loc : PollLocals) (h : LudpHost App)
      → IsConsistent h
      → HasRoom h
      → h.credit_interval ≢ 0
      → h.next_cmd_id < 4294967296
      → EventFits h.window_size e
      → Returns (Stepped e h) (step e loc h)
  unfolding step forget
  step_lem (received bytes) loc h c r nz n f =
      either_way h.running _ _ h (received_lem bytes loc h c r nz f)
        (unchanged (received bytes) loc h c r)
  step_lem (woken now) loc h c r nz n f =
      either_way h.running _ _ h
        (Returns-map (poll_round_lem now loc h c (HasRoom-FitsCredit h r))
          λ _ h' p. let (ps, a) = Polled-RanBy now loc h h' r p in (ps, RanBy-one [] ps h h' a))
        (unchanged (woken now) loc h c r)
  step_lem (commanded opcode arg1 arg2 flags) loc h c r nz n f =
      commanded_lem opcode arg1 arg2 flags loc h c r n f
  step_lem (forgotten cmd_id) loc h c r nz n f = returns (
    [],
    touched-RanBy _ 1 h.next_cmd_id h.sent h.running _ h.stats.credits_sent h (omega arith) c r,
  )
  step_lem (granted abs_credit) loc h c r nz n f =
      rw (send_credit_lem abs_credit h f, ◌>>=◌)
        (returns (
          [],
          touched-RanBy _ 1 h.next_cmd_id _ h.running h.pending_cmds (h.stats.credits_sent + 1) h
              (omega arith) c r,
        ))
