-- ===== src/Logger/Alive.antt =====
-- The threads' work leaves `running` alone.
use mini_corundum.Base.{
  ℕ, ◌+◌, ◌<◌, ◌≡◌, ◌≢◌, ◌∙◌, refl, inl, inr, List, [], ◌∷◌, map, All, length, arith, ◌>>=◌, pure,
  Returns, returns, Returns-map, Returns-bind, Returns-and, Option-cases, Bool-cases,
}
use mini_corundum.Host.State.{LudpHost}
use mini_corundum.Host.Receive.{recv_datagram}
use mini_corundum.Host.Poll.{PollLocals}
use mini_corundum.Reassembly.Wire.{data_packet, recv_datagram-data, recv_datagram-other}
use mini_corundum.Reassembly.Accept.{IsConsistent}
use mini_corundum.Reassembly.Stream.{Taken, one_packet}
use mini_corundum.Flow.Round.{is_due, Polled}
use mini_corundum.Flow.Credit.{poll_round_lem}
use mini_corundum.Threads.{step, run}
use mini_corundum.Threads.Room.{HasRoom, HasRoom-heap, HasRoom-FitsCredit}
use mini_corundum.Threads.Steps.{EventFits, Stepped, step_lem, either_way}
use mini_corundum.Logger.Session.{Work, reads, polls, event}

module _ {App : Type 0} where
  abbrev Alive : {A : Type 0} → LudpHost App → A → LudpHost App → Type 0
  Alive h _ h' = h'.running ≡ h.running

  reads-Alive :
      (bytes : List ℕ) (loc : PollLocals) (h : LudpHost App)
      → IsConsistent h
      → HasRoom h
      → h.credit_interval ≢ 0
      → Returns (Alive h) ((recv_datagram bytes >>= λ _. pure loc) h)
  reads-Alive bytes loc h c r nz = elim (Option-cases (data_packet bytes)) [
    | inl other ↦ rw (recv_datagram-other bytes h other, ◌>>=◌) (returns refl)
    | inr (p, e) ↦
        Returns-bind {P = Taken p h} (recv_datagram bytes) (λ _. pure loc)
          (rw (recv_datagram-data bytes p h e)
            (one_packet (length bytes) p h c nz (HasRoom-heap h c r)))
          λ _ h' (ps, a, _). returns a.same.running
  ]

  Polled-running :
      (now : ℕ) (loc : PollLocals) (h h' : LudpHost App)
      → Polled now loc h h'
      → h'.running ≡ h.running
  Polled-running now loc h h' p = elim (Bool-cases (is_due now loc h)) [
    | inl due ↦ let (x, ps, s) = p.skips due in s.same.running
    | inr early ↦ let w = p.waits early in w.same.running
  ]

  step-Alive :
      (w : Work) (loc : PollLocals) (h : LudpHost App)
      → IsConsistent h
      → HasRoom h
      → h.credit_interval ≢ 0
      → Returns (Alive h) (step (event w) loc h)
  unfolding step
  step-Alive (reads bytes) loc h c r nz =
      either_way h.running _ _ h (reads-Alive bytes loc h c r nz) (returns refl)
  step-Alive (polls now) loc h c r nz =
      either_way h.running _ _ h
        (Returns-map (poll_round_lem now loc h c (HasRoom-FitsCredit h r))
          λ _ h' p. Polled-running now loc h h' p)
        (returns refl)

  pub run-Alive :
      (ws : List Work) (loc : PollLocals) (h : LudpHost App)
      → IsConsistent h
      → HasRoom h
      → h.credit_interval ≢ 0
      → h.next_cmd_id + length (map event ws) < 4294967296
      → All (EventFits h.window_size) (map event ws)
      → Returns (λ _ h'. h'.running ≡ h.running) (run (map event ws) loc h)
  unfolding run
  run-Alive [] loc h c r nz n f = returns refl
  run-Alive (w ∷ ws) loc h c r nz n f =
      Returns-bind {P = λ l h'. Stepped (event w) h l h' × (h'.running ≡ h.running)}
        (step (event w) loc) _
        (Returns-and (step_lem (event w) loc h c r nz (omega arith) f.0)
          (step-Alive w loc h c r nz))
        λ loc' h' ((ps, a), alive).
          Returns-map
            (run-Alive ws loc' h' a.consistent a.room (rw (a.interval) nz) (omega (arith, a.ids))
              (rw (a.window) (f.1)))
            λ _ h'' still. still ∙ alive
