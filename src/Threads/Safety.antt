-- ===== src/Threads/Safety.antt =====
-- A whole run of the threads, in any interleaving of their events.
use mini_corundum.Base.{
  suc, ◌+◌, ◌<◌, ◌≡◌, ◌≢◌, refl, List, [], ◌∷◌, ◌++◌, All, length, arith, Returns, returns,
  Returns-map, Returns-bind,
}
use mini_corundum.Host.State.{LudpDataPacket, LudpHost}
use mini_corundum.Host.Poll.{PollLocals}
use mini_corundum.Reassembly.Accept.{IsConsistent}
use mini_corundum.Threads.{Event, received, woken, commanded, forgotten, granted, step, run}
use mini_corundum.Threads.Room.{HasRoom}
use mini_corundum.Threads.Ran.{came, RanBy, RanBy-nil, RanBy-trans}
use mini_corundum.Threads.Steps.{EventFits, Stepped, step_lem}

came-cons : (e : Event) (es : List Event) → came (e ∷ es) ≡ came (e ∷ []) ++ came es
came-cons (received bytes) es = ground arith
came-cons (woken now) es = refl
came-cons (commanded opcode arg1 arg2 flags) es = refl
came-cons (forgotten cmd_id) es = refl
came-cons (granted abs_credit) es = refl

module _ {App : Type 0} where
  abbrev pub Ran : List Event → LudpHost App → PollLocals → LudpHost App → Type 0
  Ran es h _ h' = (ps : List LudpDataPacket) × RanBy (came es) (length es) ps h h'

  -- From a consistent host with a credit interval other than 0, and for any interleaving of
  -- datagrams, rounds of the polling thread, commands sent and given up, and credits that the
  -- application sends, where the sequence numbers with the window, the arguments and the credits
  -- stay below the ends of their fields, and the next command number with the number of all events
  -- stays below 2^32: nothing is raised and the host stays consistent. What the application is
  -- handed has strictly rising numbers from `expected_seq` on, and came in during the run or was
  -- stored before; the credit never falls; and at most one command number is taken for each event.
  pub run_lem :
      (es : List Event) (loc : PollLocals) (h : LudpHost App)
      → IsConsistent h
      → HasRoom h
      → h.credit_interval ≢ 0
      → h.next_cmd_id + length es < 4294967296
      → All (EventFits h.window_size) es
      → Returns (Ran es h) (run es loc h)
  unfolding run
  run_lem [] loc h c r nz n f = returns ([], RanBy-nil h c r)
  run_lem (e ∷ es) loc h c r nz n f =
      let q : suc (length es) ≡ 1 + length es = omega arith in
      Returns-bind {P = Stepped e h} (step e loc) _ (step_lem e loc h c r nz (omega arith) f.0)
        λ loc' h' (ps, a).
          Returns-map
            (run_lem es loc' h' a.consistent a.room (rw (a.interval) nz) (omega (arith, a.ids))
              (rw (a.window) (f.1)))
            λ _ h'' (qs, b). (
              ps ++ qs,
              rw (came-cons e es, q)
                  (RanBy-trans (came (e ∷ [])) (came es) 1 (length es) ps qs h h' h'' a b),
            )
