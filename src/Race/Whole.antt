-- ===== src/Race/Whole.antt =====
-- The interleavings of whole handlers, as Threads has them, as turns.
use mathlib.Core.Path.{subst}
use mini_corundum.Base.{
  ℕ, ◌≡◌, refl, sym, Action, ⊤, Bool, true, false, some, List, [], ◌∷◌, length, All, Outcome, ok,
  raised, ◌>>=◌, pure, if◌then◌else◌,
}
use mini_corundum.Host.State.{LudpDataPacket, LudpHost}
use mini_corundum.Host.Receive.{recv_datagram}
use mini_corundum.Host.Poll.{PollLocals, poll_round}
use mini_corundum.Reassembly.Wire.{data_packet}
use mini_corundum.Threads.{Event, received, woken, commanded, forgotten, granted, step, run}
use mini_corundum.Race.Machine.{Reaches, at, left, end_of}
use mini_corundum.Race.Receiver.{count_in, step_handling}
use mini_corundum.Race.Poller
use mini_corundum.Race.Poller.{step_polling}
use mini_corundum.Race.System.{arrives, wakes, Race, at_rest, turn}
use mini_corundum.Race.Alone.Handle.{step_handling-recv_datagram}
use mini_corundum.Race.Alone.Round.{step_polling-poll_round}
use mini_corundum.Race.Chances.{Possible, now_so, turned, receiver_runs, poller_runs}

-- a DATA packet, or a round of the polling thread
abbrev pub Contends : Event → Type 0
Contends (received bytes) = (p : LudpDataPacket) × (data_packet bytes ≡ some p)
Contends (woken now) = ⊤
Contends _ = ⊥

module _ {App : Type 0} where
  -- both threads wait
  abbrev pub resting : ℕ → PollLocals → LudpHost App → Race App
  resting now loc h = record { receiver = left tt; poller = left loc; now = now; shared = h }

  kept_locals :
      (o : Outcome (LudpHost App) ⊤) (loc loc' : PollLocals) (h h' : LudpHost App)
      → ◌>>=◌ {A = ⊤} (λ _. o) (λ _. pure loc) h ≡ ok loc' h'
      → (o ≡ ok tt h') × (loc ≡ loc')
  kept_locals (ok tt s) loc loc' h h' e = (cc, cc)
  kept_locals (raised x s) loc loc' h h' e = absurd cc

  >>=-ok :
      (o : Outcome (LudpHost App) PollLocals) (k : PollLocals → Action (LudpHost App) PollLocals)
      (loc' : PollLocals) (h h' : LudpHost App)
      → ◌>>=◌ {A = PollLocals} (λ _. o) k h ≡ ok loc' h'
      → (loc : PollLocals) × (g : LudpHost App) × (o ≡ ok loc g) × (k loc g ≡ ok loc' h')
  >>=-ok (ok loc g) k loc' h h' e = (loc, g, refl, e)
  >>=-ok (raised x g) k loc' h h' e = absurd cc

  module _ {P : Race App → Type 0} where
    stood :
        (now : ℕ) (loc loc' : PollLocals) (h h' : LudpHost App)
        → ◌≡◌ {A = Outcome (LudpHost App) PollLocals} (ok loc h) (ok loc' h')
        → Possible P (resting now loc' h')
        → Possible P (resting now loc h)
    stood now loc loc' h h' e k =
        let (l, g) = parts e in
        subst (λ l. Possible P (resting now l h)) (sym l)
          (subst (λ g. Possible P (resting now loc' g)) (sym g) k)
      where
        parts :
            ◌≡◌ {A = Outcome (LudpHost App) PollLocals} (ok loc h) (ok loc' h')
            → (loc ≡ loc') × (h ≡ h')
        parts e = (cc, cc)

    arrival_if :
        (b : Bool) (bytes : List ℕ) (p : LudpDataPacket) (now : ℕ) (loc loc' : PollLocals)
        (h h' : LudpHost App)
        → data_packet bytes ≡ some p
        → (if b then (recv_datagram bytes >>= λ _. pure loc) else pure loc) h ≡ ok loc' h'
        → Possible P (resting now loc' h')
        → Possible P (
            if b
            then record (resting now loc h) { receiver = at (count_in (length bytes) p) }
            else resting now loc h)
    arrival_if true bytes p now loc loc' h h' e s k =
        let (done, same) = kept_locals (recv_datagram bytes h) loc loc' h h' s in
        receiver_runs (resting now loc h) {d = (left tt, h')}
          (subst (λ o. Reaches step_handling (at (count_in (length bytes) p), h) (end_of o)) done
            (step_handling-recv_datagram bytes p h e))
          (subst (λ l. Possible P (resting now l h')) (sym same) k)
    arrival_if false bytes p now loc loc' h h' e s k = stood now loc loc' h h' s k

    round_if :
        (b : Bool) (next now : ℕ) (loc loc' : PollLocals) (h h' : LudpHost App)
        → (if b then poll_round next loc else pure loc) h ≡ ok loc' h'
        → ((now : ℕ) → Possible P (resting now loc' h'))
        → Possible P (
            if b
            then record (resting next loc h) { poller = at (Poller.note_data, loc) }
            else resting now loc h)
    round_if true next now loc loc' h h' s k =
        poller_runs (resting next loc h) {d = (left loc', h')}
          (subst (λ o. Reaches (step_polling next) (at (Poller.note_data, loc), h) (end_of o)) s
            (step_polling-poll_round next loc h))
          (k next)
    round_if false next now loc loc' h h' s k = stood now loc loc' h h' s (k now)

    event_whole :
        (e : Event) (now : ℕ) (loc loc' : PollLocals) (h h' : LudpHost App)
        → Contends e
        → step e loc h ≡ ok loc' h'
        → ((now : ℕ) → Possible P (resting now loc' h'))
        → Possible P (resting now loc h)
    unfolding turn step
    event_whole (received bytes) now loc loc' h h' (p, e) s k =
        turned (arrives (length bytes) p)
          (arrival_if h.running bytes p now loc loc' h h' e s (k now))
    event_whole (woken next) now loc loc' h h' c s k =
        turned (wakes next) (round_if h.running next now loc loc' h h' s k)
    event_whole (commanded o a b f) now loc loc' h h' c s k = elim c [ ]
    event_whole (forgotten n) now loc loc' h h' c s k = elim c [ ]
    event_whole (granted n) now loc loc' h h' c s k = elim c [ ]

    run_whole :
        (es : List Event) (now : ℕ) (loc loc' : PollLocals) (h h' : LudpHost App)
        → All Contends es
        → run es loc h ≡ ok loc' h'
        → ((now : ℕ) → P (resting now loc' h'))
        → Possible P (resting now loc h)
    unfolding run
    run_whole [] now loc loc' h h' c e k = stood now loc loc' h h' e (now_so (k now))
    run_whole (e ∷ es) now loc loc' h h' (c, cs) r k =
        let (loc2, h2, first, rest) = >>=-ok (step e loc h) (run es) loc' h h' r in
        event_whole e now loc loc2 h h2 c first λ now. run_whole es now loc2 loc' h2 h' cs rest k

  -- Whatever a list of DATA packets and rounds of the polling thread leaves, each handled to its
  -- end as in Threads, if nothing is raised, is also left by some order of the single steps of the
  -- two threads, with both threads waiting.
  pub run-Possible :
      (es : List Event) (loc loc' : PollLocals) (h h' : LudpHost App)
      → All Contends es
      → run es loc h ≡ ok loc' h'
      → Possible
          (λ r. (r.receiver ≡ left tt) × (r.poller ≡ left loc') × (r.shared ≡ h'))
          (at_rest loc h)
  run-Possible es loc loc' h h' c e = run_whole es 0 loc loc' h h' c e λ now. (refl, refl, refl)
