-- ===== src/Race/Ghost/Sound.antt =====
-- The receive thread beside a healthy host of its own.
use mathlib.Core.Path.{subst}
use mini_corundum.Base.{ℕ, ◌+◌, ◌<◌, ◌≡◌, ◌≢◌, sym, ◌∙◌, ⊤, Returns-inv, arith}
use mini_corundum.Host.State.{LudpDataPacket, LudpHost}
use mini_corundum.Reassembly.Accept.{IsConsistent}
use mini_corundum.Reassembly.Stream.{one_packet}
use mini_corundum.Threads.Room.{HasRoom, HasRoom-heap}
use mini_corundum.Threads.Moves.{streamed-RanBy}
use mini_corundum.Race.Machine.{Next, at, left, broken, Config, within, end_of, Reaches, stay, go}
use mini_corundum.Race.Loops.{Granting, step_granting}
use mini_corundum.Race.Receiver.{
  Handling, count_in, track, is_next, hand_over, drop_old, drain_ready, is_due, grant, is_future,
  count_gap, is_stored, push_on, put_in, step_handling,
}
use mini_corundum.Race.Alone.Handle.{packet_alone}
use mini_corundum.Race.Ghost.Agree.{SameCore}
use mini_corundum.Race.Ghost.Receiver.{NotGranting, step_handling-Agrees}
use mini_corundum.Race.Ghost.Granting.{
  Fits, GoesOn, core_trans, granted-core, step_granting-core, step_granting-GoesOn,
}
use mini_corundum.Race.Ghost.Entering.{Enters, step_handling-Enters}

module _ {App : Type 0} (window : ℕ) where
  core_sym : {g h : LudpHost App} → SameCore g h → SameCore h g
  core_sym s = record {
    expected = sym s.expected;
    app = sym s.app;
    buffer = sym s.buffer;
    heap = sym s.heap;
    callback = sym s.callback;
    interval = sym s.interval;
    window = sym s.window;
  }

  -- a host at rest that can go on
  pub record Healthy (g : LudpHost App) : Type 0 where
    pub consistent : IsConsistent g
    pub room : HasRoom g
    pub interval : g.credit_interval ≢ 0
    pub same_window : g.window_size ≡ window

  -- The receive thread stands where it stands on some healthy host of its own.
  pub data Sound : Next Handling ⊤ → LudpHost App → Type 0 where
    rests : {g h : LudpHost App} {a : ⊤} → Healthy g → SameCore g h → Sound (left a) h
    grants :
        {g h : LudpHost App} {p : Granting}
        → Healthy g
        → SameCore g h
        → Fits p
        → Sound (at (grant p)) h
    works :
        {p : Handling} {g g' h : LudpHost App}
        → NotGranting p
        → SameCore g h
        → Reaches step_handling (at p, g) (left tt, g')
        → Healthy g'
        → Sound (at p) h

  Reaches-Sound :
      (n : Next Handling ⊤) (g g' h : LudpHost App)
      → Enters n
      → SameCore g h
      → Reaches step_handling (n, g) (left tt, g')
      → Healthy g'
      → Sound n h
  Reaches-Sound (left a) g g' h e s stay y = rests y s
  Reaches-Sound (broken x) g g' h e s r y = elim r [ ]
  Reaches-Sound (at (grant p)) g g' h e s r y =
      grants y (core_trans (core_sym (granted-core r tt)) s) e
  Reaches-Sound (at (count_in size pkt)) g g' h e s r y = works tt s r y
  Reaches-Sound (at (track pkt)) g g' h e s r y = works tt s r y
  Reaches-Sound (at (is_next pkt)) g g' h e s r y = works tt s r y
  Reaches-Sound (at (hand_over p)) g g' h e s r y = works tt s r y
  Reaches-Sound (at (drop_old p)) g g' h e s r y = works tt s r y
  Reaches-Sound (at (drain_ready p)) g g' h e s r y = works tt s r y
  Reaches-Sound (at is_due) g g' h e s r y = works tt s r y
  Reaches-Sound (at (is_future pkt)) g g' h e s r y = works tt s r y
  Reaches-Sound (at (count_gap pkt)) g g' h e s r y = works tt s r y
  Reaches-Sound (at (is_stored pkt)) g g' h e s r y = works tt s r y
  Reaches-Sound (at (push_on pkt)) g g' h e s r y = works tt s r y
  Reaches-Sound (at (put_in pkt)) g g' h e s r y = works tt s r y

  granted-Sound :
      (c : Config (LudpHost App) Granting ⊤) (g : LudpHost App)
      → GoesOn c.0
      → SameCore g c.1
      → Healthy g
      → Sound (within grant left c).0 (within grant left c).1
  granted-Sound (at p, h) g o s y = grants y s o
  granted-Sound (left a, h) g o s y = rests y s
  granted-Sound (broken e, h) g o s y = elim o [ ]

  pub step_handling-Sound :
      (p : Handling) (h : LudpHost App)
      → Sound (at p) h
      → Sound (step_handling p h).0 (step_handling p h).1
  unfolding step_handling
  step_handling-Sound (grant p) h (grants {g} y s f) =
      granted-Sound (step_granting p h) g
        (step_granting-GoesOn p h f (omega (arith, y.room.now, s.expected, s.window)))
        (core_trans s (step_granting-core p h)) y
  step_handling-Sound p h (works {g} {g'} o s (go r) y) =
      let a = step_handling-Agrees p g h o s in
      subst (λ n. Sound n (step_handling p h).1) (sym a.point)
        (Reaches-Sound (step_handling p g).0 (step_handling p g).1 g' (step_handling p h).1
          (step_handling-Enters p g o) a.core r y)

  pub core-Sound :
      (n : Next Handling ⊤) (h h' : LudpHost App) → SameCore h h' → Sound n h → Sound n h'
  core-Sound n h h' t (rests y s) = rests y (core_trans s t)
  core-Sound n h h' t (grants y s f) = grants y (core_trans s t) f
  core-Sound n h h' t (works o s r y) = works o (core_trans s t) r y

  -- A packet that fits is taken in on the healthy host.
  pub count_in-Sound :
      (size : ℕ) (pkt : LudpDataPacket) (a : ⊤) (h : LudpHost App)
      → pkt.seq_num + 2 + window < 4294967296
      → Sound (left a) h
      → Sound (at (count_in size pkt)) h
  count_in-Sound size pkt a h fits (rests {g} y s) =
      let (u, g', e, t) =
        Returns-inv
          (one_packet size pkt g y.consistent y.interval (HasRoom-heap g y.consistent y.room)) in
      let ran = streamed-RanBy pkt t.0 g g' (omega (arith, fits, y.same_window)) t.1 y.room in
      works tt s
        (subst (λ o. Reaches step_handling (at (count_in size pkt), g) (end_of o)) e
          (packet_alone size pkt g))
        (record {
          consistent = ran.consistent;
          room = ran.room;
          interval = λ z. y.interval (sym ran.interval ∙ z);
          same_window = ran.window ∙ y.same_window;
        })
