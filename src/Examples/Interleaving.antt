-- ===== src/Examples/Interleaving.antt =====
-- An interleaving of the threads at a concrete input.
use mini_corundum.Base.{All, List, [], ◌∷◌, arith, Returns}
use mini_corundum.Threads.{Event, received, woken, commanded, forgotten, granted, run}
use mini_corundum.Threads.Room.{HasRoom}
use mini_corundum.Threads.Steps.{EventFits}
use mini_corundum.Threads.Safety.{Ran, run_lem}
use mini_corundum.Examples.Data.{packet, ack, stalled, stalled-IsConsistent, idle_locals}

-- The gap before packet 2 is seen and skipped, while a command is sent and answered.
abbrev interleaved : List Event
interleaved =
    woken 5000
    ∷ commanded 1 0 0 0
    ∷ received (packet 3 13)
    ∷ received (ack 1)
    ∷ woken 11000
    ∷ forgotten 1
    ∷ received (packet 0 10)
    ∷ granted 8
    ∷ []

stalled-HasRoom : HasRoom stalled
stalled-HasRoom = record { now = omega arith; stored = λ s q l. ground arith }

interleaved-fits : All (EventFits stalled.window_size) interleaved
interleaved-fits = (
  tt,
  (
    omega arith,
    (
      λ p e. ground arith,
      (λ p e. ground arith, (tt, (tt, (λ p e. ground arith, (omega arith, tt))))),
    ),
  ),
)

run_lem_example : Returns (Ran interleaved stalled) (run interleaved idle_locals stalled)
run_lem_example =
    run_lem interleaved idle_locals stalled stalled-IsConsistent stalled-HasRoom (omega arith)
      (omega arith) interleaved-fits
