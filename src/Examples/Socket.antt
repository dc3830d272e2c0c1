-- ===== src/Examples/Socket.antt =====
-- The socket client at a concrete input.
use mini_corundum.Base.{refl, List, [], ◌∷◌, true, false}
use mini_corundum.Dpi.Main
use mini_corundum.Dpi.{whole, new_host_dpi}
use mini_corundum.Dpi.Framing.{
  Call, connecting, disconnecting, packet, cmd, credit, nack, after_all, IsFramed,
  after_all-IsFramed,
}

-- a call without a connection, two connections, and a credit that does not fit
abbrev calls : List Call
calls =
    packet whole (1 ∷ [])
    ∷ connecting (false ∷ true ∷ [])
    ∷ packet whole (1 ∷ 2 ∷ [])
    ∷ cmd whole 1 0 0 0
    ∷ disconnecting
    ∷ connecting (true ∷ [])
    ∷ credit whole 64
    ∷ credit whole 4294967296
    ∷ nack whole 5 1
    ∷ []

after_all-IsFramed_example : IsFramed (after_all calls (new_host_dpi 1234 64))
after_all-IsFramed_example =
    after_all-IsFramed calls 1234 64
      (refl, (refl, (refl, (refl, (refl, (refl, (refl, (refl, (refl, tt)))))))))
