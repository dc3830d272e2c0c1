-- ===== src/Dpi/Exit.antt =====
-- How `main` of sw/ludp_host_dpi.py ends.
use mini_corundum.Base.{
  os_error, ℕ, ◌≡◌, Bool, true, false, none, some, List, [], ◌∷◌, Outcome, ok, raised,
}
use mini_corundum.Dpi.{LudpHostDpi, Delivery, whole, broken}

-- a try to connect succeeds
abbrev pub connects : List Bool → Bool
connects [] = false
connects (true ∷ tries) = true
connects (false ∷ tries) = connects tries

-- no socket is left open
abbrev pub IsClosed : LudpHostDpi → Type 0
IsClosed h = (h.sock ≡ none) × (h.connected ≡ false)

abbrev connected : LudpHostDpi → LudpHostDpi
connected h = record h { sock = some []; connected = true }

-- the outcome of a run with a connection, on how the `sendall` of the frame goes
abbrev pub outcome : Delivery → List ℕ → LudpHostDpi → Outcome LudpHostDpi ℕ
outcome whole frame h = ok 0 (record h { sent_packets = frame ∷ [] })
outcome (broken n) frame h = raised os_error h
