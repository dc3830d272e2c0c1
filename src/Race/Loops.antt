-- ===== src/Race/Loops.antt =====
-- The sections that both threads go through: the hand-over of a packet, the two loops over the heap,
-- and a credit update.
use mini_corundum.Base.{
  ℕ, ◌+◌, ⊤, Option, none, some, List, [], ◌∷◌, ltb, ◌==◌, if◌then◌else◌, Outcome, ok, raised, ◌++◌,
  key_error, index_error,
}
use mini_corundum.Dict.{lookup, erase}
use mini_corundum.Host.State.{LudpDataPacket, LudpHost}
use mini_corundum.Host.Packets.{build_credit}
use mini_corundum.Host.Receive.{call}
use mini_corundum.Race.Machine.{Next, at, left, broken, Config, Machine, within}

-- `self._deliver(pkt); self.expected_seq += 1`: the increment reads the field and then writes it.
pub data Handing : Type 0 where
  processed_up : LudpDataPacket → Handing
  call_back : LudpDataPacket → Handing
  load_expected : Handing
  store_expected : ℕ → Handing

-- `while self.ooo_heap and self.ooo_heap[0] < self.expected_seq: heappop(self.ooo_heap)`
pub data Dropping : Type 0 where
  any_stale : Dropping
  stale_head : Dropping
  is_stale : ℕ → Dropping
  pop_stale : Dropping

-- `while self.ooo_heap and self.ooo_heap[0] == self.expected_seq: ...`
pub data Draining : Type 0 where
  any_ready : Draining
  ready_head : Draining
  is_ready : ℕ → Draining
  pop_ready : Draining
  take_out : ℕ → Draining
  handing : Handing → Draining

-- `send_credit`: the datagram is built and sent, and counted under the lock.
pub data Sending : Type 0 where
  send : ℕ → Sending
  count_sent : Sending

-- `new_credit = ...; if new_credit > self.abs_credit: ...`; `renew` has no test
pub data Granting : Type 0 where
  load_credit : Granting
  test_credit : ℕ → Granting
  renew : Granting
  sending : ℕ → Sending → Granting
  store_credit : ℕ → Granting

-- `if self.ooo_heap`
abbrev pub when_any : {P A : Type 0} → List ℕ → Next P A → Next P A → Next P A
when_any [] some_left none_left = none_left
when_any (x ∷ xs) some_left none_left = some_left

module _ {App : Type 0} where
  -- `self.ooo_heap[0]` and `heappop(self.ooo_heap)`, which raise on an empty list
  abbrev pub at_head : {P A : Type 0} → List ℕ → (ℕ → P) → LudpHost App → Config (LudpHost App) P A
  at_head [] k h = (broken index_error, h)
  at_head (x ∷ xs) k h = (at (k x), h)

  abbrev pub pop_head : {P A : Type 0} → List ℕ → (ℕ → P) → LudpHost App → Config (LudpHost App) P A
  pop_head [] k h = (broken index_error, h)
  pop_head (x ∷ xs) k h = (at (k x), record h { ooo_heap = xs })

  unfoldable pub step_handing : Machine (LudpHost App) Handing ⊤
  step_handing (processed_up pkt) h = (
    at (call_back pkt),
    record h { stats = record (h.stats) { packets_processed = h.stats.packets_processed + 1 } },
  )
  step_handing (call_back pkt) h = (at load_expected, record h { app = call h.on_data pkt h.app })
  step_handing load_expected h = (at (store_expected (h.expected_seq + 1)), h)
  step_handing (store_expected n) h = (left tt, record h { expected_seq = n })

  unfoldable pub step_dropping : Machine (LudpHost App) Dropping ⊤
  step_dropping any_stale h = (when_any h.ooo_heap (at stale_head) (left tt), h)
  step_dropping stale_head h = at_head h.ooo_heap is_stale h
  step_dropping (is_stale x) h = (if ltb x h.expected_seq then at pop_stale else left tt, h)
  step_dropping pop_stale h = pop_head h.ooo_heap (λ _. any_stale) h

  -- `self.out_of_order.pop(seq)`
  abbrev pub taken : ℕ → Option LudpDataPacket → LudpHost App → Config (LudpHost App) Draining ⊤
  taken seq none h = (broken key_error, h)
  taken seq (some pkt) h =
      (at (handing (processed_up pkt)), record h { out_of_order = erase seq h.out_of_order })

  unfoldable pub step_draining : Machine (LudpHost App) Draining ⊤
  step_draining any_ready h = (when_any h.ooo_heap (at ready_head) (left tt), h)
  step_draining ready_head h = at_head h.ooo_heap is_ready h
  step_draining (is_ready x) h = (if x == h.expected_seq then at pop_ready else left tt, h)
  step_draining pop_ready h = pop_head h.ooo_heap take_out h
  step_draining (take_out seq) h = taken seq (lookup seq h.out_of_order) h
  step_draining (handing p) h = within handing (λ _. at any_ready) (step_handing p h)

  -- the datagram is built, which `struct.pack` can refuse, and sent
  abbrev pub handed_on : Outcome (LudpHost App) (List ℕ) → Config (LudpHost App) Sending ⊤
  handed_on (ok bytes h) = (at count_sent, record h { sent = h.sent ++ bytes ∷ [] })
  handed_on (raised e h) = (broken e, h)

  unfoldable pub step_sending : Machine (LudpHost App) Sending ⊤
  step_sending (send n) h = handed_on (build_credit n h)
  step_sending count_sent h =
      (left tt, record h { stats = record (h.stats) { credits_sent = h.stats.credits_sent + 1 } })

  unfoldable pub step_granting : Machine (LudpHost App) Granting ⊤
  step_granting load_credit h = (at (test_credit (h.expected_seq + h.window_size)), h)
  step_granting (test_credit n) h =
      (if ltb h.abs_credit n then at (sending n (send n)) else left tt, h)
  step_granting renew h =
      (at (sending (h.expected_seq + h.window_size) (send (h.expected_seq + h.window_size))), h)
  step_granting (sending n p) h = within (sending n) (λ _. at (store_credit n)) (step_sending p h)
  step_granting (store_credit n) h = (left tt, record h { abs_credit = n })
