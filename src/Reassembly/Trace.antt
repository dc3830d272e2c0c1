-- ===== src/Reassembly/Trace.antt =====
-- What a call hands to the application, and what it leaves alone.
use mini_corundum.Base.{
  ℕ, suc, ◌+◌, ◌≡◌, refl, ⊤, Option, List, [], ◌∷◌, ◌++◌, length, length-append, arith,
}
use mini_corundum.Host.State.{LudpDataPacket, LudpHost}
use mini_corundum.Host.Receive.{call}

-- the sequence numbers `n`, `n + 1`, ... and no other
abbrev pub Consecutive : ℕ → List LudpDataPacket → Type 0
Consecutive n [] = ⊤
Consecutive n (p ∷ ps) = (p.seq_num ≡ n) × Consecutive (suc n) ps

pub Consecutive-append :
    (n : ℕ) (ps qs : List LudpDataPacket)
    → Consecutive n ps
    → Consecutive (n + length ps) qs
    → Consecutive n (ps ++ qs)
Consecutive-append n [] qs c d = let e : n + 0 ≡ n = omega arith in rw e at d
Consecutive-append n (p ∷ ps) qs c d =
    let e : n + suc (length ps) ≡ suc n + length ps = omega arith in
    (c.0, Consecutive-append (suc n) ps qs c.1 (rw e at d))

module _ {App : Type 0} where
  -- the callback on each packet in turn
  unfoldable pub feed : Option (LudpDataPacket → App → App) → List LudpDataPacket → App → App
  feed callback [] app = app
  feed callback (p ∷ ps) app = feed callback ps (call callback p app)

  pub feed-append :
      (callback : Option (LudpDataPacket → App → App)) (ps qs : List LudpDataPacket) (app : App)
      → feed callback (ps ++ qs) app ≡ feed callback qs (feed callback ps app)
  unfolding feed
  feed-append callback [] qs app = refl
  feed-append callback (p ∷ ps) qs app = feed-append callback ps qs (call callback p app)

  -- From `h` to `h'` the application was given `ps`, in the order of the sequence numbers from
  -- `expected_seq` on.
  pub record Delivers (ps : List LudpDataPacket) (h h' : LudpHost App) : Type 0 where
    pub fed : h'.app ≡ feed h.on_data ps h.app
    pub in_order : Consecutive h.expected_seq ps
    pub next : h'.expected_seq ≡ h.expected_seq + length ps
    pub counted : h'.stats.packets_processed ≡ h.stats.packets_processed + length ps

  -- the fields that no handler of a DATA packet writes
  pub record SameSetup (h h' : LudpHost App) : Type 0 where
    pub window : h'.window_size ≡ h.window_size
    pub interval : h'.credit_interval ≡ h.credit_interval
    pub poll : h'.credit_poll_us ≡ h.credit_poll_us
    pub callback : h'.on_data ≡ h.on_data
    pub running : h'.running ≡ h.running
    pub ids : h'.next_cmd_id ≡ h.next_cmd_id
    pub nacks : h'.stats.nacks_sent ≡ h.stats.nacks_sent

  pub Delivers-trans :
      (ps qs : List LudpDataPacket) (h h' h'' : LudpHost App)
      → h'.on_data ≡ h.on_data
      → Delivers ps h h'
      → Delivers qs h' h''
      → Delivers (ps ++ qs) h h''
  Delivers-trans ps qs h h' h'' same d e = record {
    fed = rw (e.fed, same, d.fed, feed-append h.on_data ps qs h.app);
    in_order = Consecutive-append h.expected_seq ps qs d.in_order (rw d.next at (e.in_order));
    next = omega (arith, length-append ps qs, d.next, e.next);
    counted = omega (arith, length-append ps qs);
  }
