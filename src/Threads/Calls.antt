-- ===== src/Threads/Calls.antt =====
-- A run in parts, and what the receive thread reads as a part of a run.
use mini_corundum.Base.{
  ℕ, ◌≡◌, ◌∙◌, ap, sym, inl, inr, refl, Bool, true, false, List, [], ◌∷◌, ◌++◌, map, Outcome, ok,
  raised, Action, ◌>>=◌, pure, if◌then◌else◌, Bool-cases,
}
use mini_corundum.Host.State.{LudpHost}
use mini_corundum.Host.Receive.{Received, datagram, os_error, recv_datagram, recv_loop}
use mini_corundum.Host.Poll.{PollLocals}
use mini_corundum.Reassembly.Stream.{recv_loop-next}
use mini_corundum.Threads.{Event, received, step, run}

-- two continuations that agree
pub bind-cong :
    {S A B : Type 0} (r : Outcome S A) (f g : A → Action S B)
    → ((a : A) (s : S) → f a s ≡ g a s)
    → ◌≡◌ {A = Outcome S B}
        (elim r [ ok a s ↦ f a s | raised e s ↦ raised e s ])
        (elim r [ ok a s ↦ g a s | raised e s ↦ raised e s ])
bind-cong (ok a s) f g same = same a s
bind-cong (raised e s) f g same = refl

then_assoc :
    {S A B C : Type 0} (r : Outcome S A) (f : A → Action S B) (g : B → Action S C)
    → ◌≡◌ {A = Outcome S C}
        (elim (elim r as (λ _. Outcome S B) [ ok a s ↦ f a s | raised e s ↦ raised e s ]) [
          | ok b s ↦ g b s
          | raised e s ↦ raised e s
        ])
        (elim r [ ok a s ↦ (f a >>= g) s | raised e s ↦ raised e s ])
then_assoc (ok a s) f g = refl
then_assoc (raised e s) f g = refl

bind_assoc :
    {S A B C : Type 0} (m : Action S A) (f : A → Action S B) (g : B → Action S C) (s : S)
    → ((m >>= f) >>= g) s ≡ (m >>= λ a. f a >>= g) s
bind_assoc m f g s = then_assoc (m s) f g

taken :
    {S A : Type 0} (b : Bool) (m k : Action S A) (s : S) → b ≡ true → (if b then m else k) s ≡ m s
taken true m k s e = refl
taken false m k s e = cc

left :
    {S A : Type 0} (b : Bool) (m k : Action S A) (s : S) → b ≡ false → (if b then m else k) s ≡ k s
left true m k s e = cc
left false m k s e = refl

module _ {App : Type 0} where
  step-on :
      (bytes : List ℕ) (loc : PollLocals) (h : LudpHost App)
      → h.running ≡ true
      → step (received bytes) loc h ≡ (recv_datagram bytes >>= λ _. pure loc) h
  unfolding step
  step-on bytes loc h e = taken h.running _ _ h e

  step-off :
      (bytes : List ℕ) (loc : PollLocals) (h : LudpHost App)
      → h.running ≡ false
      → step (received bytes) loc h ≡ ok loc h
  unfolding step
  step-off bytes loc h e = left h.running _ _ h e

  -- With the receive thread off, what comes in does nothing.
  run-off :
      (ds : List (List ℕ)) (loc : PollLocals) (h : LudpHost App)
      → h.running ≡ false
      → run (map received ds) loc h ≡ ok loc h
  unfolding run
  run-off [] loc h off = refl
  run-off (bytes ∷ ds) loc h off = rw (step-off bytes loc h off, ◌>>=◌) (run-off ds loc h off)

  recv_loop-off :
      (rs : List Received) (h : LudpHost App) → h.running ≡ false → recv_loop rs h ≡ ok tt h
  unfolding recv_loop
  recv_loop-off [] h off = refl
  recv_loop-off (os_error ∷ rs) h off = refl
  recv_loop-off (datagram bytes ∷ rs) h off = simp off

  nothing_read :
      (loc : PollLocals) (h : LudpHost App) → ok loc h ≡ (recv_loop [] >>= λ _. pure loc) h
  unfolding recv_loop
  nothing_read loc h = refl

  -- what comes after a step
  abbrev pub then_do :
      {A B : Type 0}
      → (A → Action (LudpHost App) B)
      → Outcome (LudpHost App) A
      → Outcome (LudpHost App) B
  then_do f (ok a s) = f a s
  then_do f (raised e s) = raised e s

  -- what the receive thread reads, as events
  pub run-received :
      (ds : List (List ℕ)) (loc : PollLocals) (h : LudpHost App)
      → run (map received ds) loc h ≡ (recv_loop (map datagram ds) >>= λ _. pure loc) h
  unfolding run
  run-received [] loc h = nothing_read loc h
  run-received (bytes ∷ ds) loc h = elim (Bool-cases h.running) [
    | inl on ↦
        ap (then_do (λ l. run (map received ds) l)) (step-on bytes loc h on)
        ∙ bind_assoc (recv_datagram bytes) (λ _. pure loc) (λ l. run (map received ds) l) h
        ∙ bind-cong (recv_datagram bytes h) (λ _. run (map received ds) loc)
            (λ _. recv_loop (map datagram ds) >>= λ _. pure loc) (λ _ s. run-received ds loc s)
        ∙ sym
            (bind_assoc (recv_datagram bytes) (λ _. recv_loop (map datagram ds)) (λ _. pure loc) h)
        ∙ ap (then_do (λ _. pure loc)) (sym (recv_loop-next bytes (map datagram ds) h on))
    | inr off ↦
        ap (then_do (λ l. run (map received ds) l)) (step-off bytes loc h off)
        ∙ run-off ds loc h off
        ∙ ap (then_do (λ _. pure loc)) (sym (recv_loop-off (map datagram (bytes ∷ ds)) h off))
  ]

  pub run-append :
      (xs ys : List Event) (loc : PollLocals) (h : LudpHost App)
      → run (xs ++ ys) loc h ≡ (run xs loc >>= λ l. run ys l) h
  unfolding run
  run-append [] ys loc h = refl
  run-append (e ∷ xs) ys loc h =
      bind-cong (step e loc h) (λ l. run (xs ++ ys) l) (λ l. run xs l >>= λ l'. run ys l')
        (λ l s. run-append xs ys l s)
      ∙ sym (bind_assoc (step e loc) (λ l. run xs l) (λ l. run ys l) h)

  pub run-then :
      (xs ys : List Event) (loc : PollLocals) (h h' h'' : LudpHost App)
      → run xs loc h ≡ ok loc h'
      → run ys loc h' ≡ ok loc h''
      → run (xs ++ ys) loc h ≡ ok loc h''
  run-then xs ys loc h h' h'' first second =
      run-append xs ys loc h ∙ ap (then_do (λ l. run ys l)) first ∙ second
