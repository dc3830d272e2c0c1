-- ===== src/Shell/Exit.antt =====
-- How the shell ends.
use mini_corundum.Base.{
  ℕ, ◌≡◌, ap, refl, ⊤, ◌⊎◌, inl, inr, Bool, true, false, ◌&&◌, ◌||◌, none, some, List, [], ◌∷◌,
  ◌++◌, map, arith, Outcome, ok, raised, Action, ◌>>=◌, ◌>>◌, pure, raise, value_error,
  if◌then◌else◌, Bool-cases, Option-cases,
}
use mini_corundum.Dpi.Framing.{left_by}
use mini_corundum.Text.{Text, codes, same, same→eq}
use mini_corundum.Host.State.{LudpHost, start, clear_running}
use mini_corundum.Host.Receive.{Received, datagram}
use mini_corundum.Host.Poll.{PollLocals, poll_start}
use mini_corundum.Threads.{run}
use mini_corundum.Threads.Calls.{bind-cong}
use mini_corundum.Logger.Session.{event}
use mini_corundum.Shell.Words.{split, int_any}
use mini_corundum.Shell.{
  Prompt, do_read, do_write, do_credit, command, is_quit, execute, shell, finally_stop,
  run_interactive,
}

-- The text is no number.
abbrev pub no_number : Text → Bool
no_number x = elim (int_any x) [ none ↦ true | some n ↦ false ]

-- `quit` and `exit`, and a number that cannot be read where one is asked for
abbrev pub ends_here : List Text → Bool
ends_here (c ∷ x ∷ []) =
    is_quit c
    || ((same c (codes "read") && no_number x) || (same c (codes "credit") && no_number x))
ends_here (c ∷ x ∷ y ∷ []) = is_quit c || (same c (codes "write") && (no_number x || no_number y))
ends_here (c ∷ args) = is_quit c
ends_here [] = false

no_number-none : (x : Text) → no_number x ≡ true → int_any x ≡ none
no_number-none x e = elim (Option-cases (int_any x)) [
  | inl nothing ↦ nothing
  | inr (n, found) ↦ absurd (ground (arith, found, e))
]

module _ {App : Type 0} where
  -- The shell does not go on.
  abbrev Ends : List Text → (ℕ → List Received) → LudpHost App → Type 0
  Ends words waits h =
      (execute words waits h ≡ ok false h) ⊎ (execute words waits h ≡ raised value_error h)

  quits :
      (c : Text) (args : List Text) (waits : ℕ → List Received) (h : LudpHost App)
      → is_quit c ≡ true
      → execute (c ∷ args) waits h ≡ ok false h
  unfolding execute
  quits c args waits h e = rw e refl

  read_ends :
      (x : Text) (waits : ℕ → List Received) (h : LudpHost App)
      → int_any x ≡ none
      → execute (codes "read" ∷ x ∷ []) waits h ≡ raised value_error h
  unfolding execute command do_read
  read_ends x waits h e = rw e refl

  credit_ends :
      (x : Text) (waits : ℕ → List Received) (h : LudpHost App)
      → int_any x ≡ none
      → execute (codes "credit" ∷ x ∷ []) waits h ≡ raised value_error h
  unfolding execute command do_credit
  credit_ends x waits h e = rw e refl

  write_ends :
      (x y : Text) (waits : ℕ → List Received) (h : LudpHost App)
      → (int_any x ≡ none) ⊎ (int_any y ≡ none)
      → execute (codes "write" ∷ x ∷ y ∷ []) waits h ≡ raised value_error h
  unfolding execute command do_write
  write_ends x y waits h (inl e) = rw e refl
  write_ends x y waits h (inr e) = elim (Option-cases (int_any x)) [
    | inl nothing ↦ rw nothing refl
    | inr (n, found) ↦ rw (found, e) refl
  ]

  one_argument :
      (c x : Text) (waits : ℕ → List Received) (h : LudpHost App)
      → ((same c (codes "read") && no_number x) || (same c (codes "credit") && no_number x)) ≡ true
      → execute (c ∷ x ∷ []) waits h ≡ raised value_error h
  one_argument c x waits h e = elim (Bool-cases (same c (codes "read"))) [
    | inl reads ↦
        let bad = no_number-none x (ground arith) in
        rw (same→eq c (codes "read") reads) (read_ends x waits h bad)
    | inr other ↦
        let credits : same c (codes "credit") ≡ true = ground arith in
        let bad = no_number-none x (ground arith) in
        rw (same→eq c (codes "credit") credits) (credit_ends x waits h bad)
  ]

  two_arguments :
      (c x y : Text) (waits : ℕ → List Received) (h : LudpHost App)
      → (same c (codes "write") && (no_number x || no_number y)) ≡ true
      → execute (c ∷ x ∷ y ∷ []) waits h ≡ raised value_error h
  two_arguments c x y waits h e =
      let writes : same c (codes "write") ≡ true = ground arith in
      let bad : (no_number x || no_number y) ≡ true = ground arith in
      rw (same→eq c (codes "write") writes) (
        write_ends x y waits h (elim (Bool-cases (no_number x)) [
          | inl first ↦ inl (no_number-none x first)
          | inr fine ↦ inr (no_number-none y (ground arith))
        ]))

  execute-Ends :
      (words : List Text) (waits : ℕ → List Received) (h : LudpHost App)
      → ends_here words ≡ true
      → Ends words waits h
  execute-Ends [] waits h e = absurd (ground arith)
  execute-Ends (c ∷ []) waits h e = inl (quits c [] waits h e)
  execute-Ends (c ∷ x ∷ []) waits h e = elim (Bool-cases (is_quit c)) [
    | inl quit ↦ inl (quits c (x ∷ []) waits h quit)
    | inr on ↦ inr (one_argument c x waits h (ground arith))
  ]
  execute-Ends (c ∷ x ∷ y ∷ []) waits h e = elim (Bool-cases (is_quit c)) [
    | inl quit ↦ inl (quits c (x ∷ y ∷ []) waits h quit)
    | inr on ↦ inr (two_arguments c x y waits h (ground arith))
  ]
  execute-Ends (c ∷ x ∷ y ∷ z ∷ more) waits h e = inl (quits c (x ∷ y ∷ z ∷ more) waits h e)

  -- what comes after the words does not matter
  then_nothing :
      (words : List Text) (waits : ℕ → List Received) (m k : Action (LudpHost App) ⊤)
      (h : LudpHost App)
      → ends_here words ≡ true
      → (execute words waits >>= λ again. if again then m else pure tt) h
        ≡ (execute words waits >>= λ again. if again then k else pure tt) h
  then_nothing words waits m k h e = elim (execute-Ends words waits h e) [
    | inl quit ↦ rw (quit, ◌>>=◌) refl
    | inr bad ↦ rw (bad, ◌>>=◌) refl
  ]

  goes_on :
      (again : Bool) (m k : Action (LudpHost App) ⊤) (h : LudpHost App)
      → m h ≡ k h
      → (if again then m else pure tt) h ≡ (if again then k else pure tt) h
  goes_on true m k h e = e
  goes_on false m k h e = refl

  shell-Ends :
      (front : List Prompt) (p : Prompt) (rest : List Prompt) (loc : PollLocals) (h : LudpHost App)
      → ends_here (split p.text) ≡ true
      → shell (front ++ p ∷ rest) loc h ≡ shell (front ++ p ∷ []) loc h
  unfolding shell
  shell-Ends [] p rest loc h e = bind-cong (run (map event p.before) loc h) _ _ (λ loc' s.
      then_nothing (split p.text) (λ n. map datagram (p.reads n)) (shell rest loc') (shell [] loc')
        s e)
  shell-Ends (q ∷ front) p rest loc h e = bind-cong (run (map event q.before) loc h) _ _ (λ loc' s.
      bind-cong (execute (split q.text) (λ n. map datagram (q.reads n)) s) _ _ (λ again s'.
        goes_on again (shell (front ++ p ∷ rest) loc') (shell (front ++ p ∷ []) loc') s'
          (shell-Ends front p rest loc' s' e)))

  -- the flag is cleared, whatever the body did
  stopped_after :
      (r : Outcome (LudpHost App) ⊤)
      → (left_by {S = LudpHost App} {A = ⊤} (elim r as (λ _. Outcome (LudpHost App) ⊤) [
        | ok _ h' ↦ clear_running h'
        | raised x h' ↦ (clear_running >> raise x) h'
      ])).running
        ≡ false
  unfolding clear_running
  stopped_after (ok a s) = refl
  stopped_after (raised x s) = refl

  finally_stop-running :
      (body : Action (LudpHost App) ⊤) (h : LudpHost App)
      → (left_by {S = LudpHost App} {A = ⊤} (finally_stop body h)).running ≡ false
  unfolding finally_stop
  finally_stop-running body h = stopped_after (body h)

  finally_stop-same :
      (body other : Action (LudpHost App) ⊤) (h : LudpHost App)
      → body h ≡ other h
      → finally_stop body h ≡ finally_stop other h
  unfolding finally_stop
  finally_stop-same body other h e =
      ap {B = Outcome (LudpHost App) ⊤}
        (λ r. elim r as (λ _. Outcome (LudpHost App) ⊤) [
          | ok _ h' ↦ clear_running h'
          | raised x h' ↦ (clear_running >> raise x) h'
        ])
        e

  -- In the interactive shell, a line `quit` or `exit`, and equally a `read`, `write` or `credit`
  -- with an argument that is no number, is the last that is carried out, whatever lines follow and
  -- whatever stands before it: the outcome is the same without them. In every case the flag
  -- `running` is cleared.
  pub run_interactive_lem :
      (front : List Prompt) (p : Prompt) (rest : List Prompt) (now : ℕ) (h : LudpHost App)
      → ends_here (split p.text) ≡ true
      → (run_interactive now (front ++ p ∷ rest) h ≡ run_interactive now (front ++ p ∷ []) h)
        × ((left_by {S = LudpHost App} {A = ⊤} (run_interactive now (front ++ p ∷ rest) h)).running
            ≡ false)
  unfolding run_interactive start poll_start
  run_interactive_lem front p rest now h e = (
    finally_stop-same _ _ _ (shell-Ends front p rest _ _ e),
    finally_stop-running (shell (front ++ p ∷ rest) _) _,
  )
