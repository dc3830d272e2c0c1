-- ===== src/Shell.antt =====
-- `run_interactive` of sw/ludp_host.py: the command shell. What is typed is given line by line, with
-- the work of the threads before each line and what comes in during its command; where the lines
-- end, the user interrupts the shell.
pub mod Words
pub mod Exit
pub mod Serve
pub mod Lines
use mini_corundum.Base.{
  ℕ, ⊤, Bool, true, false, ◌&&◌, ◌||◌, Option, none, some, List, [], ◌∷◌, map, Outcome, ok, raised,
  Action, ◌>>=◌, ◌>>◌, pure, get, raise, or_raise, value_error, if◌then◌else◌, length, ◌==◌,
}
use mini_corundum.Text.{Text, codes, same}
use mini_corundum.Host.State.{LudpHost, start, clear_running, get_stats}
use mini_corundum.Host.Packets.{send_credit}
use mini_corundum.Host.Receive.{Received, datagram}
use mini_corundum.Host.Poll.{PollLocals, poll_start}
use mini_corundum.Host.Commands.{send_start, send_stop, read_reg, write_reg}
use mini_corundum.Threads.{run}
use mini_corundum.Logger.Session.{Work, event}
use mini_corundum.Shell.Words.{split, int_any}

-- a line that is typed
pub record Prompt : Type 0 where
  pub before : List Work
  pub text : Text
  pub reads : ℕ → List (List ℕ)

abbrev pub is_quit : Text → Bool
is_quit c = same c (codes "quit") || same c (codes "exit")

module _ {App : Type 0} where
  -- `start`, with the first credit if it is answered
  unfoldable pub do_start : (ℕ → List Received) → Action (LudpHost App) ⊤
  do_start waits = do
    started ← send_start waits
    if started then (do h ← get; send_credit h.abs_credit) else pure tt

  unfoldable pub do_read : Text → (ℕ → List Received) → Action (LudpHost App) ⊤
  do_read x waits = do
    addr ← or_raise (int_any x) value_error
    val ← read_reg addr (waits 0)
    pure tt

  unfoldable pub do_write : Text → Text → (ℕ → List Received) → Action (LudpHost App) ⊤
  do_write x y waits = do
    addr ← or_raise (int_any x) value_error
    content ← or_raise (int_any y) value_error
    written ← write_reg addr content waits
    pure tt

  unfoldable pub do_credit : Text → Action (LudpHost App) ⊤
  do_credit x = do n ← or_raise (int_any x) value_error; send_credit n

  -- a command with its arguments, but for `quit` and `exit`
  unfoldable pub command : Text → List Text → (ℕ → List Received) → Action (LudpHost App) ⊤
  command c [] waits =
      if same c (codes "start")
      then do_start waits
      else if same c (codes "stop")
      then (send_stop waits >> pure tt)
      else if same c (codes "stats")
      then (get_stats >> pure tt)
      else pure tt
  command c (x ∷ []) waits =
      if same c (codes "start")
      then do_start waits
      else if same c (codes "stop")
      then (send_stop waits >> pure tt)
      else if same c (codes "read")
      then do_read x waits
      else if same c (codes "credit")
      then do_credit x
      else if same c (codes "stats")
      then (get_stats >> pure tt)
      else pure tt
  command c (x ∷ y ∷ []) waits =
      if same c (codes "start")
      then do_start waits
      else if same c (codes "stop")
      then (send_stop waits >> pure tt)
      else if same c (codes "write")
      then do_write x y waits
      else if same c (codes "stats")
      then (get_stats >> pure tt)
      else pure tt
  command c (x ∷ y ∷ z ∷ more) waits =
      if same c (codes "start")
      then do_start waits
      else if same c (codes "stop")
      then (send_stop waits >> pure tt)
      else if same c (codes "stats")
      then (get_stats >> pure tt)
      else pure tt

  -- whether the shell goes on
  unfoldable pub execute : List Text → (ℕ → List Received) → Action (LudpHost App) Bool
  execute [] waits = pure true
  execute (c ∷ args) waits = if is_quit c then pure false else (command c args waits >> pure true)

  -- the loop
  unfoldable pub shell : List Prompt → PollLocals → Action (LudpHost App) ⊤
  shell [] loc = pure tt
  shell (p ∷ prompts) loc = do
    loc' ← run (map event p.before) loc
    again ← execute (split p.text) (λ n. map datagram (p.reads n))
    if again then shell prompts loc' else pure tt

  -- `try: ... finally: host.stop()`, of which the flag is kept
  unfoldable pub finally_stop : Action (LudpHost App) ⊤ → Action (LudpHost App) ⊤
  finally_stop body h = elim (body h) [
    | ok _ h' ↦ clear_running h'
    | raised e h' ↦ (clear_running >> raise e) h'
  ]

  unfoldable pub run_interactive : ℕ → List Prompt → Action (LudpHost App) ⊤
  run_interactive now prompts = do start now; loc ← poll_start now; finally_stop (shell prompts loc)
