-- ===== src/Examples/Typing.antt =====
-- The interactive shell at a concrete input.
use mini_corundum.Base.{
  ◌≡◌, refl, true, false, none, some, ⊤, List, [], ◌∷◌, ◌++◌, All, arith, Returns,
}
use mini_corundum.Text.{codes, strip}
use mini_corundum.Dpi.Framing.{left_by}
use mini_corundum.Host.State.{LudpDataPacket, LudpHost, new_host}
use mini_corundum.Logger.{Logger, opened}
use mini_corundum.Logger.Session.{reads, polls}
use mini_corundum.Reassembly.Stream.{data_packets}
use mini_corundum.Shell.Lines.{LineFits, shell_log, IsServed, run_interactive-IsServed}
use mini_corundum.Examples.Data.{packet, ack, completion}
use mini_corundum.Shell.{Prompt, run_interactive}
use mini_corundum.Shell.Words.{split, int_any}
use mini_corundum.Shell.Exit.{ends_here, run_interactive_lem}

abbrev plain : LudpHost Logger
plain = new_host 256 8 5000 none opened

abbrev quiet_line : Prompt
quiet_line = record { before = []; text = codes " stats  now "; reads = λ n. [] }

-- a number with a leading zero
abbrev bad_line : Prompt
bad_line = record { before = []; text = codes "read 010"; reads = λ n. [] }

abbrev quit_line : Prompt
quit_line = record { before = []; text = codes "quit"; reads = λ n. [] }

words : split (codes " write 0x10  0b_11 ") ≡ codes "write" ∷ codes "0x10" ∷ codes "0b_11" ∷ []
unfolding split
words = refl

value : int_any (codes "0xFf") ≡ some 255
unfolding int_any strip
value = refl

bad_line-ends : ends_here (split bad_line.text) ≡ true
unfolding split int_any strip
bad_line-ends = refl

run_interactive_lem_example :
    (run_interactive 50 ((quiet_line ∷ []) ++ bad_line ∷ quit_line ∷ []) plain
      ≡ run_interactive 50 ((quiet_line ∷ []) ++ bad_line ∷ []) plain)
    × ((left_by {S = LudpHost Logger} {A = ⊤}
          (run_interactive 50 ((quiet_line ∷ []) ++ bad_line ∷ quit_line ∷ []) plain)).running
        ≡ false)
run_interactive_lem_example =
    run_interactive_lem (quiet_line ∷ []) bad_line (quit_line ∷ []) 50 plain bad_line-ends

-- START is answered, a packet comes in during a read, and a value is written.
abbrev lines : List Prompt
lines =
    record { before = reads (packet 1 11) ∷ []; text = codes "start"; reads = λ n. ack 1 ∷ [] }
    ∷ record {
      before = polls 5000 ∷ [];
      text = codes "read 0x10";
      reads = λ n. packet 0 10 ∷ completion 2 7 ∷ [];
    }
    ∷ record { before = []; text = codes "write 16 0b11"; reads = λ n. [] }
    ∷ record { before = []; text = codes "credit 64"; reads = λ n. [] }
    ∷ quit_line
    ∷ []

lines-LineFits : All (LineFits 4) lines
unfolding split int_any strip data_packets
lines-LineFits = (
  record {
    before_fits = (λ p e. ground arith, tt);
    reads_fit = λ n. (λ p e. ground arith, tt);
    numbers = tt;
  },
  (
    record {
      before_fits = (tt, tt);
      reads_fit = λ n. (λ p e. ground arith, (λ p e. ground arith, tt));
      numbers = ((16, refl, omega arith), tt);
    },
    (
      record {
        before_fits = tt;
        reads_fit = λ n. tt;
        numbers = ((16, refl, omega arith), (3, refl, omega arith));
      },
      (
        record { before_fits = tt; reads_fit = λ n. tt; numbers = (tt, (64, refl, omega arith)) },
        (record { before_fits = tt; reads_fit = λ n. tt; numbers = tt }, tt),
      ),
    ),
  ),
)

run_interactive-IsServed_example :
    Returns
      (λ _ h'. (ps : List LudpDataPacket) × IsServed opened (shell_log lines) ps h')
      (run_interactive 50 lines (new_host 4 1 5000 none opened))
run_interactive-IsServed_example =
    run_interactive-IsServed 4 1 5000 50 opened lines (omega arith) (omega arith) (omega arith)
      lines-LineFits
