-- ===== src/Reply/Answers.antt =====
-- Which datagrams answer a command, and what is kept of an answer.
use mini_corundum.Base.{
  ℕ, ◌≡◌, ◌∙◌, refl, Bool, true, false, Option, none, some, List, [], ◌∷◌, ◌||◌, ◌==◌,
  if◌then◌else◌, arith, Option-cases, inl, inr,
}
use mini_corundum.Dict.{Dict, lookup, lookup-insert}
use mini_corundum.Host.State.{PendingCmd}
use mini_corundum.Reassembly.Wire.{answer_id, answered, answer_all}

abbrev pub answers : ℕ → List ℕ → Bool
answers cmd_id bytes = elim (answer_id bytes) [ none ↦ false | some i ↦ i == cmd_id ]

-- one of the datagrams is a CMD_ACK or a CMD_CPL of the command
abbrev pub any_answers : ℕ → List (List ℕ) → Bool
any_answers cmd_id [] = false
any_answers cmd_id (bytes ∷ ds) = answers cmd_id bytes || any_answers cmd_id ds

-- the last of the answers to the command, or what was there before
abbrev pub last_answer : ℕ → List (List ℕ) → Option (List ℕ) → Option (List ℕ)
last_answer cmd_id [] old = old
last_answer cmd_id (bytes ∷ ds) old =
    last_answer cmd_id ds (if answers cmd_id bytes then some bytes else old)

lookup-answered :
    (cmd_id : ℕ) (bytes : List ℕ) (d : Dict PendingCmd) (c : PendingCmd)
    → lookup cmd_id d ≡ some c
    → lookup cmd_id (answered (answer_id bytes) bytes d)
      ≡ some (if answers cmd_id bytes then record { event = true; response = some bytes } else c)
lookup-answered cmd_id bytes d c e = elim (Option-cases (answer_id bytes)) [
  | inl not_one ↦ ground arith
  | inr (i, one) ↦
      ground (arith, lookup-insert cmd_id i (record { event = true; response = some bytes }) d)
]

-- A pending command's event is set just if an answer to it came, and it keeps the last answer.
pub lookup-answer_all :
    (cmd_id : ℕ) (ds : List (List ℕ)) (d : Dict PendingCmd) (c : PendingCmd)
    → lookup cmd_id d ≡ some c
    → lookup cmd_id (answer_all ds d)
      ≡ some (record {
        event = any_answers cmd_id ds || c.event;
        response = last_answer cmd_id ds c.response;
      })
unfolding answer_all
lookup-answer_all cmd_id [] d c e = e
lookup-answer_all cmd_id (bytes ∷ ds) d c e =
    lookup-answer_all cmd_id ds (answered (answer_id bytes) bytes d) now
      (lookup-answered cmd_id bytes d c e)
    ∙ merged (answers cmd_id bytes)
  where
    got : PendingCmd
    got = record { event = true; response = some bytes }

    now : PendingCmd
    now = if answers cmd_id bytes then got else c

    merged :
        (b : Bool)
        → ◌≡◌ {A = Option PendingCmd}
            (some (record {
              event = any_answers cmd_id ds || (if b then got else c).event;
              response = last_answer cmd_id ds (if b then got else c).response;
            }))
            (some (record {
              event = (b || any_answers cmd_id ds) || c.event;
              response = last_answer cmd_id ds (if b then some bytes else c.response);
            }))
    merged true = ground arith
    merged false = refl
