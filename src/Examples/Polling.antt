-- ===== src/Examples/Polling.antt =====
-- The polling thread at concrete inputs.
use mini_corundum.Base.{◌≡◌, refl, [], arith, raised, struct_error, Returns}
use mini_corundum.Host.State.{LudpHost}
use mini_corundum.Host.Receive.{advance_credit, recv_datagram}
use mini_corundum.Host.Poll.{skip_gap, poll_round}
use mini_corundum.Flow.Skip.{Skipped, skip_gap_lem}
use mini_corundum.Flow.Round.{Polled}
use mini_corundum.Flow.Credit.{poll_round_lem}
use mini_corundum.Flow.KeepAlive.{poll_round-silent}
use mini_corundum.Flow.Limits.{wrapped_stalls, advance_credit-overflow}
use mini_corundum.Logger.{Logger}
use mini_corundum.Examples.Data.{
  packet, parsed, host, stalled, stalled-IsConsistent, stalled-FitsCredit, idle_locals,
  stalled_locals,
}

-- 19 ms after the gap was seen
poll_round_lem_example :
    Returns
      (λ _ h'. Polled 20000 stalled_locals stalled h')
      (poll_round 20000 stalled_locals stalled)
poll_round_lem_example =
    poll_round_lem 20000 stalled_locals stalled stalled-IsConsistent stalled-FitsCredit

skip_gap_lem_example : Returns (Skipped stalled_locals stalled) (skip_gap stalled_locals stalled)
skip_gap_lem_example =
    skip_gap_lem 2 [] stalled_locals stalled stalled-IsConsistent stalled-FitsCredit refl

poll_round-silent_example : Returns (λ _ h'. h' ≡ stalled) (poll_round 99000000 idle_locals stalled)
poll_round-silent_example = poll_round-silent 99000000 idle_locals stalled (omega arith) refl refl

-- packet 2^32 - 1 has been handed over
abbrev wrapped : LudpHost Logger
wrapped = record host { expected_seq = 4294967296; abs_credit = 4294967295 }

wrapped_stalls_example :
    Returns
      (λ _ h'.
        (h'.app ≡ wrapped.app)
        × (h'.expected_seq ≡ wrapped.expected_seq)
        × (h'.out_of_order ≡ wrapped.out_of_order)
        × (h'.sent ≡ wrapped.sent))
      (recv_datagram (packet 0 10) wrapped)
wrapped_stalls_example =
    wrapped_stalls (packet 0 10) (parsed 0 10) wrapped (omega arith) refl (omega arith)

advance_credit-overflow_example : advance_credit wrapped ≡ raised struct_error wrapped
advance_credit-overflow_example = advance_credit-overflow wrapped (omega arith) (omega arith)
