-- ===== src/Examples/Logging.antt =====
-- A session of the data logger, and a command as events, at concrete inputs.
use mini_corundum.Host.Poll.{
  poll_start, check_gap, check_stall, check_stored, keep_alive, note_data, poll_round, skip_gap,
  skip_to_head,
}
use mini_corundum.Dict.{erase, insert}
use mini_corundum.Host.Packets.{build_cmd, build_credit, send_credit, sendto, take_cmd_id}
use mini_corundum.Struct.{pack_B, pack_H, pack_I, pack_header}
use mini_corundum.Base.{
  ℕ, ◌≡◌, refl, arith, List, [], ◌∷◌, map, Returns, ok, raised, Outcome, ◌==◌, if◌then◌else◌,
}
use mini_corundum.Host.State.{
  LudpDataPacket, LudpHost, start, clear_running, new_host, reset_state, get_stats,
}
use mini_corundum.Logger.{Logger, flush, join, on_data}
use mini_corundum.Host.Receive.{
  datagram, recv_datagram, dispatch, handle_data, parse_data, count_received, track_highest, accept,
  accept_in_order, deliver_next, deliver, drain, drain_from, advance_credit, answer, credit_if_due,
  drop_stale, handle_cmd_ack, handle_cmd_cpl, heappush, recv_loop, store_future,
}
use mini_corundum.Host.Commands.{
  send_cmd_wait_ack, attempt_cmd, forget, in_thread, issue, send_cmd_from, send_start, send_stop,
  wait,
}
use mini_corundum.Reassembly.Stream.{data_packets}
use mini_corundum.Reply.Attempt.{IsServing}
use mini_corundum.Reply.Retry.{any_round, tries, room}
use mini_corundum.Threads.{run, step}
use mini_corundum.Threads.Rounds.{cmd_events, send_cmd_wait_ack-run}
use mini_corundum.Host.Poll.{PollLocals}
use mini_corundum.Logger.Session.{
  Surroundings, reads, polls, run_logger, logger_host, acquire, close, give_up,
}
use mini_corundum.Logger.Recorded.{IsSized, IsRecorded, until_reset, run_logger-IsRecorded}
use mini_corundum.Examples.Data.{packet, ack, host, host-IsConsistent, idle_locals}

-- A packet of an earlier run comes in before the reset; START and STOP are answered at once.
abbrev around : Surroundings
around = record {
  before = reads (packet 0 99) ∷ polls 100 ∷ [];
  starting = λ n. ack 1 ∷ [];
  acquiring = reads (packet 1 11) ∷ polls 5000 ∷ reads (packet 0 10) ∷ [];
  stopping = λ n. packet 2 12 ∷ ack 2 ∷ [];
  late = reads (packet 3 13) ∷ [];
}

-- the file in the end, behind the exit status
abbrev file_of : Outcome (LudpHost Logger) ℕ → List ℕ
file_of (ok status h) = status ∷ h.app.output
file_of (raised e h) = []

-- The byte 99 of the earlier run stands in front of those of this one.
stale_packet : file_of (run_logger around 50 (logger_host 4 1)) ≡ 0 ∷ 99 ∷ 10 ∷ 11 ∷ 12 ∷ 13 ∷ []
unfolding start clear_running new_host reset_state get_stats poll_start check_gap check_stall
    check_stored keep_alive note_data poll_round skip_gap skip_to_head run step recv_datagram
    dispatch handle_data parse_data count_received track_highest accept accept_in_order deliver_next
    deliver drain drain_from advance_credit answer credit_if_due drop_stale handle_cmd_ack
    handle_cmd_cpl heappush recv_loop store_future erase insert attempt_cmd forget in_thread issue
    send_cmd_from send_cmd_wait_ack send_start send_stop wait build_cmd build_credit send_credit
    sendto take_cmd_id acquire close give_up run_logger flush join on_data pack_B pack_H pack_I
    pack_header
stale_packet = refl

around-IsSized : IsSized around 4
unfolding data_packets
around-IsSized = record {
  before = (λ p e. ground arith, (tt, tt));
  starting = λ n. (λ p e. ground arith, tt);
  acquiring = (λ p e. ground arith, (tt, (λ p e. ground arith, tt)));
  stopping = λ n. (λ p e. ground arith, (λ p e. ground arith, tt));
  late = (λ p e. ground arith, tt);
  window_fits = omega arith;
  start_room = omega arith;
  before_ids = omega arith;
  ids = omega arith;
}

run_logger-IsRecorded_example :
    Returns
      (λ status h'.
        (old : List LudpDataPacket) × (ps : List LudpDataPacket) × (loc : PollLocals)
        × (h1 : LudpHost Logger) × (until_reset around 50 (logger_host 4 1) ≡ ok loc h1)
        × IsRecorded around status old ps h1 h')
      (run_logger around 50 (logger_host 4 1))
run_logger-IsRecorded_example = run_logger-IsRecorded around 4 1 50 (omega arith) around-IsSized

-- no answer in round 0, and one in round 1 behind a packet
abbrev answers : ℕ → List (List ℕ)
answers n = if n == 0 then packet 1 11 ∷ [] else packet 0 10 ∷ ack 2 ∷ []

host-IsServing : IsServing (room 3 0 answers) host
unfolding data_packets
host-IsServing = record {
  consistent = host-IsConsistent;
  running = refl;
  interval = omega arith;
  fits = omega arith;
}

send_cmd_wait_ack-run_example :
    Returns
      (λ success h'.
        (success ≡ any_round 3 0 1 answers)
        × (run (cmd_events (tries 3 0 1 answers) 0 1 0 0 1 answers) idle_locals host
            ≡ ok idle_locals h'))
      (send_cmd_wait_ack 1 0 0 3 (λ n. map datagram (answers n)) host)
send_cmd_wait_ack-run_example =
    send_cmd_wait_ack-run 1 0 0 3 answers idle_locals host (omega arith) (omega arith) (omega arith)
      (omega arith) host-IsServing
