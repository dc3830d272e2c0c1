-- ===== src/Examples/Commanding.antt =====
-- The commands at concrete inputs.
use mini_corundum.Base.{
  true, false, ℕ, ◌+◌, ◌≡◌, ◌==◌, if◌then◌else◌, refl, none, some, List, [], ◌∷◌, map, length,
  arith, raised, struct_error, Returns,
}
use mini_corundum.Dict.{lookup}
use mini_corundum.Struct.RoundTrip.{Carries}
use mini_corundum.Host.Packets.{build_cmd}
use mini_corundum.Host.Receive.{datagram}
use mini_corundum.Host.Commands.{read_data, send_cmd_wait_ack, write_reg, read_reg}
use mini_corundum.Reassembly.Stream.{data_packets}
use mini_corundum.Reply.Answers.{any_answers, last_answer}
use mini_corundum.Reply.Attempt.{cmd_header, IsServing}
use mini_corundum.Reply.Retry.{Sent, room, send_cmd_wait_ack_lem, write_reg-wide}
use mini_corundum.Reply.ReadReg.{ReadsData, read_reg_lem}
use mini_corundum.Reply.Build.{build_cmd-Carries}
use mini_corundum.Examples.Data.{packet, ack, completion, host, host-IsConsistent}

-- No answer in round 0; in round 1 the answer to round 0's command and then the right one.
abbrev rounds : ℕ → List (List ℕ)
rounds n = if n == 1 then packet 0 10 ∷ ack 1 ∷ ack 2 ∷ [] else []

host-IsServing : IsServing (room 3 0 rounds) host
unfolding data_packets
host-IsServing = record {
  consistent = host-IsConsistent;
  running = refl;
  interval = omega arith;
  fits = omega arith;
}

send_cmd_wait_ack_lem_example :
    Returns (Sent 3 0 rounds host) (send_cmd_wait_ack 1 0 0 3 (λ n. map datagram (rounds n)) host)
send_cmd_wait_ack_lem_example =
    send_cmd_wait_ack_lem 1 0 0 3 rounds host (omega arith) (omega arith) (omega arith)
      (omega arith) host-IsServing

abbrev replies : List (List ℕ)
replies = completion 9 7 ∷ completion 1 42 ∷ []

host-IsServing-replies : IsServing (length (data_packets replies)) host
unfolding data_packets
host-IsServing-replies = record {
  consistent = host-IsConsistent;
  running = refl;
  interval = omega arith;
  fits = omega arith;
}

read_reg_lem_example :
    Returns
      (λ value h'.
        (any_answers host.next_cmd_id replies ≡ false → value ≡ none)
        × (any_answers host.next_cmd_id replies ≡ true
            → ReadsData (last_answer host.next_cmd_id replies none) value)
        × (lookup host.next_cmd_id h'.pending_cmds ≡ none))
      (read_reg 16 (map datagram replies) host)
read_reg_lem_example =
    read_reg_lem 16 replies host (omega arith) (omega arith) host-IsServing-replies

-- the value that it gives
replies_value : read_data (last_answer 1 replies none) ≡ some 42
replies_value = refl

write_reg-wide_example :
    write_reg 16 70000 (λ n. []) host
    ≡ raised struct_error (record host { next_cmd_id = host.next_cmd_id + 1 })
write_reg-wide_example = write_reg-wide 16 70000 (λ n. []) host (omega arith)

build_cmd-Carries_example :
    Returns
      (λ pkt h'.
        Carries (cmd_header 1 2 3 0 host.next_cmd_id) pkt
        × (h' ≡ record host { next_cmd_id = host.next_cmd_id + 1 }))
      (build_cmd 1 2 3 0 none host)
build_cmd-Carries_example = build_cmd-Carries 1 2 3 0 host (omega arith)
