-- ===== src/Examples/Framing.antt =====
-- The frames, the checksum and the packet file at concrete inputs.
use mini_corundum.Base.{◌<◌, ℕ, ◌/◌, ◌%◌, ◌≡◌, some, List, [], ◌∷◌, ◌++◌, arith, map}
use mini_corundum.Frames.Checksum.{calculate_checksum}
use mini_corundum.Frames.Verify.{IsAccepted, calculate_checksum-verifies}
use mini_corundum.Frames.Generate.{generate_ludp_credit}
use mini_corundum.Frames.Layout.{UdpFrame, generate_ludp_credit-Carries}
use mini_corundum.Struct.RoundTrip.{Carries}
use mini_corundum.Reassembly.Credit.{credit_header}
use mini_corundum.Fifo.{write_packets_to_file}
use mini_corundum.Fifo.Generate.{ludp_full, main}
use mini_corundum.Fifo.Main.{frames, main-dpi_fifo_poll}
use mini_corundum.Fifo.Reader.{dpi_fifo_poll}
use mini_corundum.Fifo.RoundTrip.{dpi_fifo_poll-write}

abbrev before_field : List ℕ
before_field = 0x45 ∷ 0x00 ∷ []

abbrev after_field : List ℕ
after_field = 0xC0 ∷ 0xA8 ∷ 0x01 ∷ []

calculate_checksum-verifies_example :
    let ck = calculate_checksum (before_field ++ 0 ∷ 0 ∷ after_field) in
    let message = before_field ++ (ck / 256) ∷ (ck % 256) ∷ after_field in
    (ck < 65536) × IsAccepted message × (calculate_checksum message ≡ 0)
calculate_checksum-verifies_example = calculate_checksum-verifies before_field after_field tt

generate_ludp_credit-Carries_example :
    (frame : List ℕ) × (pkt : List ℕ) × (generate_ludp_credit 64 ≡ some frame)
    × UdpFrame 2 pkt frame
    × Carries (credit_header 64) pkt
generate_ludp_credit-Carries_example = generate_ludp_credit-Carries 64 (omega arith)

abbrev two_packets : List (List ℕ)
two_packets = (1 ∷ 2 ∷ 3 ∷ []) ∷ (4 ∷ []) ∷ []

dpi_fifo_poll-write_example :
    (bytes : List ℕ) × (write_packets_to_file two_packets ≡ some bytes)
    × (dpi_fifo_poll bytes ≡ two_packets)
dpi_fifo_poll-write_example = dpi_fifo_poll-write two_packets (omega arith) (omega arith)

main-dpi_fifo_poll_example :
    (packets : List (List ℕ)) × (bytes : List ℕ) × (main ludp_full 64 ≡ some bytes)
    × (dpi_fifo_poll bytes ≡ packets)
    × (map some packets ≡ frames ludp_full 64)
main-dpi_fifo_poll_example = main-dpi_fifo_poll ludp_full 64 (omega arith)
