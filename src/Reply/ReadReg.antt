-- ===== src/Reply/ReadReg.antt =====
-- The register read: its value is taken from the answer that came last.
use mini_corundum.Base.{
  zero, suc, ◌*◌, ◌≤◌, some, [], ◌∷◌, ◌++◌, true, false, ltb, drop, Option, length-append, ℕ, ◌+◌,
  ◌<◌, ◌≡◌, refl, none, List, map, length, arith, ◌>>=◌, Returns, returns, Returns-bind,
}
use mini_corundum.Dict.{lookup, lookup-insert, lookup-erase}
use mini_corundum.Struct.RoundTrip.{wire}
use mini_corundum.Host.State.{LudpHost}
use mini_corundum.Host.Packets.{cmd_read_reg, take_cmd_id, sendto}
use mini_corundum.Host.Receive.{datagram}
use mini_corundum.Host.Commands.{issue, wait, forget, read_reg, read_data, response_of}
use mini_corundum.Reassembly.Stream.{data_packets}
use mini_corundum.Reply.Answers.{any_answers, last_answer}
use mini_corundum.Reply.Attempt.{
  cmd_header, unanswered, IsServing, issued, issued-IsServing, build_cmd_lem, Waited, wait_lem,
}

-- What stands in the data field of an answer: no value where the answer has fewer than 16 bytes,
-- else the bytes behind the first ten, the lowest first.
pub record HasData (resp : List ℕ) (value : Option ℕ) : Type 0 where
  pub short : length resp < 16 → value ≡ none
  pub long :
      (pre post : List ℕ) (a b c d : ℕ)
      → resp ≡ pre ++ a ∷ b ∷ c ∷ d ∷ post
      → length pre ≡ 10
      → 2 ≤ length post
      → value ≡ some (a + 256 * b + 65536 * c + 16777216 * d)

-- with no answer there is no value
abbrev pub ReadsData : Option (List ℕ) → Option ℕ → Type 0
ReadsData none value = value ≡ none
ReadsData (some resp) value = HasData resp value

drop-append : (n : ℕ) (xs ys : List ℕ) → length xs ≡ n → drop n (xs ++ ys) ≡ ys
drop-append zero [] ys e = refl
drop-append zero (x ∷ xs) ys e = absurd (omega arith)
drop-append (suc n) [] ys e = absurd (omega arith)
drop-append (suc n) (x ∷ xs) ys e = drop-append n xs ys (omega arith)

read_data-HasData : (resp : List ℕ) → HasData resp (read_data (some resp))
read_data-HasData resp = record {
  short = λ few. ground (arith, few);
  long = λ pre post a b c d e ten two.
      let enough : ltb (length resp) 16 ≡ false =
        rw (e, length-append pre (a ∷ b ∷ c ∷ d ∷ post)) (ground (arith, ten, two)) in
      rw enough (rw (e, drop-append 10 pre (a ∷ b ∷ c ∷ d ∷ post) ten) refl);
}

read_data-ReadsData : (last : Option (List ℕ)) → ReadsData last (read_data last)
read_data-ReadsData none = refl
read_data-ReadsData (some resp) = read_data-HasData resp

module _ {App : Type 0} where
  -- With an address and a command number below 2^32, and room for the packets that can come in, a
  -- register read raises nothing. With no answer to its own command it gives nothing. Otherwise,
  -- if the last answer has at least 16 bytes, it gives the value of its bytes 10 to 13, counted
  -- from 0, the lowest first, and if it is shorter, nothing. Its command is not pending
  -- afterwards.
  pub read_reg_lem :
      (addr : ℕ) (ds : List (List ℕ)) (h : LudpHost App)
      → addr < 4294967296
      → h.next_cmd_id < 4294967296
      → IsServing (length (data_packets ds)) h
      → Returns
          (λ value h'.
            (any_answers h.next_cmd_id ds ≡ false → value ≡ none)
            × (any_answers h.next_cmd_id ds ≡ true
                → ReadsData (last_answer h.next_cmd_id ds none) value)
            × (lookup h.next_cmd_id h'.pending_cmds ≡ none))
          (read_reg addr (map datagram ds) h)
  unfolding read_reg take_cmd_id issue sendto forget
  read_reg_lem addr ds h a n s =
      let pkt = wire (cmd_header cmd_read_reg addr 0 0x01 h.next_cmd_id) in
      rw
        (
          build_cmd_lem cmd_read_reg addr 0 0x01 h.next_cmd_id
              (record h { next_cmd_id = h.next_cmd_id + 1 }) (omega arith),
          ◌>>=◌,
        )
        (Returns-bind {P = Waited h.next_cmd_id ds (issued h.next_cmd_id pkt h)}
          (wait h.next_cmd_id (map datagram ds)) _
          (wait_lem h.next_cmd_id ds (issued h.next_cmd_id pkt h)
            (issued-IsServing h.next_cmd_id (length (data_packets ds)) pkt h s)
            (ground (arith, lookup-insert h.next_cmd_id h.next_cmd_id unanswered h.pending_cmds)))
          λ success h' (found, kept, _). returns (
            λ silent. rw (found, silent) refl,
            λ answered.
                rw (found, kept, answered, response_of)
                  (read_data-ReadsData (last_answer h.next_cmd_id ds none)),
            ground (arith, lookup-erase h.next_cmd_id h.next_cmd_id h'.pending_cmds),
          ))
