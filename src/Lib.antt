-- ===== src/Lib.antt =====
-- The host software of the LUDP data path: an FPGA streams numbered DATA packets over UDP, and
-- the host puts them in order, hands them to an application, grants the FPGA credit, and sends
-- it commands.
--
-- The parts of the program:
-- * sw/ludp_host.py has the class LudpHost. Its receive thread (`_recv_loop`) reads datagrams:
--   `_handle_data` hands over the packet that is expected, stores later ones in a dict with a
--   heap of their numbers, and sends credit; `_handle_cmd_ack` and `_handle_cmd_cpl` give an
--   answer to the command that waits for it. Its polling thread (`_poll_loop`) sends credit,
--   skips a gap that has stalled for 5 ms, and repeats the last credit. The caller's thread
--   sends commands and waits for their answers. `run_logger` is an application, which writes the
--   payloads to a file, and `run_interactive` a shell for the commands.
-- * sw/ludp_host_dpi.py makes raw frames (ARP, ping, LUDP commands in UDP) for the
--   co-simulation, and its LudpHostDPI sends packets to it over a socket.
-- * sw/ludp_host_fifo.py makes the same frames and writes them to a file that tb/dpi_fifo.c
--   reads.
-- * tb/coverage_report.py reads the coverage database of a simulation and prints what is
--   covered.
--
-- The files:
-- * Base has the library's names, the tests on numbers (Base/Tests), lists (Base/Lists), and the
--   monad of the methods (Base/Run): an action takes the state to a result or to an exception,
--   each with the state that it leaves. Dict is a dict keyed by numbers.
-- * Struct has `struct.pack` and `struct.unpack` for the formats that the code uses, with `none`
--   for `struct.error`; Struct/RoundTrip, that a reader finds what was packed.
-- * Host is the class LudpHost method by method: State (the fields, `__init__`, `start`, the
--   flag that `stop` clears, `reset_state`, `get_stats`), Packets (the constants, `_build_cmd`,
--   `_build_credit`, `_build_nack`, `send_credit`), Receive (the receive thread), Poll (the
--   polling thread), Commands (`_send_cmd_wait_ack`, `read_reg` and those that call them).
-- * Reassembly is about the receive thread: Heap (the heap), Trace (what is handed over), Drain
--   (the loop over stored packets), Wire (what a datagram is), Credit, Accept (one packet, and
--   the invariant IsConsistent), Stream (a run), Complete (a run from a fresh host).
-- * Flow is about the polling thread: Skip (the skip of a gap), Round and Credit (one round),
--   KeepAlive (the resend), Limits (the ends of the 32-bit fields).
-- * Reply is about the commands: Answers, Attempt, Retry, ReadReg, and Build (the packets).
-- * Threads puts the threads and the application's calls together as events: Room (room below
--   2^32), Ran (what a run hands over), Moves and Steps (one event), Safety (any list of
--   events), Calls and Rounds (a command with its retries as events), Serving (what it hands
--   over), Ready (when the threads can go on).
-- * Race takes both threads apart into single steps: Machine (points of the code and steps),
--   Loops (what both threads go through: `_deliver`, the two loops over the heap, a credit
--   update), Receiver (`_handle_data` behind the parsing), Poller (a round of `_poll_loop`),
--   System (both threads in turns). Race/Alone, a thread that no other disturbs; Race/Copies,
--   KeptSections, KeptThreads and Conserved, how often a packet is handed over; Race/Order, the
--   order in which packets are; Race/Ghost, the receive thread beside a host of its own, and
--   what can end it; Race/Counters, the counters; Chances and Whole, runs of whole handlers as
--   turns; Skipping and Overtaken, a packet that comes in while its gap is skipped.
-- * Logger is the callback of `run_logger` and its last flush; Logger/Output, what the file
--   holds; Logger/Session, the calls of `run_logger` with what the threads do between them;
--   Alive, Phases, Fresh and Recorded, what the file holds after a session.
-- * Frames has the frame generators (Checksum, Generate) and what the frames hold (Verify,
--   Layout, Padding, Sizes).
-- * Fifo writes the packet file, Fifo/Reader reads it, and Fifo/RoundTrip puts the two together;
--   Fifo/Generate has that file's own frame generators and its `main`, Fifo/Agreement compares
--   them with those of Frames, and Fifo/Main goes from `main` to the reader.
-- * Dpi is LudpHostDPI; Dpi/Framing, what stands on its socket; Dpi/Main, `main` and
--   `run_test_script`; Dpi/Exit, how a run ends.
-- * Shell is `run_interactive`; Shell/Words, the words and numbers of a line; Shell/Exit, how it
--   ends; Shell/Serve and Shell/Lines, a session in which every number fits.
-- * Text is what the programs use of `str`.
-- * Coverage is tb/coverage_report.py: Names and Xml (what it uses of `dict` and ElementTree),
--   FileMap (`build_file_id_map`), OnLine, Parse (`parse_coverage`), Report (`print_report`,
--   `calc_overall` and the main program); Ranges, Sums, Balance, Naming, Tallies and Agreement,
--   what holds of them.
-- * Examples has runs at concrete inputs.
--
-- How the code is modelled:
-- * The code holds its lock only for the counters and for `pending_cmds`. In Race one step is
--   one access to the other fields of the host, one block under the lock, or one call of
--   `heappop`, `heappush`, `dict.pop`, `sendto` or the callback; the local variables and the
--   settings of the host belong to the step that uses them, and `highest_seq` to the receive
--   thread. The two threads take their steps in any order. In the other modules a handler of a
--   datagram, a round of the polling thread and a command's sending run to their ends; in
--   Threads these come in any order, and in Reply no polling round falls within the wait of a
--   command.
-- * What `recvfrom` gives is an argument: a list of datagrams and errors. A command's wait takes
--   what the receive thread reads until the wait ends, by the event or by the timeout; an
--   exception in that thread ends the thread and not the caller.
-- * The application is a type `App` with the callback as a function on it, which raises nothing.
--   What `sendto` is given is kept in the field `sent`. A host of the model has its socket open:
--   `stop` is the last that a program does with a host, so that of it only the flag is kept,
--   without the joins, which give up after two seconds, and the closing of the socket.
-- * How each `sendall` of LudpHostDPI goes is an argument: it writes everything, or raises after
--   any number of bytes.
-- * Numbers that a caller passes in are natural. Times are whole microseconds, and a later time
--   minus an earlier one is their difference. `last_seq` is `none` where the code has -1.
-- * The heap is the ascending list of its entries. The code reads and removes only the least
--   one, so that the order of the others in the array does not matter.
-- * Python's integers have no bound; the fields of the packets have, and `struct.pack` refuses a
--   value that does not fit.
-- * In a session of the data logger each of the two threads may do any work between two calls;
--   in the waits of its commands, and of those of the shell, only the receive thread does. A
--   receive thread that an exception of the socket has ended is one that reads nothing more.
-- * In the shell, a line comes with what the threads do before it and during its command; the
--   end of the lines is an interrupt at the prompt.
-- * The coverage report gets the XML files as trees, or `none` where a file cannot be read or
--   parsed, the shape file once for each of its two readings. `os.walk`, `os.path.isdir` and the
--   reading of source files are functions that are given. Texts are ASCII. `sorted` is
--   insertion; every stable sort gives the same list.
-- * Loops are structural on a list, but for two with fuel: `fold_carries` takes the sum as its
--   fuel, and each round lowers it; `pad_frame` takes 60, the length that it pads to.
--
-- Not modelled: the printing with its floats (statistics, percentages), the parsing of the
-- command line, the sockets and threads themselves (the joins and the closing of the socket in
-- `stop`, and `drain_socket`, among them), gzip and the XML parser, the tests, and the
-- hardware with its test benches.
pub mod Base
pub mod Dict
pub mod Struct
pub mod Host
pub mod Reassembly
pub mod Flow
pub mod Threads
pub mod Race
pub mod Reply
pub mod Frames
pub mod Logger
pub mod Fifo
pub mod Dpi
pub mod Text
pub mod Coverage
pub mod Shell
mod Examples
