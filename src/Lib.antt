-- ===== src/Lib.antt =====
-- tickpipe reads the NASDAQ TotalView-ITCH 5.0 feed from a file or from UDP datagrams, resolves
-- its messages against the resting orders, keeps a price ladder, checks risk, logs, and answers
-- in OUCH. This library models that program and proves what its parts promise.
--
-- The parts, in the order in which a message passes them:
--   Feed.Server, Feed.Receiver, Feed.Replay: src/udp_server.cpp, src/udp_receiver.cpp and
--     src/itch_replay.cpp. `flush` and `send_message` build MoldUDP64 datagrams, `receive_packet`
--     is the book thread's work on one of them, `replay_all` the walk over a mapped file.
--     Feed.Wire joins the server and the receiver; Feed.Listen is `receive_loop` with `recv_thread`,
--     the ring between them and any order of their steps.
--     Feed.Handles has what these take from the operating system and give back, `open`, `init` and
--     `close`, and `main` of src/replay_server_main.cpp.
--   Ring: include/spsc_ring.hpp, the byte ring between the socket and the book thread. Ring.Threads
--     cuts `push` and `pop` at their atomic accesses and runs both threads in any order.
--   Symbols: src/symbol_directory.cpp, the filter by symbol in front of the parser.
--   Itch: src/itch_parser.cpp and include/itch_parser.hpp. Itch.Order has the decoded order,
--     Itch.Parser `parse` and all that it calls.
--   Book: src/book_state.cpp and include/book_state.hpp. Book.Table is the open-addressing table
--     with `find`, `insert`, `erase`; Book.Resolve turns messages into operations; Book.Digest
--     is the FNV-1a fold.
--   Engine: src/software_engine.cpp. Engine.Ladder is one side of the book, Engine.Book both sides
--     with `submit`, `apply` and the queries.
--   Risk: src/risk_engine.cpp. Wal: src/wal.cpp. Ouch: src/ouch.cpp. Micro: src/microstructure.cpp.
--   Pipeline: include/pipeline.hpp and src/pipeline.cpp. Pipeline.Slots has the price window and the
--     bitmaps, Pipeline.Books the levels with stages 3 and 4, Pipeline.Clock the other stages,
--     `clock` and `flush`.
--   Live: src/live_exchange_main.cpp. `on_order` joins book, risk, log, engine and screen; `start` is
--     what `main` sets up.
--   Session: `on_message` and `on_paced` of src/main.cpp, the replay of a session with its snapshot at
--     the close.
--   Numa: the guard of `pin_to_core` in src/numa.cpp.
--   Visualizer: the clock, the colours and the kept prices of src/visualizer.cpp.
--   Demo: the sections of src/main.cpp that run a part on inputs of their own.
--   Bench: the inputs of bench/benchmark.cpp, bench/validate_microstructure.cpp and the comparison in
--     src/main.cpp, and the parts run on them.
-- Base has what they share: tests on numbers, lists, memory as functions, machine words, integers.
--
-- State is a record for each class, and an operation returns its result with the new state. Words
-- wrap by `% 2 ^ w`. A pointer to bytes is a function of the offset, with `none` for a null pointer.
-- What a map iterates over is a list of levels in that order. Undefined behaviour that the code
-- could meet (`front()` of an empty queue) is `none`.
--
-- Fuel: the probing loops of the table get `capacity` rounds, which is the bound the code checks
-- itself; `isqrt_loop` has the 64 rounds of the code; the loops over entries, pending names and
-- messages count what is left; `Wal.replay_loop` and `Feed.Replay.replay_loop` get the number of bytes, of
-- which every round takes some; the loop of `replay_file` gets one more and is `none` without any,
-- and Feed.Server.Replaying shows that it never is.
--
-- Parameters: how a `WalEntry` lies in memory (`Wal.Layout`, with Wal.Amd64 for x86-64), the clock,
-- how far stdio and the disk take a write (`Wal.Stdio`), whether a datagram was sent, what `recv`, `open`, `mmap` and
-- `socket` return, and the speed of a replay (`Conditions`).
--
-- Not modelled: the options and addresses of sockets, the calls of Windows, the start of threads
-- and weaker memory orders than the ring's, the text of the visualizer's frames, the
-- floating-point report functions, what src/main.cpp and src/live_exchange_main.cpp measure and
-- print, and the arguments of the command line.
pub mod Base
pub mod Itch
pub mod Book
pub mod Engine
pub mod Pipeline
pub mod Risk
pub mod Ouch
pub mod Ring
pub mod Symbols
pub mod Wal
pub mod Micro
pub mod Numa
pub mod Feed
pub mod Live
pub mod Bench
pub mod Demo
pub mod Session
pub mod Visualizer
