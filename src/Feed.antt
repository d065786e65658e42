-- ===== src/Feed.antt =====
-- The MoldUDP64 feed and the file replay: src/udp_server.cpp, src/udp_receiver.cpp and
-- src/itch_replay.cpp, with their headers.
pub mod Server
pub mod Receiver
pub mod Replay
pub mod Wire
pub mod Listen
pub mod Handles
