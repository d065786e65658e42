-- ===== src/Itch.antt =====
-- The ITCH decoder: include/itch_parser.hpp and src/itch_parser.cpp.
pub mod Order
pub mod Parser
