-- ===== src/Engine.antt =====
-- The software matching engine: include/software_engine.hpp and src/software_engine.cpp.
pub mod Ladder
pub mod Book
