-- ===== src/Pipeline.antt =====
-- `FpgaPipeline`, the five-stage matching model of include/pipeline.hpp and src/pipeline.cpp.
pub mod Slots
pub mod Books
pub mod Clock
mod Tests
