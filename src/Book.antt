-- ===== src/Book.antt =====
-- Order reconstruction: include/book_state.hpp and src/book_state.cpp.
pub mod Digest
pub mod Table
pub mod Resolve
