-- ===== src/Jt9.antt =====
-- jt9_decoder.c and jt9_decoder.h: FT8 frames are handed to the program jt9, and its answers are read
-- and merged with those of the built-in decoder.
-- Floating point numbers are a type with what the code asks of it; sscanf and the system are
-- arguments.
pub mod Result
pub mod Sender
pub mod Line
pub mod Merge
pub mod Wait
pub mod Finish
