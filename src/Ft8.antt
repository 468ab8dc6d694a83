-- ===== src/Ft8.antt =====
-- ft8_decoder.c: what is done around the decoder of ft8_lib.
pub mod Seen
pub mod Calls
