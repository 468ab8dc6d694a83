-- ===== src/DecoderBridge.antt =====
-- decoder_bridge.c: a WSPR frame is handed to the program airspyhf-wsprd-core, and the spots that it
-- finds are read back.
-- Floating point numbers are a type; sscanf and the answers of the system are arguments.
pub mod Paths
pub mod InputFile
pub mod Results
pub mod Frame
