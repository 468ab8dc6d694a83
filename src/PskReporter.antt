-- ===== src/PskReporter.antt =====
-- psk_reporter.c and psk_reporter.h: FT8 spots are queued in RAM, and sent to PSK Reporter in IPFIX
-- datagrams.
pub mod Packet
pub mod Queue
pub mod Flush
pub mod Start
