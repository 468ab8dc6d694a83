-- ===== src/Lib.antt =====
-- A formal model of airspyhf-wsprd, the WSPR and FT8 receiver for the Airspy HF+ Discovery.
--
-- The receiver's callback hands blocks of samples to the signal processing thread through a bounded
-- queue (sample_queue.c). The station is named by a callsign and a grid locator (station.c). It
-- tunes to one band, or hops through a plan of bands by the clock, in a fixed or an adaptive
-- rotation (bands.c). Each decoded spot is turned into a URL and uploaded to WSPRnet, in order, by a
-- thread of its own (reporter.c). FT8 spots go to PSK Reporter in IPFIX datagrams, by another thread
-- (psk_reporter.c). WSPR frames are decoded by a program that is run for each of them (decoder_bridge.c),
-- FT8 frames by ft8_lib (ft8_decoder.c) and also by the program jt9, whose results are merged with those of
-- the built-in decoder (jt9_decoder.c). A thread asks wspr.live or PSK Reporter once an hour which
-- bands are worth a visit, and hands over the plan that it makes of the answer (band_advisor.c).
--
-- Files, with what they model:
--   SampleQueue   sample_queue.c and sample_queue.h: `init`, `destroy`, `reset`, `stop`, `push`, `wait`,
--                 `try_peek` and `release` are the functions sample_queue_*. Each critical section of the
--                 mutex is one step. The sample bytes lie in one flat buffer, and a slot points into it by
--                 an offset. Invariant, Preserve, Fifo, Refine, Run, Drops, Ledger and Wait hold its proofs.
--   Station       station.c: `normalize_callsign` and `normalize_grid`. Station/Buffer has what the two
--                 leave in the bytes of `output`, also where they fail.
--   Bands         bands.c: the two tables and the search by alias.
--   HopPlan       bands.c: hop_plan_parse and its two callers.
--   HopSchedule   bands.c: the four functions that choose a band by the time.
--   Reporter      reporter.c and reporter.h: `retry_delay`; Reporter/Url has url_encode and
--                 wspr_report_format_url, Reporter/Queue the ring of waiting spots (wspr_reporter_start,
--                 _enqueue, _pending, _stop), Reporter/Uploader upload_url and uploader_thread, which takes
--                 turns with its callers at the mutex: `step` is one turn. The text of a floating point
--                 number, the time, the HTTP status and AIRSPYHF_WSPRD_RETRY_BASE_SECONDS are arguments.
--   PskReporter   psk_reporter.c and psk_reporter.h: PskReporter/Packet has psk_reporter_build_packet on
--                 the buffer that it writes; Packet/Layout describes the datagram without positions.
--                 PskReporter/Queue has psk_reporter_enqueue and psk_reporter_pending, PskReporter/Flush
--                 reporter_thread with mark_recent and packet_report_count, PskReporter/Start
--                 psk_reporter_start and psk_reporter_stop.
--   DecoderBridge decoder_bridge.c and decoder_bridge.h: Paths has the two ways to join and take apart a
--                 path and the runtime directory, InputFile write_c2, Results parse_results, Frame run_core
--                 and decode_wspr_frame with a trace of its effects.
--   Jt9           jt9_decoder.c and jt9_decoder.h: Line has jt9_parse_decode_line and the loops that read the
--                 output, Sender decode_report_fields, Wait wait_for_child, Finish jt9_decoder_finish, Merge
--                 jt9_merge_results. sscanf and floating point numbers are arguments.
--   Ft8           ft8_decoder.c: Calls has the table of callsigns (save_callsign, lookup_callsign,
--                 callsign_table_age), Seen already_decoded and retain_message. A table is a function from its
--                 slots, and a probe counts down from the size of the table.
--   BandAdvisor   band_advisor.c and band_advisor.h: Json has json_array_end, json_object_end and
--                 json_object_value, Response receive_response, Center wspr_grid_center, Rows the two parsers
--                 that read a response by lines, Monitor ft8_monitor_parse_response, Service the thread
--                 (wait_until, advisor_thread), start, stop, take and wait. sscanf, strtoul, what curl
--                 receives and floating point numbers are arguments.
--   Common        shared helpers: tests on numbers, lists, slices of a buffer, rings, bytes, integers.
--
-- Conventions. A C text is the list of its bytes before the NUL. A pointer that the code tests for NULL is
-- an `Option`, a result through a pointer is part of the result. `size_t` and `uint64_t` sums keep their
-- wrap-around (`% 2 ^ 64`), or stand under the test that rules it out. A loop runs over a list or over a
-- count, so no fuel is needed, but for the two loops over JSON text, whose fuel is the length of the text,
-- since every round takes at least a byte of it. The rounds of a wait are a list, and where it ends a
-- theorem says how long the list has to be. The answers of the system (memory, mutexes, condition
-- variables) are arguments.
--
-- Not modelled: threads between critical sections, printing, sockets, the processes themselves and
-- floating point; the URLs of band_advisor.c, which print floating point numbers; the loop over the
-- candidates of a frame and the sender of a message in ft8_decoder.c; health_server.c, decimator.c and the
-- main program; the copies of other projects under core and ft8_lib.
pub mod Common
pub mod SampleQueue
pub mod Station
pub mod Bands
pub mod Ft8
pub mod HopPlan
pub mod HopSchedule
pub mod Reporter
pub mod PskReporter
pub mod Jt9
pub mod DecoderBridge
pub mod BandAdvisor
