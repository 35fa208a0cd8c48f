-- ===== src/Lib.antt =====
-- The camera-side programs of yi-outdoor-1080p-ptz.
--
-- src/fshare2fifo/fshare2fifo.c reads the frame ring that the camera's own application keeps in
-- shared memory, without locks, and writes the video or audio to a fifo. The part modelled here:
--
--   Memory         byte buffers and little-endian words, which the other parts share
--   Fshare.Layout  header words, slot table, ring_copy
--   Fshare.Record  rec_hdr, magic_ok, entry_wanted and the guards of a scan (readable)
--   Fshare.Walk    the while loop of reader_loop; Walk.Log is the list of complete records that
--                  the theorems compare it with
--   Fshare.Poll    one round of reader_loop on the slot: walk, delivery, era reset; Poll.Drain is
--                  polls one after the other, Poll.View what a poll looks at, and Poll.Others the
--                  other readers
--   Fshare.Claim   claim_slot with the join scan, release_slot
--   Fshare.Stall   the stall watchdog of reader_loop
--   Sps            sps_read_bit, sps_read_ue, parse_sps_full, sps_wbits, sps_wue, build_sps
--   Emit           write_whole_fd, write_all_fd_wait (Emit.Output), the start code scans of emit_record
--                  (Emit.Scan), its chain gate (Emit.Chain), and emit_record and emit_delivered;
--                  Emit.Nals and Emit.Split split a payload before any NAL is routed, Emit.History
--                  keeps the types of the NALs heard in a run, and Emit.Heeds and Emit.Opening are
--                  about what opens the gate
--   Loop           a round of reader_loop, which calls the poll, the watchdog and emit_delivered;
--                  Loop.Reach is the runs of it, Loop.Drain its rounds while the writer is quiet and
--                  Loop.Order those while it runs
--   Main           main: the options, the exits before the loop, and the release behind it
--   Purge          fifo_purger_thread, which shares the fifo with the emission
--
-- src/ptz/ptz.c drives the motor and the light through a message queue:
--
--   Text           C strings as lists of codes, strcmp and strstr
--   Ptz.Message    send_msg and the commands
--   Ptz.Command    dir_value and main
--   Ptz.Cgi        cgi_mode and its sleeper
--
-- src/onvif/onvif.c is a SOAP server in front of the same motor:
--
--   Onvif.Request  find_hdr_end and read_request
--   Onvif.Route    the routing on the SOAPAction header
--   Onvif.Envelope put32, put16 and the packing in send_env and its callers
--   Onvif.Server   send_env, xml_find, xml_attr, the handlers that act on the motor, handle_request
--                  and the cap of the main loop
--   Onvif.Reply    http_reply, http_fault and the text of each method (Reply.Device, Reply.Media,
--                  Reply.Ptz); Reply.Xml is the reader that judges them
--
-- src/ring-capture/ring-capture.c writes what the application puts into the ring to a file:
--
--   Capture        diff_thread
--
-- src/ring-capture/typescan.c counts the records of the ring by their types:
--
--   TypeScan       ring_read and the walk of main
--
-- The probes of src/ring-capture watch the same memory:
--
--   Probe.Slots    slotprobe.c: the moves of the header, and the ring of the last four samples
--   Probe.Scan     scanprobe.c: the changed runs since a snapshot and the write head
--   Probe.Ends     endprobe.c: ring_delta, classify and the loop over the published ends
--   Probe.Peek     peek0401.c: the chain records and the NALs of the payloads
--   Probe.Timeline cap-timeline.c: the timeline, and the snapshot with its tear check
--
--   Tests          concrete runs
--
-- A poll works on the image of the memory that it finds. Loop.Reach interleaves the rounds with the
-- writer, which stores what it likes outside the reader's cursor word and leaves a ring that the reader
-- can rely on, and with the fifo. Words are natural numbers below 2 ^ 32, with the wrap of uint32_t
-- written out.
--
-- The walk runs on fuel of 2 * left + 2 rounds: each record takes at least 26 bytes of what is left
-- and at most two rounds, the second behind a live-edge jump. The scan for a join runs on fuel of
-- left rounds. The NAL walk of a record of len bytes runs on len + 1 rounds: each passes a start code.
--
-- What the system answers to write, mq_open and mq_send is part of the state that a function takes.
-- The fuel of the capture's comparison is the window, of which each round takes a byte, and that of
-- its writes is enough for two offsets of 32 bits. The walk of typescan runs on one round more than the
-- bytes left. The walk of peek0401 tests no length, and its fuel is an argument.
--
-- Not modelled: src/cpldio, semprobe.c and the semaphores of slotprobe.c, and the tools, which are device
-- access and diagnostics; the set-up of sockets, signals and file descriptors in the main functions.
pub mod Prelude
pub mod Memory
pub mod Text
pub mod Fshare
pub mod Sps
pub mod Emit
pub mod Loop
pub mod Main
pub mod Probe
pub mod Purge
pub mod Capture
pub mod TypeScan
pub mod Ptz
pub mod Onvif
pub mod Tests
