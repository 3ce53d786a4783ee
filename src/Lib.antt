-- ===== src/Lib.antt =====
-- Verification of ModemBridge, a bridge between a dial-up modem on a serial port and a telnet
-- server.
--
-- A caller's bytes come from the modem, pass the ANSI filter and the circular buffer of
-- src/bridge.c, and leave through the telnet client of src/telnet.c, which doubles IAC. A server's
-- bytes come back through the receiving machine of the client, which takes option negotiation and
-- subnegotiation out of the stream and answers it. Above both, the state machine of src/level3.c
-- follows the carrier signal (DCD) of the modem, connects the telnet client, and keeps two double
-- buffers, one for each direction. The modem of src/modem.c answers the commands that a client types
-- on the serial port, looks for the escape sequence, and follows the signals of the line.
--
-- The parts and their files:
--   * Common: the return codes and BUFFER_SIZE of include/common.h.
--   * Cbuf: `circular_buffer_t` and the functions cbuf_* of src/bridge.c, under the same names
--     without the prefix. Invariant holds the representation invariant and the stored bytes, Fifo
--     what a write and a read do, Trace whole histories of calls.
--   * Text.Utf8 and Text.Ansi: the UTF-8 helpers and `ansi_filter_modem_to_telnet` of src/bridge.c.
--   * Telnet: src/telnet.c with include/telnet.h, under the names of the source without the prefix
--     telnet_. State is `telnet_t`; Negotiate and Subnegotiate are the answers to options; Send,
--     Connect and Output are the sending side, Queue is the write buffer, Reads the read buffer
--     (`telnet_process_reads`), and Health the keep-alive and the handling of errors; Input is
--     `telnet_process_input`, where `step` is the effect of a byte on the client and `step_out` its
--     effect on the output. A function named for a part of a larger one, such as `settle` or
--     `process_ready`, is a branch or a loop of it.
--   * Level3: src/level3.c with include/level3.h, under the names of the source without the prefix
--     l3_. State is the part of `l3_context_t` that the state machine uses, with the globals beside
--     it; Monad is a step of a thread that takes `state_mutex`; Machine is
--     `l3_process_state_machine` with the functions it calls and the DCD events; DoubleBuffer is
--     `l3_double_buffer_t`.
--     ControlFilter is `l3_filter_telnet_controls` and MemoryPool `l3_memory_pool_t`.
--     HayesFilter is `l3_filter_hayes_commands` with its tables in Words; Multibyte and Chunk are
--     `l3_process_serial_to_telnet_chunk` with what it calls, from the circular buffer over the
--     Hayes filter to the write buffer of the telnet client; Schedule is the scheduling, State what
--     it keeps and Turn `l3_process_pipeline_with_quantum`; Enhanced is
--     `l3_enhanced_double_buffer_t`.
--   * Modem: src/modem.c with include/modem.h, under the names of the source without the prefix
--     modem_. State is `modem_t` and what it asks of the serial port; Response are the responses
--     and the result codes, Response.Spoken what they write on the serial port; Call are the small calls; Command is `modem_process_command`; Escape is
--     the escape sequence, Input `modem_process_input`; Carrier are the calls that DCD and DTR make,
--     and Hardware is `modem_process_hardware_message`.
--   * Config: src/config.c with include/config.h. Words are the keys, State is `config_t` with its
--     defaults and its validation, and Line is `parse_config_line` and `config_load`, with the layout
--     of a line in Trim and Layout.
--   * Prelude: the Boolean tests, the lemmas on lists and the names of the library that the parts
--     share. Tests: the theorems applied at concrete inputs.
--
-- How the code is read:
--   * A function that changes the object behind a pointer returns the new object beside its result.
--     The checks for NULL pointers have no counterpart, since a record is never NULL. A byte is a
--     natural number. An array with a length field is the list of its bytes in use, so that the
--     length field is the length of the list, and a write of a byte past the array shows as a list
--     longer than the array.
--   * The operating system is a parameter. `Os` holds what `send` and `time` answer, which may
--     depend on all that was sent before; `Network`, `Wait`, `SocketError` and `RecvResult` hold what
--     the calls about sockets answer. The buffers handed to `send` are listed in `requests`.
--   * A loop is a recursion on the input that is left, so it ends. Two loops take fuel, which is
--     enough because each round that goes on consumes a byte at least: that of
--     `telnet_process_reads` the length of the read buffer, and that of `modem_process_command` the
--     length of the array of the command and one more.
--   * What is undefined in C has no result: a read behind an array, a number that leaves the `int`.
--     The array `cmd_upper`, which nothing initialises, is a parameter. A `char` is signed.
--   * The `double` of the scheduling is a parameter: `Doubles` has the few operations that the
--     functions need. A turn of the scheduling sees one time before a chunk is processed and one
--     behind it, and what the processing of the chunk returns is a parameter. A call of the Hayes
--     filter sees one time. The ratios of the enhanced buffer are compared as fractions.
--   * Level 2 is built in (ENABLE_LEVEL2). One call of the state machine sees one time. One thread
--     runs; a thread that asks for the mutex it holds stops there (`relocks`), since the mutex has the
--     default type. Where the source gives the mutex up for a moment, nothing else happens.
--
-- Not modelled: the log, the data log and messages on the console, the counters that only silence
-- them, condition variables, the host name and the port of the connection, the averages of the
-- processing time and of the fill ratio, the memory pool inside an enhanced buffer, and the state of
-- other threads. The loops of src/modem.c that wait for an answer of the hardware modem, the serial
-- port, the health check, the loops of src/bridge.c, and of src/level3.c the chunk from telnet to
-- serial, the backpressure of the pipelines and the loop of the management thread are no part of
-- this library.
pub mod Prelude
pub mod Common
pub mod Cbuf
pub mod Text
pub mod Telnet
pub mod Level3
pub mod Modem
pub mod Config
mod Tests
