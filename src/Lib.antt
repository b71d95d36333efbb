-- ===== src/Lib.antt =====
-- Verification of the ESP32 GNSS access point (the C code of the repository's main/).
--
-- The firmware reads NMEA sentences from a UART or from an uploaded stream, pairs each GGA with the
-- RMC that follows, publishes the best pair of every timer window to HTTP clients, takes firmware
-- uploads over HTTP, keeps a ring of log text, and blinks an LED. The tasks talk through bounded
-- queues; the modules here follow the tasks.
--
--   Prelude    Boolean tests, lists, integers and bits over native numbers, shared by all.
--   Rtos       The queues, semaphores and queue sets of FreeRTOS as an interface with its documented
--              laws; Rtos.Simple is one instance. Rtos.Token counts the workers of a pool and the
--              requests in its queue, for Ota.Server and Http.Pool.
--   Esp        The error codes of ESP-IDF that the code returns or tests.
--   Nmea       main/gnss.c: nmea_checksum_ok, nmea_sentence_looks_valid, nmea_get_field_range,
--              nmea_parse_decimal_milli, nmea_parse_hdop_milli. A sentence is the array and a length.
--   Gnss       The data of main/gnss.c and main/gnss.h. Gnss.Parser is nmea_parser_feed and
--              nmea_parser_complete_sentence; Gnss.Filter is consider_candidate and
--              publish_best_candidate; Gnss.Pipeline has the static variables, the UART input, the
--              timer callback, the rounds of gnss_filter_task, and gnss_input_override_begin, _feed
--              and _end (in the three stages close, flush and finish, between which other tasks run).
--              Gnss.Pipeline.Steps interleaves them in any order, and Gnss.Pipeline.Sessions keeps
--              beside them what each source has sent. Gnss.Probe is nmea_probe_feed and
--              Gnss.Scan the loop of gnss_init_task with uart2_baud_set and
--              uart2_baud_scan_service, and the rounds of gnss_uart_task.
--   Ota        main/ota_update.c. Ota.Board is the interface to the PSA hash, the OTA functions and
--              the request's socket, read through a view of the board; Ota.Scripted is an instance.
--              Ota.Flash is ota_flash_receive with every exit; Ota.Header is ota_sha256_header_parse and
--              Ota.Host the further calls of ESP-IDF; Ota.Server has the static variables,
--              the handlers of POST /flash, /flash/confirm and /flash/rollback and of GET
--              /flash/status, the timers' callbacks and the stages of ota_worker_task.
--   Log        main/log_stream.c: the ring of log_capture_vprintf and the rounds of
--              log_response_send; Log.Client is its loop with the client's socket.
--   Led        main/generic_task.c: the protected counters and the rounds of generic_task; Led.Wake
--              has its notifications.
--   Version    main/app_version.c: the version string.
--   Socket     What a client's socket answers to recv and httpd_req_recv.
--   Http       main/http_stream.c. Http has the snapshot and the rounds of stream_response_send;
--              Http.Stream follows a client of it, and Http.System joins the pipeline, the dispatcher
--              (http_stack_task) and a client's worker. Http.Httpd is the interface to the server and
--              its copies of requests. Http.Pool has the handlers of GET /stream, GET /view and, from
--              main/log_stream.c, GET /log, with the stages of the workers' loops. Http.Write is
--              POST /write: write_request_receive by phases, joined with the pipeline in
--              Http.Write.Run, and its handler.
--   Wifi       main/wifi_ap.c: the event handler, and the task behind its queue.
--   Boot       app_main with init_nvs (main/app_main.c) and the *_stack_init and *_start_task(s)
--              functions of all parts, as calls of FreeRTOS and ESP-IDF that may fail.
--
-- Bytes are natural numbers; an `int`, a `uint16_t`, a `uint32_t` and a `size_t` keep their wrap
-- written out (the signed overflow that C leaves undefined is taken to wrap). A read past the end of
-- an array gives 0. A write past the end, which in C changes other memory, lengthens the array, so
-- that a proof that the array keeps its length shows that there is none. A section under a mutex or a
-- spinlock is one step. Loops are structural recursion on the bytes or on the rounds left. Two run on
-- fuel: the receive loop of the upload gets 3 * content_len + 3 rounds, since of three rounds one at
-- least brings a byte or ends the upload; the chunk loop of the override gets as many rounds as there
-- are bytes.
--
-- Not modelled: the notifications of the stream workers and the log worker, which also wake by
-- themselves; log messages, delays and the headers of a response; the constants for task stacks and
-- priorities; build files and tools.
pub mod Prelude
pub mod Rtos
pub mod Boot
pub mod Version
pub mod Wifi
pub mod Esp
pub mod Socket
pub mod Nmea
pub mod Gnss
pub mod Ota
pub mod Log
pub mod Led
pub mod Http
