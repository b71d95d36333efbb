-- ===== src/Http/Write/Tests.antt =====
-- Concrete uploads.
use esp32_wifi_gnss.Prelude.{
  ℕ, ◌≤◌, ◌≡◌, refl, true, false, some, List, [], ◌∷◌, ◌++◌, Bytes, length, arith,
}
use esp32_wifi_gnss.Rtos.Simple.{simple}
use esp32_wifi_gnss.Esp.{EspErr, esp_ok}
use esp32_wifi_gnss.Socket.{Received, timed_out, data_in}
use esp32_wifi_gnss.Gnss.{flush_override}
use esp32_wifi_gnss.Gnss.Parser.Reading.{line_of}
use esp32_wifi_gnss.Gnss.Samples.{gga_body, rmc_body, start, start-IsInitial}
use esp32_wifi_gnss.Gnss.Pipeline.{
  Pipeline, Member, control_member, uart_input_feed, feed_chunks, input_epoch_advance, feed_parser,
  filter_step, input_override_begin, input_override_feed, input_override_close,
  input_override_flush,
}
use esp32_wifi_gnss.Http.Simple.{simple_httpd}
use esp32_wifi_gnss.Http.Pool.{Pool, pool_signal}
use esp32_wifi_gnss.Http.Pool.Tests.{fresh, fresh-IsNew}
use esp32_wifi_gnss.Http.Pool.Steps.{handles, signals, stays, moves}
use esp32_wifi_gnss.Http.Pool.Clients.{OneAtATime}
use esp32_wifi_gnss.Http.Write.{
  no_writer, receiving, ending, awaiting, answering, write_begin, write_round, write_close,
  write_post_handler,
}
use esp32_wifi_gnss.Http.Write.Run.{
  IsQuiet, WriteRun, at_boot, and_then, filter_runs, writer_begins, writer_receives, writer_closes,
  writer_flushes,
}
use esp32_wifi_gnss.Http.Write.Handshake.{begun, flush_of}
use esp32_wifi_gnss.Http.Write.Taken.{TakesFlush}
use esp32_wifi_gnss.Http.Write.Flushed.{flush_is_complete, writer_is_not_refused}
use esp32_wifi_gnss.Http.Write.Acknowledged.{filter_steps, flush_is_acknowledged}
use esp32_wifi_gnss.Http.Write.Ends.{Rounds, in_loop, phase_after, write_loop_ends}
use esp32_wifi_gnss.Http.Write.Upload.{write_rounds, delivered, upload_is_one_feed}
use esp32_wifi_gnss.Http.Write.Admission.{one_writer}

start-IsQuiet : IsQuiet simple start
start-IsQuiet = record {
  initial = start-IsInitial;
  no_mark = refl;
  no_control = refl;
  one_control = refl;
  no_answer = refl;
  binary = refl;
  not_closing = refl;
}

abbrev body : Bytes
body = line_of gga_body ++ line_of rmc_body

-- An upload of two lines in one piece, up to the flush.
abbrev sending : Pipeline simple
sending = (write_begin simple (length body) start).1

abbrev sent : Pipeline simple
sent = (write_round simple (length body) (data_in body) sending).1

abbrev flushed : Pipeline simple
flushed =
    input_override_flush simple (write_close simple esp_ok sent).1
      (record { control_type = flush_override; input_epoch = 2 })

flushed-WriteRun : WriteRun simple start (awaiting esp_ok) flushed
unfolding write_begin write_round write_close input_override_begin input_override_feed
    input_override_close feed_chunks feed_parser input_epoch_advance
flushed-WriteRun = and_then (writer_flushes esp_ok _) (
    and_then (writer_closes esp_ok) (
      and_then (writer_receives (length body) (data_in body) (omega arith))
        (and_then (writer_begins (length body)) at_boot)))

-- The filter has weighed the pair, and the flush is next.
abbrev weighed : Pipeline simple
weighed = filter_step simple flushed

weighed-WriteRun : WriteRun simple start (awaiting esp_ok) weighed
weighed-WriteRun = and_then filter_runs flushed-WriteRun

writer_is_not_refused_example :
    (awaiting esp_ok ≡ no_writer → (input_override_begin simple flushed).0 ≡ esp_ok)
    × ((remaining : ℕ)
        → awaiting esp_ok ≡ receiving remaining
        → (input_override_feed simple flushed (some body) (length body)).0 ≡ esp_ok)
    × ((result : EspErr)
        → awaiting esp_ok ≡ ending result
        → (input_override_close simple flushed).0 ≡ some (flush_of simple flushed))
    × ((result : EspErr)
        → awaiting esp_ok ≡ answering result
        → flushed.input_override_active ≡ false)
writer_is_not_refused_example = writer_is_not_refused simple body start-IsQuiet flushed-WriteRun

flush_is_complete_example :
    ((rest : List Member)
      → simple.pending weighed.filter_queue_set ≡ control_member ∷ rest
      → TakesFlush simple weighed)
    × ((simple.take_sem weighed.override_flush_done).0 ≡ true
        → (simple.items weighed.candidate_queue ≡ [])
          × (weighed.filter.has_best_candidate ≡ false)
          × (simple.items weighed.filter_control_queue ≡ []))
flush_is_complete_example = flush_is_complete simple esp_ok start-IsQuiet weighed-WriteRun

flush_is_acknowledged_example :
    (k : ℕ) × (k ≤ length (simple.pending flushed.filter_queue_set))
    × ((simple.take_sem (filter_steps simple k flushed).override_flush_done).0 ≡ true)
flush_is_acknowledged_example = flush_is_acknowledged simple esp_ok start-IsQuiet flushed-WriteRun

abbrev pieces : List Received
pieces = data_in (line_of gga_body) ∷ timed_out ∷ data_in (line_of rmc_body) ∷ []

upload_is_one_feed_example :
    write_rounds simple pieces (write_begin simple (length (delivered pieces)) start)
    ≡ (ending esp_ok, feed_parser simple (delivered pieces) (begun simple start))
upload_is_one_feed_example =
    upload_is_one_feed simple pieces start refl (omega arith, (tt, (omega arith, tt)))

-- Two bytes, a pause between them, and the UART's line while the worker waits.
abbrev some_rounds : Rounds simple
some_rounds =
    (data_in (1 ∷ []), start)
    ∷ (timed_out, uart_input_feed simple start (line_of gga_body))
    ∷ (data_in (2 ∷ []), start)
    ∷ []

write_loop_ends_example :
    in_loop simple (phase_after simple some_rounds (write_begin simple 2 start).0) ≡ false
write_loop_ends_example = write_loop_ends simple some_rounds 2 start (omega arith)

abbrev one_posted : Pool simple simple_httpd
one_posted =
    (write_post_handler simple simple_httpd 3 (pool_signal simple simple_httpd 0 (fresh 1))).1

one_writer_example :
    OneAtATime simple simple_httpd 0 one_posted
    × (simple_httpd.content_len 0 ≡ 0
        → ((write_post_handler simple simple_httpd 0 one_posted).1.request_queue
            ≡ one_posted.request_queue)
          × ((write_post_handler simple simple_httpd 0 one_posted).1.worker_ready
              ≡ one_posted.worker_ready))
one_writer_example =
    one_writer simple simple_httpd 0 (fresh-IsNew 1)
      (moves (handles 3) (moves (signals 0 (omega arith) refl) stays))
