-- ===== src/Http/Write.antt =====
-- POST /write of main/http_stream.c: `write_request_receive`, whose calls of main/gnss.c interleave
-- with the other tasks, and its handler. Where the worker waits, the steps of the others come in.
pub mod Marks
pub mod Sync
pub mod Timer
pub mod Filters
pub mod Taken
pub mod Handshake
pub mod Run
pub mod Calls
pub mod Flushed
pub mod Acknowledged
pub mod Upload
pub mod Ends
pub mod Admission
mod Tests
use esp32_wifi_gnss.Prelude.{
  ℕ, zero, suc, ◌-◌, ◌≤◌, ◌≡◌, min, Bool, true, false, Option, none, some, List, [], ◌∷◌, Bytes,
  length, ◌==◌, if◌then◌else◌,
}
use esp32_wifi_gnss.Rtos.{Rtos}
use esp32_wifi_gnss.Esp.{EspErr, esp_ok, esp_fail, is_ok}
use esp32_wifi_gnss.Socket.{Received, timed_out, closed, data_in}
use esp32_wifi_gnss.Gnss.{FilterControl}
use esp32_wifi_gnss.Gnss.Pipeline.{
  Pipeline, input_override_begin, input_override_feed, input_override_close, input_override_flush,
  input_override_finish,
}
use esp32_wifi_gnss.Http.Httpd.{Httpd}
use esp32_wifi_gnss.Http.Pool.{Pool, write_request_queue, or_reply, take_first_queue}

-- HTTP_WRITE_BUFFER_SIZE
abbrev pub http_write_buffer_size : ℕ
http_write_buffer_size = 512

-- Where the worker is: with no request; in the loop with `remaining` bytes left; behind the loop,
-- with `result`; in `gnss_input_override_end`, with the flush to send, and with its acknowledgement
-- to wait for; and with the override ended.
pub data WriterPhase : Type 0 where
  no_writer : WriterPhase
  receiving : ℕ → WriterPhase
  ending : EspErr → WriterPhase
  flushing : EspErr → FilterControl → WriterPhase
  awaiting : EspErr → WriterPhase
  answering : EspErr → WriterPhase

-- `while (remaining > 0)`
abbrev pub write_loop : ℕ → WriterPhase
write_loop zero = ending esp_ok
write_loop (suc left) = receiving (suc left)

module _ (rtos : Rtos) where
  unfoldable pub write_begin : ℕ → Pipeline rtos → WriterPhase × Pipeline rtos
  write_begin content_len g =
      let (err, g') = input_override_begin rtos g in
      if is_ok err then (write_loop content_len, g') else (answering esp_ok, g')

  -- What the loop does with the bytes that it has received.
  unfoldable pub write_feed : ℕ → Bytes → Pipeline rtos → WriterPhase × Pipeline rtos
  write_feed remaining bytes g =
      let (err, g') = input_override_feed rtos g (some bytes) (length bytes) in
      if is_ok err then (write_loop (remaining - length bytes), g') else (ending err, g')

  -- A round of the loop. The server never delivers more than is asked for, so that the subtraction
  -- does not wrap.
  unfoldable pub write_round : ℕ → Received → Pipeline rtos → WriterPhase × Pipeline rtos
  unfolding write_feed
  write_round remaining timed_out g = (receiving remaining, g)
  write_round remaining closed g = (ending esp_fail, g)
  write_round remaining (data_in []) g = (ending esp_fail, g)
  write_round remaining (data_in (b ∷ bytes)) g = write_feed remaining (b ∷ bytes) g

  unfoldable pub write_close : EspErr → Pipeline rtos → WriterPhase × Pipeline rtos
  write_close result g =
      let (control, g') = input_override_close rtos g in
      (elim control [ none ↦ answering result | some flush ↦ flushing result flush ], g')

module _ (rtos : Rtos) (httpd : Httpd) where
  open httpd use {Req, content_len, httpd_reply}

  unfoldable pub write_post_handler : Req → Pool rtos httpd → EspErr × Pool rtos httpd
  unfolding take_first_queue
  write_post_handler req s =
      let (sent, d) =
        httpd_reply (some "411 Length Required")
          "POST /write requires a non-empty Content-Length body\n" req s.dev in
      if content_len req == 0
      then (esp_ok, record s { dev = d })
      else or_reply rtos httpd "409 Conflict" "another GNSS writer is already active\n" req
          (write_request_queue rtos httpd req s)
