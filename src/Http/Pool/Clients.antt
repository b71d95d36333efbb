-- ===== src/Http/Pool/Clients.antt =====
-- The pools of main/http_stream.c (GET /stream and GET /view) and of main/log_stream.c (GET /log).
use Prim.Native.String.{String}
use esp32_wifi_gnss.Prelude.{
  ℕ, suc, ◌+◌, ◌≤◌, ◌≡◌, ◌&&◌, Bool, length, arith, inl, inr, some, ltb, not, if◌then◌else◌,
  Bool-cases,
}
use esp32_wifi_gnss.Rtos.{Rtos}
use esp32_wifi_gnss.Esp.{EspErr, esp_ok, err_not_finished, is_ok}
use esp32_wifi_gnss.Led.{led_client_connected, led_client_disconnected}
use esp32_wifi_gnss.Http.Httpd.{Httpd}
use esp32_wifi_gnss.Http.Pool.{
  Pool, take_first_queue, or_reply, read_get_handler, view_get_handler, log_get_handler,
}
use esp32_wifi_gnss.Http.Pool.Count.{busy, serving, total, total_serving-le}
use esp32_wifi_gnss.Http.Pool.Invariant.{
  PoolOk, replied-PoolOk, stream_request_queue-PoolOk, take_first_queue-PoolOk,
}
use esp32_wifi_gnss.Http.Pool.Steps.{PoolRun, IsNew, PoolRun-PoolOk}

module _ (rtos : Rtos) (httpd : Httpd) where
  open rtos use {items, count, send, sent-send, take_sem, receive, receive-items}
  open httpd use {Req, open_copies, httpd_req_async_handler_begin}

  pub or_reply-PoolOk :
      (n : ℕ) (status text : String) (req : Req) (t : EspErr × Pool rtos httpd)
      → PoolOk rtos httpd n t.1
      → PoolOk rtos httpd n (or_reply rtos httpd status text req t).1
  or_reply-PoolOk n status text req (err, s) v = elim (Bool-cases (is_ok err)) [
    | inl ok ↦ rw ok v
    | inr bad ↦ rw bad (replied-PoolOk rtos httpd n (some status) text req s v)
  ]

  -- The two calls that the stream workers serve.
  pub data StreamCall : Type 0 where
    get_stream get_view : Req → StreamCall

  abbrev pub stream_call : StreamCall → Pool rtos httpd → EspErr × Pool rtos httpd
  stream_call (get_stream req) s = read_get_handler rtos httpd req s
  stream_call (get_view req) s = view_get_handler rtos httpd req s

  pub stream_call-PoolOk :
      (n : ℕ) (c : StreamCall) (s : Pool rtos httpd)
      → PoolOk rtos httpd n s
      → PoolOk rtos httpd n (stream_call c s).1
  unfolding read_get_handler view_get_handler
  stream_call-PoolOk n (get_stream req) s v =
      or_reply-PoolOk n _ _ req _ (stream_request_queue-PoolOk rtos httpd n req s _ v).1
  stream_call-PoolOk n (get_view req) s v =
      or_reply-PoolOk n _ _ req _ (stream_request_queue-PoolOk rtos httpd n req s _ v).1

  abbrev pub StreamRun : Pool rtos httpd → Pool rtos httpd → Type 0
  StreamRun start s =
      PoolRun rtos httpd stream_call led_client_connected led_client_disconnected start s

  abbrev pub LogRun : Pool rtos httpd → Pool rtos httpd → Type 0
  LogRun start s = PoolRun rtos httpd (log_get_handler rtos httpd) (λ led. led) (λ led. led) start s

  module _ (n : ℕ) where
    pub stream-PoolOk :
        {start s : Pool rtos httpd}
        → IsNew rtos httpd n start
        → StreamRun start s
        → PoolOk rtos httpd n s
    stream-PoolOk i run =
        PoolRun-PoolOk rtos httpd n stream_call led_client_connected led_client_disconnected
          (stream_call-PoolOk n) i run

    -- Whether a request finds a worker that is left for it.
    abbrev pub room_for : Req → Pool rtos httpd → Bool
    room_for req s =
        is_ok (httpd_req_async_handler_begin req s.dev).0
        && ltb (length (items s.request_queue) + total busy s.workers) n

    -- The handler returns ESP_OK, and has queued the request where there is room.
    abbrev pub Handled : Req → Pool rtos httpd → EspErr × Pool rtos httpd → Type 0
    Handled req s t =
        (t.0 ≡ esp_ok)
        × (length (items t.1.request_queue) ≡ (
            if room_for req s
            then suc (length (items s.request_queue))
            else length (items s.request_queue)))

    -- What the queueing function returns.
    abbrev pub queue_result : Req → Pool rtos httpd → EspErr
    queue_result req s =
        if not (is_ok (httpd_req_async_handler_begin req s.dev).0)
        then (httpd_req_async_handler_begin req s.dev).0
        else if ltb (length (items s.request_queue) + total busy s.workers) n
        then esp_ok
        else err_not_finished

  log_get_handler-PoolOk :
      (req : Req) (s : Pool rtos httpd)
      → PoolOk rtos httpd 1 s
      → PoolOk rtos httpd 1 (log_get_handler rtos httpd req s).1
  unfolding log_get_handler
  log_get_handler-PoolOk req s v =
      or_reply-PoolOk 1 _ _ req _ (take_first_queue-PoolOk rtos httpd 1 req s v).1

  log-PoolOk :
      {start s : Pool rtos httpd}
      → IsNew rtos httpd 1 start
      → LogRun start s
      → PoolOk rtos httpd 1 s
  log-PoolOk i run =
      PoolRun-PoolOk rtos httpd 1 (log_get_handler rtos httpd) (λ led. led) (λ led. led)
        log_get_handler-PoolOk i run

  -- One worker: at most one request is queued or served, and a second one is refused before a copy
  -- of it is made.
  abbrev pub OneAtATime : Req → Pool rtos httpd → Type 0
  OneAtATime req s =
      (length (items s.request_queue) + total serving s.workers ≤ 1)
      × ((take_first_queue rtos httpd req s).0 ≡ (
          if ltb 0 (length (items s.request_queue) + total busy s.workers)
          then err_not_finished
          else (httpd_req_async_handler_begin req s.dev).0))

  pub one_at_a_time : (req : Req) (s : Pool rtos httpd) → PoolOk rtos httpd 1 s → OneAtATime req s
  one_at_a_time req s v = (
    omega (arith, v.token.tokens, total_serving-le s.workers),
    ground (arith, (take_first_queue-PoolOk rtos httpd 1 req s v).0, v.token.tokens),
  )

  -- GET /log has one worker. In every state that is reached, at most one request is queued or served;
  -- queueing a further GET /log fails with ESP_ERR_NOT_FINISHED exactly while one is queued or the
  -- worker has not signalled, or else returns what the server returns for the copy.
  pub one_log_client :
      {start s : Pool rtos httpd} (req : Req)
      → IsNew rtos httpd 1 start
      → LogRun start s
      → OneAtATime req s
  one_log_client {start} {s} req i run = one_at_a_time req s (log-PoolOk i run)
