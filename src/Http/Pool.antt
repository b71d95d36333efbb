-- ===== src/Http/Pool.antt =====
-- The workers that the handlers of main/http_stream.c and main/log_stream.c hand their requests to:
-- a queue of requests, a semaphore that counts the ready workers, and the stage of each worker's
-- loop. `enter` and `leave` are what a worker does to the indicator before and after it serves.
pub mod Count
pub mod Invariant
pub mod Steps
pub mod Queued
pub mod Clients
pub mod Indicator
pub mod Tests
use Prim.Native.String.{String}
use esp32_wifi_gnss.Prelude.{
  ℕ, zero, suc, ◌+◌, ◌≡◌, Bool, true, false, not, Option, none, some, List, [], ◌∷◌, set, get_or,
  if◌then◌else◌,
}
use esp32_wifi_gnss.Rtos.{Rtos}
use esp32_wifi_gnss.Esp.{EspErr, esp_ok, esp_fail, err_not_finished, is_ok}
use esp32_wifi_gnss.Led.{Led, led_client_connected, led_client_disconnected}
use esp32_wifi_gnss.Http.Httpd.{Httpd}

-- Before the signal, waiting for a request, or serving one.
pub data Stage (R : Type 0) : Type 0 where
  at_head : Stage R
  idle : Stage R
  serves : R → Stage R

-- `http_async_request_t` and `log_async_request_t`, which has no content type.
pub record AsyncCall (R : Type 0) : Type 0 where
  pub req : R
  pub content_type : Option String

module _ (rtos : Rtos) (httpd : Httpd) where
  open rtos use {Queue, Semaphore, send, receive, take_sem, give_sem}
  open httpd use {
    Req, Dev, httpd_req_async_handler_begin, httpd_req_async_handler_complete, httpd_reply,
  }

  pub record Pool : Type 0 where
    pub request_queue : Queue (AsyncCall Req)
    pub worker_ready : Semaphore
    pub workers : List (Stage (AsyncCall Req))
    pub led : Led
    pub dev : Dev

  -- The end of a queueing function, once the semaphore is taken and the request is copied.
  unfoldable pub pool_send : AsyncCall Req → Pool → EspErr × Pool
  pool_send async_req s =
      let (sent, q) = send s.request_queue async_req in
      if sent then (esp_ok, record s { request_queue = q }) else (
        esp_fail,
        record s {
          request_queue = q;
          worker_ready = give_sem s.worker_ready;
          dev = (httpd_req_async_handler_complete async_req.req s.dev).1;
        },
      )

  unfoldable pub stream_request_queue : String → Req → Pool → EspErr × Pool
  unfolding pool_send
  stream_request_queue content_type req s =
      let (err, copy, d) = httpd_req_async_handler_begin req s.dev in
      if not (is_ok err)
      then (err, record s { dev = d })
      else let (got, sem) = take_sem s.worker_ready in
        if not got
        then (
          err_not_finished,
          record s { worker_ready = sem; dev = (httpd_req_async_handler_complete copy d).1 },
        )
        else pool_send (record { req = copy; content_type = some content_type })
            (record s { worker_ready = sem; dev = d })

  -- Where the semaphore is taken before the copy is made: `write_request_queue` and
  -- `log_request_queue` are the same but for the names.
  unfoldable pub take_first_queue : Req → Pool → EspErr × Pool
  unfolding pool_send
  take_first_queue req s =
      let (got, sem) = take_sem s.worker_ready in
      if not got
      then (err_not_finished, record s { worker_ready = sem })
      else let (err, copy, d) = httpd_req_async_handler_begin req s.dev in
        if not (is_ok err)
        then (err, record s { worker_ready = give_sem sem; dev = d })
        else pool_send (record { req = copy; content_type = none })
            (record s { worker_ready = sem; dev = d })

  abbrev pub write_request_queue : Req → Pool → EspErr × Pool
  write_request_queue req s = take_first_queue req s

  abbrev pub log_request_queue : Req → Pool → EspErr × Pool
  log_request_queue req s = take_first_queue req s

  -- A handler replies itself where queueing fails.
  abbrev pub or_reply : String → String → Req → EspErr × Pool → EspErr × Pool
  or_reply status text req (err, s) =
      if is_ok err
      then (esp_ok, s)
      else (esp_ok, record s { dev = (httpd_reply (some status) text req s.dev).1 })

  unfoldable pub read_get_handler : Req → Pool → EspErr × Pool
  unfolding stream_request_queue
  read_get_handler req s =
      or_reply "503 Service Unavailable" "all stream workers are in use\n" req
        (stream_request_queue "application/octet-stream" req s)

  unfoldable pub view_get_handler : Req → Pool → EspErr × Pool
  unfolding stream_request_queue
  view_get_handler req s =
      or_reply "503 Service Unavailable" "all stream workers are in use\n" req
        (stream_request_queue "text/plain" req s)

  unfoldable pub log_get_handler : Req → Pool → EspErr × Pool
  unfolding take_first_queue
  log_get_handler req s =
      or_reply "409 Conflict" "a /log client is already connected\n" req (log_request_queue req s)

  -- Worker `i` gives the semaphore.
  unfoldable pub pool_signal : ℕ → Pool → Pool
  pool_signal i s = record s {
    worker_ready = give_sem s.worker_ready;
    workers = set s.workers i idle;
  }

  -- Worker `i` receives a request; it waits while there is none.
  unfoldable pub pool_take : (Led → Led) → ℕ → Pool → Pool
  pool_take enter i s = elim (receive s.request_queue) [
    | none ↦ s
    | some (async_req, q) ↦ record s {
      request_queue = q;
      workers = set s.workers i (serves async_req);
      led = enter s.led;
    }
  ]

  -- Worker `i` has served its request and gives the copy back.
  unfoldable pub pool_complete : (Led → Led) → ℕ → AsyncCall Req → Pool → Pool
  pool_complete leave i async_req s = record s {
    workers = set s.workers i at_head;
    led = leave s.led;
    dev = (httpd_req_async_handler_complete async_req.req s.dev).1;
  }
