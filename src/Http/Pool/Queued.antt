-- ===== src/Http/Pool/Queued.antt =====
-- What the handlers of GET /stream and GET /view do to the queue of requests.
use Prim.Native.String.{String}
use esp32_wifi_gnss.Prelude.{
  suc, ◌≡◌, refl, sym, ap, ◌∙◌, [], ◌∷◌, either, on_test, length-append, length, arith, some, not,
  if◌then◌else◌,
}
use esp32_wifi_gnss.Rtos.{Rtos, items-send_room, items-send_full}
use esp32_wifi_gnss.Esp.{EspErr, esp_ok, is_ok}
use esp32_wifi_gnss.Http.Httpd.{Httpd}
use esp32_wifi_gnss.Http.Pool.{AsyncCall, Pool, pool_send, stream_request_queue, or_reply}

module _ (rtos : Rtos) (httpd : Httpd) where
  open rtos use {items, send, sent-send, take_sem}
  open httpd use {Req, httpd_req_async_handler_begin}

  -- The queue has grown exactly where the result is ESP_OK.
  abbrev pub Grown : Pool rtos httpd → EspErr × Pool rtos httpd → Type 0
  Grown s t =
      length (items t.1.request_queue)
      ≡ (if is_ok t.0 then suc (length (items s.request_queue)) else length (items s.request_queue))

  pub queue-Grown :
      (content_type : String) (req : Req) (s : Pool rtos httpd)
      → Grown s (stream_request_queue rtos httpd content_type req s)
  unfolding stream_request_queue pool_send
  queue-Grown content_type req s =
      let (err, copy, d) = httpd_req_async_handler_begin req s.dev in
      let r : AsyncCall Req = record { req = copy; content_type = some content_type } in
      let q = s.request_queue in
      on_test (Grown s) (not (is_ok err)) _ _ (λ failed. ground (arith, failed))
        (λ copied. either (Grown s) (not (take_sem s.worker_ready).0) _ _ refl (
          on_test (Grown s) (send q r).0 _ _
            (λ sent.
              ap length (items-send_room rtos q r (sym (sent-send q r) ∙ sent))
              ∙ omega (arith, length-append (items q) (r ∷ [])))
            (λ full. ap length (items-send_full rtos q r (sym (sent-send q r) ∙ full)))))

  -- A handler returns ESP_OK in any case, and leaves the queue as the queueing has left it.
  pub answered :
      (status text : String) (req : Req) (s : Pool rtos httpd) (t : EspErr × Pool rtos httpd)
      → Grown s t
      → let u = or_reply rtos httpd status text req t in
        (u.0 ≡ esp_ok)
        × (length (items u.1.request_queue) ≡ (
            if is_ok t.0
            then suc (length (items s.request_queue))
            else length (items s.request_queue)))
  answered status text req s (err, t) g =
      either
        (λ (u : EspErr × Pool rtos httpd).
          (u.0 ≡ esp_ok)
          × (length (items u.1.request_queue) ≡ (
              if is_ok err
              then suc (length (items s.request_queue))
              else length (items s.request_queue))))
        (is_ok err) _ _ (refl, g) (refl, g)
