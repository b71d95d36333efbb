-- ===== src/Http/Pool/Indicator.antt =====
-- The number of connected clients that main/generic_task.c shows, against the stream workers.
use Prim.Native.String.{String}
use esp32_wifi_gnss.Prelude.{ℕ, ◌≡◌}
use esp32_wifi_gnss.Rtos.{Rtos}
use esp32_wifi_gnss.Esp.{EspErr}
use esp32_wifi_gnss.Led.{Led}
use esp32_wifi_gnss.Http.Httpd.{Httpd}
use esp32_wifi_gnss.Http.Pool.{Pool}
use esp32_wifi_gnss.Http.Pool.Count.{serving, total}

module _ (rtos : Rtos) (httpd : Httpd) where
  open rtos use {items, count, send, take_sem, receive, receive-items}
  open httpd use {Req, httpd_req_async_handler_begin}

  -- A call changes neither the indicator nor a worker.
  abbrev Parts : Pool rtos httpd → EspErr × Pool rtos httpd → Type 0
  Parts s t = (t.1.led ≡ s.led) × (t.1.workers ≡ s.workers)

  module _ (n : ℕ) where
    abbrev IndicatorOk : Pool rtos httpd → Type 0
    IndicatorOk s = s.led.connected_client_count ≡ total serving s.workers
