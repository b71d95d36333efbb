-- ===== src/Http/Pool/Tests.antt =====
-- Concrete pools.
use esp32_wifi_gnss.Prelude.{ℕ, refl, false, [], replicate, arith}
use esp32_wifi_gnss.Rtos.Simple.{simple}
use esp32_wifi_gnss.Led.{led_client_connected}
use esp32_wifi_gnss.Http.Simple.{simple_httpd}
use esp32_wifi_gnss.Http.Pool.{
  Pool, at_head, pool_signal, pool_take, read_get_handler, log_get_handler,
}
use esp32_wifi_gnss.Http.Pool.Steps.{IsNew, handles, signals, stays, moves}
use esp32_wifi_gnss.Http.Pool.Clients.{LogRun, OneAtATime, one_log_client}

abbrev pub fresh : ℕ → Pool simple simple_httpd
fresh n = record {
  request_queue = record { held = []; room = n };
  worker_ready = record { available = 0; top = n };
  workers = replicate n at_head;
  led = record {
    connected_client_count = 0;
    pending_packet_toggles = 0;
    led_on = false;
    levels = [];
  };
  dev = 0;
}

pub fresh-IsNew : (n : ℕ) → IsNew simple simple_httpd n (fresh n)
fresh-IsNew n = record {
  no_request = refl;
  places = refl;
  none_ready = refl;
  bound = refl;
  all_starting = refl;
  no_client = refl;
  no_copy = refl;
}

-- Worker 1 signals, a request comes, and the worker takes it.
abbrev one_served : Pool simple simple_httpd
one_served =
    pool_take simple simple_httpd led_client_connected 1
      (read_get_handler simple simple_httpd 0 (pool_signal simple simple_httpd 1 (fresh 2))).1

abbrev one_reader : Pool simple simple_httpd
one_reader = (log_get_handler simple simple_httpd 0 (pool_signal simple simple_httpd 0 (fresh 1))).1

one_reader-LogRun : LogRun simple simple_httpd (fresh 1) one_reader
one_reader-LogRun = moves (handles 0) (moves (signals 0 (omega arith) refl) stays)

one_log_client_example : OneAtATime simple simple_httpd 0 one_reader
one_log_client_example = one_log_client simple simple_httpd 0 (fresh-IsNew 1) one_reader-LogRun
