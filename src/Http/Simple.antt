-- ===== src/Http/Simple.antt =====
-- The interface of the server can be met: a request is its length, and the server counts its copies.
use esp32_wifi_gnss.Prelude.{ℕ, suc, ◌-◌, refl}
use esp32_wifi_gnss.Esp.{esp_ok}
use esp32_wifi_gnss.Http.Httpd.{Httpd}

abbrev pub simple_httpd : Httpd
simple_httpd = record {
  Req = ℕ;
  Dev = ℕ;
  content_len = λ r. r;
  httpd_req_async_handler_begin = λ r d. (esp_ok, r, suc d);
  httpd_req_async_handler_complete = λ r d. (esp_ok, d - 1);
  httpd_reply = λ status text r d. (esp_ok, d);
  open_copies = λ d. d;
  open-begin = λ r d. refl;
  open-complete = λ r d. refl;
  open-reply = λ status text r d. refl;
}
