-- ===== src/Http/Httpd.antt =====
-- What the handlers and workers use of the HTTP server of ESP-IDF. A request that is handed to a
-- worker is a copy, which the worker gives back: `open_copies` counts the copies that are out.
use Prim.Native.String.{String}
use esp32_wifi_gnss.Prelude.{ℕ, suc, ◌-◌, ◌≡◌, Option, if◌then◌else◌}
use esp32_wifi_gnss.Esp.{EspErr, is_ok}

pub record Httpd : Type 1 where
  pub Req : Type 0
  pub Dev : Type 0
  pub content_len : Req → ℕ
  pub httpd_req_async_handler_begin : Req → Dev → EspErr × Req × Dev
  pub httpd_req_async_handler_complete : Req → Dev → EspErr × Dev
  -- The status, if one is set, and the text, with httpd_resp_sendstr's result.
  pub httpd_reply : Option String → String → Req → Dev → EspErr × Dev
  pub open_copies : Dev → ℕ
  pub open-begin :
      (r : Req) (d : Dev)
      → open_copies (httpd_req_async_handler_begin r d).2 ≡ (
          if is_ok (httpd_req_async_handler_begin r d).0
          then suc (open_copies d)
          else open_copies d)
  pub open-complete :
      (r : Req) (d : Dev) → open_copies (httpd_req_async_handler_complete r d).1 ≡ open_copies d - 1
  pub open-reply :
      (status : Option String) (text : String) (r : Req) (d : Dev)
      → open_copies (httpd_reply status text r d).1 ≡ open_copies d
