-- ===== src/Ota/Tests.antt =====
-- The theorems on the firmware upload at a concrete board, kernel and requests.
use esp32_wifi_gnss.Prelude.{
  ℕ, ◌<◌, ◌≡◌, refl, true, false, none, some, Option, List, [], ◌∷◌, codes, pos, replicate,
  every-All, ltb, arith, Bool,
}
use esp32_wifi_gnss.Rtos.Simple.{simple}
use esp32_wifi_gnss.Esp.{EspErr, esp_ok}
use esp32_wifi_gnss.Socket.{Received, timed_out, data_in}
use esp32_wifi_gnss.Ota.Board.{Partition}
use esp32_wifi_gnss.Ota.Scripted.{Scripted, scripted}
use esp32_wifi_gnss.Ota.Flash.{
  AsyncRequest, same_bytes, flash_select, flash_end, flash_compare, flash_finish, flash_write,
  flash_round, flash_loop, flash_begin, flash_setup, flash_cleanup, flash_receive,
}
use esp32_wifi_gnss.Ota.Flash.Outcome.{Flashed}
use esp32_wifi_gnss.Ota.Flash.Loop.{flash_receive-Flashed}
use esp32_wifi_gnss.Ota.Server.{
  confirm_post_handler, OtaServer, flash_post_handler, worker_signal, worker_serve,
}
use esp32_wifi_gnss.Ota.Host.{Request, Host, starting, serving}
use esp32_wifi_gnss.Ota.Header.{sha256_header_parse}
use esp32_wifi_gnss.Ota.Server.Header.{hex_text, sha256_header_parse-hex_text}
use esp32_wifi_gnss.Ota.Server.Confirmation.{Life, waits_until_confirmed}
use esp32_wifi_gnss.Ota.Server.Admission.{
  post_confirm, IsStarted, ServerReach, at_start, then_step, worker_signals, post_flash, one_upload,
}
use esp32_wifi_gnss.Ota.Server.Worker.{
  Queued, Served, flash_post_handler-Queued, worker_serve-restart,
}

abbrev slot : Partition
slot = record { address = 2; size = 100; label = codes "ota_1" }

abbrev upload : AsyncRequest
upload = record { content_len = 5; update_partition = slot; expected_sha256 = replicate 32 5 }

abbrev board_with : List Received → Scripted
board_with script = record {
  shown = record { boot = 1; hash = none; session = none; received = []; replies = [] };
  script = script;
}

-- Two timeouts in a row do not end the upload.
abbrev patient : Scripted
patient = board_with (data_in (1 ∷ 2 ∷ []) ∷ timed_out ∷ timed_out ∷ data_in (3 ∷ 4 ∷ 5 ∷ []) ∷ [])

abbrev boot_after : Option (EspErr × Bool × Scripted) → Option (EspErr × Bool × ℕ)
boot_after none = none
boot_after (some (err, restart, d)) = some (err, restart, d.shown.boot)

patient-upload : boot_after (flash_receive scripted upload patient) ≡ some (esp_ok, true, 2)
unfolding same_bytes flash_select flash_end flash_compare flash_finish flash_write flash_round
    flash_loop flash_begin flash_setup flash_cleanup flash_receive
patient-upload = refl

-- The third timeout does; the result is ESP_OK, so that the worker leaves the session open.
timed_out_upload :
    boot_after (flash_receive scripted upload (board_with (timed_out ∷ timed_out ∷ timed_out ∷ [])))
    ≡ some (esp_ok, false, 1)
unfolding same_bytes flash_select flash_end flash_compare flash_finish flash_write flash_round
    flash_loop flash_begin flash_setup flash_cleanup flash_receive
timed_out_upload = refl

flash_receive-Flashed_example :
    (r : EspErr × Bool × Scripted) × (flash_receive scripted upload patient ≡ some r)
    × Flashed scripted upload patient.shown r
flash_receive-Flashed_example = flash_receive-Flashed scripted upload patient refl refl

sha256_header_parse-hex_text_example :
    sha256_header_parse (some (hex_text false (replicate 32 171))) ≡ some (replicate 32 171)
sha256_header_parse-hex_text_example =
    sha256_header_parse-hex_text false (replicate 32 171) refl
      (every-All (λ x. x < 256) (λ x. ltb x 256) (λ x h. ground arith) (replicate 32 171) refl)

abbrev host : Host scripted
host = record {
  esp_ota_get_running_partition = λ d. some slot;
  esp_ota_get_boot_partition = λ d. some slot;
  esp_ota_get_next_update_partition = λ d. some slot;
  esp_ota_check_rollback_is_possible = λ d. true;
  esp_ota_mark_app_valid_cancel_rollback = λ d. (esp_ok, d);
  esp_ota_mark_app_invalid_rollback = λ d. (esp_ok, d);
  httpd_req_async_handler_begin = λ d. (esp_ok, d);
  httpd_req_async_handler_complete = λ d. (esp_ok, d);
  httpd_req_to_sockfd = λ d. pos 54;
  httpd_sess_trigger_close = λ fd d. d;
  restart_timer_start = λ d. (true, d);
  confirmation_timer_stop = λ d. d;
  esp_restart = λ d. d;
}

abbrev idle : OtaServer simple scripted host
idle = record {
  request_queue = record { held = []; room = 1 };
  worker_ready = record { available = 0; top = 1 };
  confirmation_pending = false;
  restart_scheduled = false;
  phase = starting;
  dev = patient;
}

abbrev post : Request
post = record { content_len = 5; sha256_header = some (hex_text true (replicate 32 5)) }

abbrev ready : OtaServer simple scripted host
ready = worker_signal simple scripted host idle

flash_post_handler-Queued_example :
    Queued simple scripted host post ready (flash_post_handler simple scripted host post ready).1
flash_post_handler-Queued_example = flash_post_handler-Queued simple scripted host post ready

idle-IsStarted : IsStarted simple scripted host idle
idle-IsStarted = record {
  no_request = refl;
  one_place = refl;
  empty_semaphore = refl;
  binary_semaphore = refl;
  at_the_head = refl;
}

abbrev posted : OtaServer simple scripted host
posted = (flash_post_handler simple scripted host post ready).1

posted-Reach : ServerReach simple scripted host idle posted
posted-Reach = then_step (then_step at_start (worker_signals refl)) (post_flash post)

one_upload_example :
    (posted.phase ≡ serving upload
      → (simple.items posted.request_queue ≡ []) × (simple.count posted.worker_ready ≡ 0))
    × ((simple.take_sem posted.worker_ready).0 ≡ true
        → (simple.send posted.request_queue upload).0 ≡ true)
one_upload_example = one_upload simple scripted host upload idle-IsStarted posted-Reach

worker_serve-restart_example :
    (r : EspErr × Bool × Scripted) × (flash_receive scripted upload patient ≡ some r)
    × Flashed scripted upload patient.shown r
    × Served simple scripted host idle r (worker_serve simple scripted host upload idle)
worker_serve-restart_example = worker_serve-restart simple scripted host upload idle refl refl

-- A new image after its start: an upload is refused, and then the image is confirmed.
abbrev unconfirmed : OtaServer simple scripted host
unconfirmed = record idle { confirmation_pending = true }

unconfirmed-IsStarted : IsStarted simple scripted host unconfirmed
unconfirmed-IsStarted = record {
  no_request = refl;
  one_place = refl;
  empty_semaphore = refl;
  binary_semaphore = refl;
  at_the_head = refl;
}

confirmed-Reach :
    ServerReach simple scripted host unconfirmed
      (confirm_post_handler simple scripted host
        (flash_post_handler simple scripted host post
          (worker_signal simple scripted host unconfirmed)).1).1
confirmed-Reach =
    then_step (then_step (then_step at_start (worker_signals refl)) (post_flash post)) post_confirm

waits_until_confirmed_example : Life simple scripted host confirmed-Reach
waits_until_confirmed_example =
    waits_until_confirmed simple scripted host unconfirmed-IsStarted refl confirmed-Reach
