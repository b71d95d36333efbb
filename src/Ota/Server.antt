-- ===== src/Ota/Server.antt =====
-- The static variables of main/ota_update.c, its HTTP handlers and the rounds of its worker. The
-- HTTP server runs its handlers in one task; a handler is one step, and so is each stage of the
-- worker's loop. The log lines are left out.
pub mod Header
pub mod Worker
pub mod Admission
pub mod Flag
pub mod Confirmation
use Prim.Native.String.{String}
use esp32_wifi_gnss.Prelude.{
  ℕ, zero, suc, ◌+◌, ◌*◌, Bool, true, false, not, ◌&&◌, ◌||◌, Option, none, some, List, [], ◌∷◌,
  Bytes, text_codes, codes, snprintf, unsigned_text, ◌++◌, ℤ, pos, negsuc, ◌-◌, ◌^◌, ◌%◌, length,
  ltb, leb, ltb_ℤ, ◌==◌, if◌then◌else◌, bit_or, pos_part,
}
use esp32_wifi_gnss.Rtos.{Rtos}
use esp32_wifi_gnss.Esp.{EspErr, esp_ok, esp_fail, err_not_finished, is_ok}
use esp32_wifi_gnss.Ota.Board.{Board, Partition, Reply}
use esp32_wifi_gnss.Ota.Flash.{AsyncRequest, flash_receive}
use esp32_wifi_gnss.Ota.Header.{
  hex_digit_value, header_byte, header_cons, header_bytes, sha256_header_parse,
}
use esp32_wifi_gnss.Ota.Host.{
  Request, Phase, Host, label_of, answer_of, size_of, starting, waiting, serving,
}

module _ (rtos : Rtos) (board : Board) (host : Host board) where
  open rtos use {Queue, Semaphore, send, receive, take_sem, give_sem}
  open board use {Dev, ota_send_text}
  open host use {
    esp_ota_get_running_partition, esp_ota_get_boot_partition, esp_ota_get_next_update_partition,
    esp_ota_check_rollback_is_possible, esp_ota_mark_app_valid_cancel_rollback,
    esp_ota_mark_app_invalid_rollback, httpd_req_async_handler_begin,
    httpd_req_async_handler_complete, httpd_req_to_sockfd, httpd_sess_trigger_close,
    restart_timer_start, confirmation_timer_stop, esp_restart,
  }

  pub record OtaServer : Type 0 where
    pub request_queue : Queue AsyncRequest
    pub worker_ready : Semaphore
    pub confirmation_pending : Bool
    pub restart_scheduled : Bool
    pub phase : Phase
    pub dev : Dev

  abbrev pub reply : Option String → String → OtaServer → EspErr × OtaServer
  reply status text s =
      let (err, d) = ota_send_text (record { status = status; text = text_codes text }) s.dev in
      (err, record s { dev = d })

  unfoldable pub confirmation_timeout_callback : OtaServer → OtaServer
  confirmation_timeout_callback s =
      if s.confirmation_pending then record s { dev = esp_restart s.dev } else s

  unfoldable pub restart_schedule : OtaServer → OtaServer
  restart_schedule s =
      if s.restart_scheduled
      then s
      else let (started, d) = restart_timer_start s.dev in
        record s { restart_scheduled = true; dev = if started then d else esp_restart d }

  -- After the semaphore was taken and the request copied.
  unfoldable pub request_send : AsyncRequest → OtaServer → EspErr × OtaServer
  request_send async_req s =
      let (sent, q) = send s.request_queue async_req in
      if sent then (esp_ok, record s { request_queue = q }) else (
        esp_fail,
        record s {
          request_queue = q;
          worker_ready = give_sem s.worker_ready;
          dev = (httpd_req_async_handler_complete s.dev).1;
        },
      )

  unfoldable pub request_queue : AsyncRequest → OtaServer → EspErr × OtaServer
  unfolding request_send
  request_queue async_req s =
      let (taken, ready) = take_sem s.worker_ready in
      let (err, d) = httpd_req_async_handler_begin s.dev in
      if not taken
      then (err_not_finished, record s { worker_ready = ready })
      else if is_ok err
      then request_send async_req (record s { worker_ready = ready; dev = d })
      else (err, record s { worker_ready = give_sem ready; dev = d })

  -- The last part of `ota_flash_post_handler`, for a request that has passed its checks.
  unfoldable pub flash_post_queue : AsyncRequest → OtaServer → EspErr × OtaServer
  unfolding request_queue
  flash_post_queue async_req s =
      let (err, s') = request_queue async_req s in
      if is_ok err
      then (esp_ok, s')
      else reply (some "409 Conflict") "another firmware upload is already active\n" s'

  unfoldable pub flash_post_slot : Request → Bytes → OtaServer → EspErr × OtaServer
  unfolding flash_post_queue
  flash_post_slot req expected_sha256 s = elim (esp_ota_get_next_update_partition s.dev) [
    | none ↦
        reply (some "503 Service Unavailable") "no inactive OTA application slot is available\n" s
    | some update_partition ↦
        if ltb update_partition.size req.content_len
        then reply (some "413 Content Too Large")
            "firmware image does not fit the inactive OTA slot\n" s
        else flash_post_queue
            (record {
              content_len = req.content_len;
              update_partition = update_partition;
              expected_sha256 = expected_sha256;
            })
            s
  ]

  unfoldable pub flash_post_handler : Request → OtaServer → EspErr × OtaServer
  unfolding sha256_header_parse flash_post_slot
  flash_post_handler req s =
      if s.restart_scheduled
      then reply (some "409 Conflict") "a reboot is already scheduled\n" s
      else if s.confirmation_pending
      then reply (some "409 Conflict")
          "confirm or roll back the running firmware before another update\n" s
      else if req.content_len == 0
      then reply (some "411 Length Required")
          "POST /flash requires a non-empty Content-Length body\n" s
      else elim (sha256_header_parse req.sha256_header) [
        | none ↦ reply (some "400 Bad Request") "missing or invalid X-Firmware-SHA256 header\n" s
        | some expected_sha256 ↦ flash_post_slot req expected_sha256 s
      ]

  -- `response` of 256 bytes; `version` is what `app_version_string` returns.
  unfoldable pub status_text : Bytes → OtaServer → Bytes
  status_text version s =
      let next = esp_ota_get_next_update_partition s.dev in
      snprintf 256 (
        codes "version="
        ++ version
        ++ (codes "\nrunning=" ++ label_of (esp_ota_get_running_partition s.dev))
        ++ (codes "\nboot=" ++ label_of (esp_ota_get_boot_partition s.dev))
        ++ (codes "\nconfirmation_pending=" ++ answer_of s.confirmation_pending)
        ++ (codes "\nrollback_possible=" ++ answer_of (esp_ota_check_rollback_is_possible s.dev))
        ++ (codes "\nnext_slot=" ++ label_of next)
        ++ (codes "\nnext_slot_bytes=" ++ unsigned_text (size_of next))
        ++ codes "\n")

  unfoldable pub status_get_handler : Bytes → OtaServer → EspErr × OtaServer
  unfolding status_text
  status_get_handler version s =
      let (err, d) = ota_send_text (record { status = none; text = status_text version s }) s.dev in
      (err, record s { dev = d })

  unfoldable pub restart_callback : OtaServer → OtaServer
  restart_callback s = record s { dev = esp_restart s.dev }

  unfoldable pub confirm_post_handler : OtaServer → EspErr × OtaServer
  confirm_post_handler s =
      if not s.confirmation_pending
      then reply (some "409 Conflict") "running firmware is not awaiting confirmation\n" s
      else let (err, d) = esp_ota_mark_app_valid_cancel_rollback s.dev in
        if is_ok err
        then reply none "running firmware confirmed\n"
            (record s { confirmation_pending = false; dev = confirmation_timer_stop d })
        else reply (some "500 Internal Server Error") "failed to confirm running firmware\n"
            (record s { dev = d })

  unfoldable pub rollback_post_handler : OtaServer → EspErr × OtaServer
  unfolding restart_schedule
  rollback_post_handler s =
      if s.restart_scheduled
      then reply (some "409 Conflict") "a reboot is already scheduled\n" s
      else if not (esp_ota_check_rollback_is_possible s.dev)
      then reply (some "409 Conflict") "no older bootable OTA image is available\n" s
      else let (err, d) = esp_ota_mark_app_invalid_rollback s.dev in
        let (response_err, s') =
          reply none "rollback selected; rebooting\n" (record s { dev = d }) in
        if is_ok err
        then (response_err, restart_schedule s')
        else reply (some "500 Internal Server Error") "failed to select rollback firmware\n"
            (record s { dev = d })

  -- The worker signals that it is ready.
  unfoldable pub worker_signal : OtaServer → OtaServer
  worker_signal s = record s { worker_ready = give_sem s.worker_ready; phase = waiting }

  -- It takes a request; it waits while there is none.
  unfoldable pub worker_take : OtaServer → OtaServer
  worker_take s = elim (receive s.request_queue) [
    | none ↦ s
    | some (async_req, q) ↦ record s { request_queue = q; phase = serving async_req }
  ]

  -- After `ota_flash_receive`: the request is completed, and then a reboot is scheduled, or the
  -- session closed.
  unfoldable pub worker_complete : ℤ → EspErr × Bool × Dev → OtaServer → OtaServer
  unfolding restart_schedule
  worker_complete socket_fd (result, restart_required, d) s =
      let d' = (httpd_req_async_handler_complete d).1 in
      if restart_required
      then restart_schedule (record s { phase = starting; dev = d' })
      else record s {
        phase = starting;
        dev =
            if not (is_ok result) && not (ltb_ℤ socket_fd (pos 0))
            then httpd_sess_trigger_close socket_fd d'
            else d';
      }

  -- The loop's work on a request.
  unfoldable pub worker_serve : AsyncRequest → OtaServer → OtaServer
  unfolding flash_receive worker_complete
  worker_serve async_req s = elim (flash_receive board async_req s.dev) [
    | none ↦ s
    | some r ↦ worker_complete (httpd_req_to_sockfd s.dev) r s
  ]
