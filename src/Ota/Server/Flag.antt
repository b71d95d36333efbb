-- ===== src/Ota/Server/Flag.antt =====
-- Which calls of main/ota_update.c leave `s_confirmation_pending` as it is.
use esp32_wifi_gnss.Prelude.{
  ◌≡◌, ◌⊎◌, inl, inr, refl, true, not, Option, none, some, Bytes, ltb, ◌==◌, Option-cases, either,
  on_test, arith,
}
use esp32_wifi_gnss.Rtos.{Rtos}
use esp32_wifi_gnss.Esp.{EspErr, is_ok}
use esp32_wifi_gnss.Ota.Board.{Board}
use esp32_wifi_gnss.Ota.Flash.{AsyncRequest, flash_receive}
use esp32_wifi_gnss.Ota.Server.{
  OtaServer, restart_schedule, request_send, request_queue, flash_post_queue, flash_post_slot,
  flash_post_handler, confirm_post_handler, worker_take, worker_complete, worker_serve, reply,
}
use esp32_wifi_gnss.Ota.Host.{Request, Host}
use esp32_wifi_gnss.Ota.Header.{sha256_header_parse}

module _ (rtos : Rtos) (board : Board) (host : Host board) where
  open rtos use {Queue, items, receive, receive-items, take_sem}

  abbrev Server : Type 0
  Server = OtaServer rtos board host

  -- The image waits, and `esp_ota_mark_app_valid_cancel_rollback` succeeds.
  abbrev pub MarksValid : Server → Type 0
  MarksValid s =
      (s.confirmation_pending ≡ true)
      × (is_ok (host.esp_ota_mark_app_valid_cancel_rollback s.dev).0 ≡ true)

  abbrev pub Same : Server → Server → Type 0
  Same s t = t.confirmation_pending ≡ s.confirmation_pending

  abbrev pub Keeps : Server → EspErr × Server → Type 0
  Keeps s r = Same s r.1

  pub request_queue-Same :
      (req : AsyncRequest) (s : Server) → Keeps s (request_queue rtos board host req s)
  unfolding request_queue request_send
  request_queue-Same req s = either (Keeps s) (not (take_sem s.worker_ready).0) _ _ refl (
      either (Keeps s) (is_ok (host.httpd_req_async_handler_begin s.dev).0) _ _
        (either (Keeps s) (rtos.send s.request_queue req).0 _ _ refl refl) refl)

  pub flash_post_slot-Same :
      (req : Request) (expected : Bytes) (s : Server)
      → Keeps s (flash_post_slot rtos board host req expected s)
  unfolding flash_post_slot flash_post_queue
  flash_post_slot-Same req expected s =
      elim (Option-cases (host.esp_ota_get_next_update_partition s.dev)) [
        | inl e ↦ rw (e, flash_post_slot) refl
        | inr (slot, e) ↦
            let wanted : AsyncRequest = record {
              content_len = req.content_len;
              update_partition = slot;
              expected_sha256 = expected;
            } in
            rw (e, flash_post_slot)
              (either (Keeps s) (ltb slot.size req.content_len) _ _ refl (
                either (Keeps s) (is_ok (request_queue rtos board host wanted s).0) _ _
                  (request_queue-Same wanted s) (request_queue-Same wanted s)))
      ]

  pub parsed-Same :
      (req : Request) (s : Server) (m : Option Bytes)
      → Keeps s (elim m [
        | none ↦
            reply rtos board host
              (some "400 Bad Request")
              "missing or invalid X-Firmware-SHA256 header\n"
              s
        | some expected ↦ flash_post_slot rtos board host req expected s
      ])
  parsed-Same req s none = refl
  parsed-Same req s (some expected) = flash_post_slot-Same req expected s

  pub flash_post_handler-Same :
      (req : Request) (s : Server) → Keeps s (flash_post_handler rtos board host req s)
  unfolding flash_post_handler
  flash_post_handler-Same req s = either (Keeps s) s.restart_scheduled _ _ refl (
      either (Keeps s) s.confirmation_pending _ _ refl (
        either (Keeps s) (req.content_len == 0) _ _ refl
          (parsed-Same req s (sha256_header_parse req.sha256_header))))

  pub restart_schedule-Same : (s : Server) → Same s (restart_schedule rtos board host s)
  unfolding restart_schedule
  restart_schedule-Same s = either (Same s) s.restart_scheduled _ _ refl refl

  pub worker_take-Same : (s : Server) → Same s (worker_take rtos board host s)
  unfolding worker_take
  worker_take-Same s = elim (Option-cases (receive s.request_queue)) [
    | inl e ↦ rw (e, worker_take) refl
    | inr ((req, q), e) ↦ rw (e, worker_take) refl
  ]

  pub worker_serve-Same :
      (req : AsyncRequest) (s : Server) → Same s (worker_serve rtos board host req s)
  unfolding worker_serve worker_complete
  worker_serve-Same req s = elim (Option-cases (flash_receive board req s.dev)) [
    | inl stuck ↦ rw (stuck, worker_serve) refl
    | inr ((result, restart, d), done) ↦
        rw (done, worker_serve) (either (Same s) restart _ _ (restart_schedule-Same _) refl)
  ]

  pub confirm-cases : (s : Server) → MarksValid s ⊎ Keeps s (confirm_post_handler rtos board host s)
  unfolding confirm_post_handler
  confirm-cases s =
      on_test P (not s.confirmation_pending) _ _ (λ _. inr refl)
        (λ waits.
          on_test P (is_ok (host.esp_ota_mark_app_valid_cancel_rollback s.dev).0) _ _
            (λ ok. inl (ground (arith, waits), ok)) (λ _. inr refl))
    where
      P : EspErr × Server → Type 0
      P r = MarksValid s ⊎ Keeps s r
