-- ===== src/Ota/Server/Admission.antt =====
-- How the handlers, the timer and the worker of main/ota_update.c interleave, and the token they
-- pass round.
use esp32_wifi_gnss.Prelude.{
  ℕ, ◌≡◌, inl, inr, ap, ◌∙◌, Bool, true, not, Option, none, some, Bytes, ℤ, [], length, ltb, ◌==◌,
  Bool-cases, either, Option-cases, arith,
}
use esp32_wifi_gnss.Rtos.{Rtos}
use esp32_wifi_gnss.Esp.{EspErr, is_ok}
use esp32_wifi_gnss.Ota.Board.{Board}
use esp32_wifi_gnss.Ota.Flash.{AsyncRequest, flash_receive}
use esp32_wifi_gnss.Ota.Server.{
  OtaServer, confirmation_timeout_callback, restart_schedule, request_send, request_queue,
  flash_post_queue, flash_post_slot, flash_post_handler, status_get_handler, restart_callback,
  confirm_post_handler, rollback_post_handler, worker_signal, worker_take, worker_complete,
  worker_serve, reply,
}
use esp32_wifi_gnss.Ota.Host.{Request, Phase, starting, waiting, serving, Host}
use esp32_wifi_gnss.Ota.Header.{sha256_header_parse}
use esp32_wifi_gnss.Rtos.Token.{Token, refused-Token, given_back-Token, sent-Token, empty-of_length}

-- A worker at the head of its loop or at work holds the token.
abbrev pub busy : Phase → ℕ
busy starting = 1
busy waiting = 0
busy (serving req) = 1

module _ (rtos : Rtos) (board : Board) (host : Host board) where
  open rtos use {
    Queue, Semaphore, items, capacity, count, limit, send, receive, take_sem, give_sem,
    receive-items, taken, count-take, limit-take, count-give, limit-give, sent-send, capacity-send,
    items-send,
  }

  abbrev Server : Type 0
  Server = OtaServer rtos board host

  pub data ServerStep (s : Server) : Server → Type 0 where
    post_flash : (req : Request) → ServerStep s (flash_post_handler rtos board host req s).1
    get_status : (version : Bytes) → ServerStep s (status_get_handler rtos board host version s).1
    post_confirm : ServerStep s (confirm_post_handler rtos board host s).1
    post_rollback : ServerStep s (rollback_post_handler rtos board host s).1
    restart_fires : ServerStep s (restart_callback rtos board host s)
    confirmation_times_out : ServerStep s (confirmation_timeout_callback rtos board host s)
    worker_signals : s.phase ≡ starting → ServerStep s (worker_signal rtos board host s)
    worker_takes : s.phase ≡ waiting → ServerStep s (worker_take rtos board host s)
    worker_serves :
        (req : AsyncRequest)
        → s.phase ≡ serving req
        → ServerStep s (worker_serve rtos board host req s)

  abbrev pub OneUpload : Server → Type 0
  OneUpload s = Token rtos 1 s.worker_ready s.request_queue (busy s.phase)

  request_queue-OneUpload :
      (req : AsyncRequest) (s : Server)
      → OneUpload s
      → OneUpload (request_queue rtos board host req s).1
  unfolding request_queue request_send
  request_queue-OneUpload req s v = elim (Bool-cases (take_sem s.worker_ready).0) [
    | inr missed ↦ rw (missed, request_queue) (refused-Token rtos 1 _ _ _ v missed)
    | inl got ↦ elim (Bool-cases (is_ok (host.httpd_req_async_handler_begin s.dev).0)) [
      | inl ok ↦
          let k = sent-Token rtos 1 s.worker_ready s.request_queue (busy s.phase) req v got in
          rw (got, ok, k.0, request_queue, request_send) k.1
      | inr bad ↦ rw (got, bad, request_queue) (given_back-Token rtos 1 _ _ _ v got)
    ]
  ]

  -- A reply, a reboot and the flags leave the token where it is.
  abbrev Safe : EspErr × Server → Type 0
  Safe r = OneUpload r.1

  flash_post_slot-OneUpload :
      (req : Request) (expected : Bytes) (s : Server)
      → OneUpload s
      → Safe (flash_post_slot rtos board host req expected s)
  unfolding flash_post_slot flash_post_queue
  flash_post_slot-OneUpload req expected s v =
      elim (Option-cases (host.esp_ota_get_next_update_partition s.dev)) [
        | inl e ↦ rw (e, flash_post_slot) v
        | inr (slot, e) ↦
            rw (e, flash_post_slot)
              (either Safe (ltb slot.size req.content_len) _ _ v (
                either Safe (is_ok (request_queue rtos board host _ s).0) _ _
                  (request_queue-OneUpload _ s v) (request_queue-OneUpload _ s v)))
      ]

  parsed-OneUpload :
      (req : Request) (s : Server) (m : Option Bytes)
      → OneUpload s
      → Safe (elim m [
        | none ↦
            reply rtos board host
              (some "400 Bad Request")
              "missing or invalid X-Firmware-SHA256 header\n"
              s
        | some expected ↦ flash_post_slot rtos board host req expected s
      ])
  parsed-OneUpload req s none v = v
  parsed-OneUpload req s (some expected) v = flash_post_slot-OneUpload req expected s v

  flash_post_handler-OneUpload :
      (req : Request) (s : Server) → OneUpload s → Safe (flash_post_handler rtos board host req s)
  unfolding flash_post_handler
  flash_post_handler-OneUpload req s v = either Safe s.restart_scheduled _ _ v (
      either Safe s.confirmation_pending _ _ v (
        either Safe (req.content_len == 0) _ _ v
          (parsed-OneUpload req s (sha256_header_parse req.sha256_header) v)))

  restart_schedule-OneUpload :
      (s : Server) → OneUpload s → OneUpload (restart_schedule rtos board host s)
  unfolding restart_schedule
  restart_schedule-OneUpload s v = either OneUpload s.restart_scheduled s _ v v

  taken_over-OneUpload :
      (s : Server) → s.phase ≡ waiting → OneUpload s → OneUpload (worker_take rtos board host s)
  unfolding worker_take
  taken_over-OneUpload s e v = elim (receive-items s.request_queue) [
    | inl (none_left, r) ↦ rw (r, worker_take) v
    | inr (req, q, listed, r, kept) ↦
        rw (r, worker_take)
          (record {
            tokens = omega (arith, ap length listed, v.tokens, ap busy e);
            room = kept ∙ v.room;
            top = v.top;
          })
  ]

  completed-OneUpload :
      (fd : ℤ) (r : EspErr × Bool × board.Dev) (req : AsyncRequest) (s : Server)
      → s.phase ≡ serving req
      → OneUpload s
      → OneUpload (worker_complete rtos board host fd r s)
  unfolding worker_complete
  completed-OneUpload fd (result, restart, d) req s e v =
      let w : Token rtos 1 s.worker_ready s.request_queue 1 = record {
        tokens = omega (arith, v.tokens, ap busy e);
        room = v.room;
        top = v.top;
      } in
      elim (Bool-cases restart) [
        | inl again ↦ rw (again, worker_complete) (restart_schedule-OneUpload _ w)
        | inr done ↦ rw (done, worker_complete) w
      ]

  served-OneUpload :
      (req : AsyncRequest) (s : Server)
      → s.phase ≡ serving req
      → OneUpload s
      → OneUpload (worker_serve rtos board host req s)
  unfolding worker_serve
  served-OneUpload req s e v = elim (Option-cases (flash_receive board req s.dev)) [
    | inl stuck ↦ rw (stuck, worker_serve) v
    | inr (r, done) ↦
        rw (done, worker_serve) (completed-OneUpload (host.httpd_req_to_sockfd s.dev) r req s e v)
  ]

  ServerStep-OneUpload : {s t : Server} → ServerStep s t → OneUpload s → OneUpload t
  unfolding status_get_handler restart_callback confirm_post_handler rollback_post_handler
      confirmation_timeout_callback worker_signal
  ServerStep-OneUpload {s} (post_flash req) v = flash_post_handler-OneUpload req s v
  ServerStep-OneUpload {s} (get_status version) v = v
  ServerStep-OneUpload {s} restart_fires v = v
  ServerStep-OneUpload {s} post_confirm v =
      either Safe (not s.confirmation_pending) _ _ v
        (either Safe (is_ok (host.esp_ota_mark_app_valid_cancel_rollback s.dev).0) _ _ v v)
  ServerStep-OneUpload {s} post_rollback v = either Safe s.restart_scheduled _ _ v (
      either Safe (not (host.esp_ota_check_rollback_is_possible s.dev)) _ _ v (
        either Safe (is_ok (host.esp_ota_mark_app_invalid_rollback s.dev).0) _ _
          (restart_schedule-OneUpload _ v) v))
  ServerStep-OneUpload {s} confirmation_times_out v =
      either OneUpload s.confirmation_pending _ _ v v
  ServerStep-OneUpload {s} (worker_signals e) v = record {
    tokens = ground (arith, v.tokens, ap busy e, count-give s.worker_ready, v.top);
    room = v.room;
    top = limit-give s.worker_ready ∙ v.top;
  }
  ServerStep-OneUpload {s} (worker_takes e) v = taken_over-OneUpload s e v
  ServerStep-OneUpload {s} (worker_serves req e) v = served-OneUpload req s e v

  pub data ServerReach (start : Server) : Server → Type 0 where
    at_start : ServerReach start start
    then_step : {s t : Server} → ServerReach start s → ServerStep s t → ServerReach start t

  -- `xQueueCreate(1, ...)`, `xSemaphoreCreateBinary()` and the start of the task.
  pub record IsStarted (s : Server) : Type 0 where
    pub no_request : items s.request_queue ≡ []
    pub one_place : capacity s.request_queue ≡ 1
    pub empty_semaphore : count s.worker_ready ≡ 0
    pub binary_semaphore : limit s.worker_ready ≡ 1
    pub at_the_head : s.phase ≡ starting

  started-OneUpload : (s : Server) → IsStarted s → OneUpload s
  started-OneUpload s i = record {
    tokens = omega (arith, i.empty_semaphore, ap length i.no_request, ap busy i.at_the_head);
    room = i.one_place;
    top = i.binary_semaphore;
  }

  reached-OneUpload : {start s : Server} → IsStarted start → ServerReach start s → OneUpload s
  reached-OneUpload i at_start = started-OneUpload _ i
  reached-OneUpload i (then_step r step) = ServerStep-OneUpload step (reached-OneUpload i r)

  -- In every state that the handlers, the timer and the worker reach from the start, in any order:
  -- while the worker serves an upload no other one is queued and the semaphore is not available;
  -- and whenever the semaphore can be taken the queue has room, so that sending to it succeeds.
  pub one_upload :
      {start s : Server} (req : AsyncRequest)
      → IsStarted start
      → ServerReach start s
      → (s.phase ≡ serving req → (items s.request_queue ≡ []) × (count s.worker_ready ≡ 0))
        × ((take_sem s.worker_ready).0 ≡ true → (send s.request_queue req).0 ≡ true)
  one_upload {start} {s} req i r =
      let v = reached-OneUpload i r in
      (
        λ e. (
          empty-of_length (items s.request_queue) (omega (arith, v.tokens, ap busy e)),
          omega (arith, v.tokens, ap busy e),
        ),
        λ got. (sent-Token rtos 1 s.worker_ready s.request_queue (busy s.phase) req v got).0,
      )
