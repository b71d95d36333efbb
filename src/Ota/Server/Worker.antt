-- ===== src/Ota/Server/Worker.antt =====
-- What the handler of POST /flash queues, and what the worker makes of it.
use esp32_wifi_gnss.Prelude.{
  ◌≤◌, ◌≡◌, ◌⊎◌, inl, inr, refl, Bool, false, not, ◌||◌, Option, none, some, Bytes, [], ◌∷◌, ◌++◌,
  length, ltb, ltb_ℤ, pos, true, ◌&&◌, if◌then◌else◌, ◌==◌, either, on_test, ltb→le, Bool-cases,
  arith,
}
use esp32_wifi_gnss.Rtos.{Rtos, items-send_room, items-send_full}
use esp32_wifi_gnss.Esp.{EspErr, is_ok}
use esp32_wifi_gnss.Ota.Board.{Board, Partition}
use esp32_wifi_gnss.Ota.Flash.{AsyncRequest, flash_receive}
use esp32_wifi_gnss.Ota.Flash.Outcome.{Flashed}
use esp32_wifi_gnss.Ota.Flash.Loop.{flash_receive-Flashed}
use esp32_wifi_gnss.Ota.Server.{
  OtaServer, restart_schedule, request_send, request_queue, flash_post_queue, flash_post_slot,
  flash_post_handler, worker_complete, worker_serve, reply,
}
use esp32_wifi_gnss.Ota.Host.{Request, Host, starting}
use esp32_wifi_gnss.Ota.Header.{sha256_header_parse}

module _ (rtos : Rtos) (board : Board) (host : Host board) where
  open rtos use {Queue, items, send, items-send, sent-send, capacity}

  abbrev Server : Type 0
  Server = OtaServer rtos board host

  -- What the queue holds after POST /flash: what it held, or one request more, which fits its slot.
  pub data Queued (req : Request) (s : Server) : Server → Type 0 where
    unchanged : (t : Server) → items t.request_queue ≡ items s.request_queue → Queued req s t
    queued :
        (t : Server) (ar : AsyncRequest)
        → items t.request_queue ≡ items s.request_queue ++ ar ∷ []
        → s.restart_scheduled ≡ false
        → s.confirmation_pending ≡ false
        → 1 ≤ req.content_len
        → ar.content_len ≡ req.content_len
        → ar.content_len ≤ ar.update_partition.size
        → host.esp_ota_get_next_update_partition s.dev ≡ some ar.update_partition
        → sha256_header_parse req.sha256_header ≡ some ar.expected_sha256
        → Queued req s t

  -- Sending adds the request or leaves the queue.
  abbrev Sent : AsyncRequest → Server → EspErr × Server → Type 0
  Sent ar s r =
      (items r.1.request_queue ≡ items s.request_queue)
      ⊎ (items r.1.request_queue ≡ items s.request_queue ++ ar ∷ [])

  send-cases :
      (q : Queue AsyncRequest) (ar : AsyncRequest)
      → (items (send q ar).1 ≡ items q) ⊎ (items (send q ar).1 ≡ items q ++ ar ∷ [])
  send-cases q ar = elim (Bool-cases (ltb (length (items q)) (capacity q))) [
    | inl room ↦ inr (items-send_room rtos q ar room)
    | inr full ↦ inl (items-send_full rtos q ar full)
  ]

  request_queue-Sent :
      (ar : AsyncRequest) (s : Server) → Sent ar s (request_queue rtos board host ar s)
  unfolding request_queue request_send
  request_queue-Sent ar s =
      either (Sent ar s) (not (rtos.take_sem s.worker_ready).0) _ _ (inl refl) (
        either (Sent ar s) (is_ok (host.httpd_req_async_handler_begin s.dev).0) _ _
          (either (Sent ar s) (send s.request_queue ar).0 _ _ (send-cases s.request_queue ar)
            (send-cases s.request_queue ar))
          (inl refl))

  abbrev Good : Request → Server → EspErr × Server → Type 0
  Good req s r = Queued req s r.1

  flash_post_queue-Queued :
      (req : Request) (ar : AsyncRequest) (s : Server)
      → s.restart_scheduled ≡ false
      → s.confirmation_pending ≡ false
      → 1 ≤ req.content_len
      → ar.content_len ≡ req.content_len
      → ar.content_len ≤ ar.update_partition.size
      → host.esp_ota_get_next_update_partition s.dev ≡ some ar.update_partition
      → sha256_header_parse req.sha256_header ≡ some ar.expected_sha256
      → Good req s (flash_post_queue rtos board host ar s)
  unfolding flash_post_queue
  flash_post_queue-Queued req ar s idle confirmed some_body len fits slot parsed =
      let ok = is_ok (request_queue rtos board host ar s).0 in
      elim (request_queue-Sent ar s) [
        | inl same ↦ either (Good req s) ok _ _ (unchanged _ same) (unchanged _ same)
        | inr added ↦
            either (Good req s) ok _ _
              (queued _ ar added idle confirmed some_body len fits slot parsed)
              (queued _ ar added idle confirmed some_body len fits slot parsed)
      ]

  flash_post_slot-Queued :
      (req : Request) (expected : Bytes) (s : Server)
      → s.restart_scheduled ≡ false
      → s.confirmation_pending ≡ false
      → 1 ≤ req.content_len
      → sha256_header_parse req.sha256_header ≡ some expected
      → (slot : Option Partition) → host.esp_ota_get_next_update_partition s.dev ≡ slot
      → Good req s (flash_post_slot rtos board host req expected s)
  unfolding flash_post_slot flash_post_queue
  flash_post_slot-Queued req expected s idle confirmed some_body parsed none e =
      rw (e, flash_post_slot) (unchanged _ refl)
  flash_post_slot-Queued req expected s idle confirmed some_body parsed (some slot) e =
      rw (e, flash_post_slot)
        (on_test (Good req s) (ltb slot.size req.content_len) _ _ (λ big. unchanged _ refl)
          (λ fits.
            flash_post_queue-Queued req _ s idle confirmed some_body refl (ltb→le _ _ fits) e
              parsed))

  parsed-Queued :
      (req : Request) (s : Server)
      → s.restart_scheduled ≡ false
      → s.confirmation_pending ≡ false
      → 1 ≤ req.content_len
      → (m : Option Bytes) → sha256_header_parse req.sha256_header ≡ m
      → Good req s (elim m [
        | none ↦
            reply rtos board host
              (some "400 Bad Request")
              "missing or invalid X-Firmware-SHA256 header\n"
              s
        | some expected ↦ flash_post_slot rtos board host req expected s
      ])
  parsed-Queued req s idle confirmed some_body none e = unchanged _ refl
  parsed-Queued req s idle confirmed some_body (some expected) e =
      flash_post_slot-Queued req expected s idle confirmed some_body e _ refl

  -- POST /flash leaves the queue, or adds one request to it. It adds one only if no reboot is
  -- scheduled and no confirmation is pending; the request has the body's length, which is positive
  -- and at most the size of the slot that ESP-IDF names, and the digest of the header.
  pub flash_post_handler-Queued :
      (req : Request) (s : Server) → Queued req s (flash_post_handler rtos board host req s).1
  unfolding flash_post_handler
  flash_post_handler-Queued req s =
      on_test (Good req s) s.restart_scheduled _ _ (λ b. unchanged _ refl)
        (λ idle.
          on_test (Good req s) s.confirmation_pending _ _ (λ b. unchanged _ refl)
            (λ confirmed.
              on_test (Good req s) (req.content_len == 0) _ _ (λ b. unchanged _ refl)
                (λ some_body.
                  parsed-Queued req s idle confirmed (ground arith)
                    (sha256_header_parse req.sha256_header) refl)))

  -- What the worker leaves behind an upload with this outcome: it is at the head of its loop again, the
  -- queue and the semaphore are untouched, the request's copy is given back on the board that the
  -- upload left, and then a reboot is scheduled where one is asked for and none is scheduled yet, or
  -- the session of a failed upload is closed.
  pub record Served (s : Server) (r : EspErr × Bool × board.Dev) (t : Server) : Type 0 where
    pub at_the_head : t.phase ≡ starting
    pub queue_kept : t.request_queue ≡ s.request_queue
    pub semaphore_kept : t.worker_ready ≡ s.worker_ready
    pub scheduled : t.restart_scheduled ≡ (s.restart_scheduled || r.1)
    pub board_kept :
        let given_back = (host.httpd_req_async_handler_complete r.2).1 in
        let fd = host.httpd_req_to_sockfd s.dev in
        let timer = host.restart_timer_start given_back in
        t.dev ≡ (
          if r.1
          then if s.restart_scheduled
            then given_back
            else if timer.0
            then timer.1
            else host.esp_restart timer.1
          else if not (is_ok r.0) && not (ltb_ℤ fd (pos 0))
          then host.httpd_sess_trigger_close fd given_back
          else given_back)

  complete-Served :
      (result : EspErr) (restart : Bool) (d : board.Dev) (s : Server)
      → Served s
          (result, restart, d)
          (worker_complete rtos board host (host.httpd_req_to_sockfd s.dev) (result, restart, d) s)
  unfolding worker_complete restart_schedule
  complete-Served result false d s = record {
    at_the_head = refl;
    queue_kept = refl;
    semaphore_kept = refl;
    scheduled = ground arith;
    board_kept = refl;
  }
  complete-Served result true d s = elim (Bool-cases s.restart_scheduled) [
    | inl already ↦
        rw (already, restart_schedule)
          (record {
            at_the_head = refl;
            queue_kept = refl;
            semaphore_kept = refl;
            scheduled = refl;
            board_kept = refl;
          })
    | inr not_yet ↦
        rw (not_yet, restart_schedule)
          (record {
            at_the_head = refl;
            queue_kept = refl;
            semaphore_kept = refl;
            scheduled = refl;
            board_kept = refl;
          })
  ]

  -- The worker finishes every upload that it serves on a board with no hash operation or OTA handle in
  -- use: `ota_flash_receive` has an outcome, one of the two of `Flashed`, and the worker is then at the
  -- head of its loop, with the request given back. If the upload was accepted, that is if the boot
  -- partition is the updated one with an image of the request's digest, a reboot is scheduled, unless
  -- one already was; if not, the session is closed where the result is an error and the request has a
  -- socket.
  pub worker_serve-restart :
      (req : AsyncRequest) (s : Server)
      → (board.view s.dev).hash ≡ none
      → (board.view s.dev).session ≡ none
      → (r : EspErr × Bool × board.Dev) × (flash_receive board req s.dev ≡ some r)
        × Flashed board req (board.view s.dev) r
        × Served s r (worker_serve rtos board host req s)
  unfolding worker_serve
  worker_serve-restart req s no_hash no_session =
      let (r, done, outcome) = flash_receive-Flashed board req s.dev no_hash no_session in
      (r, done, outcome, rw (done, worker_serve) (complete-Served r.0 r.1 r.2 s))
