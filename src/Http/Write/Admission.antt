-- ===== src/Http/Write/Admission.antt =====
-- The admission of writers in main/http_stream.c: POST /write and its one worker.
use esp32_wifi_gnss.Prelude.{◌≡◌, refl, ◌==◌, Bool-cases, inl, inr, true, arith}
use esp32_wifi_gnss.Rtos.{Rtos}
use esp32_wifi_gnss.Http.Httpd.{Httpd}
use esp32_wifi_gnss.Http.Pool.{Pool}
use esp32_wifi_gnss.Http.Pool.Invariant.{PoolOk, replied-PoolOk, take_first_queue-PoolOk}
use esp32_wifi_gnss.Http.Pool.Steps.{PoolRun, IsNew, PoolRun-PoolOk}
use esp32_wifi_gnss.Http.Pool.Clients.{or_reply-PoolOk, OneAtATime, one_at_a_time}
use esp32_wifi_gnss.Http.Write.{write_post_handler}

module _ (rtos : Rtos) (httpd : Httpd) where
  open httpd use {Req, content_len}

  write_post_handler-PoolOk :
      (req : Req) (s : Pool rtos httpd)
      → PoolOk rtos httpd 1 s
      → PoolOk rtos httpd 1 (write_post_handler rtos httpd req s).1
  unfolding write_post_handler
  write_post_handler-PoolOk req s v = elim (Bool-cases (content_len req == 0)) [
    | inl none_sent ↦ rw none_sent (replied-PoolOk rtos httpd 1 _ _ req s v)
    | inr some_sent ↦
        rw some_sent
          (or_reply-PoolOk rtos httpd 1 _ _ req _ (take_first_queue-PoolOk rtos httpd 1 req s v).1)
  ]

  abbrev pub PostRun : Pool rtos httpd → Pool rtos httpd → Type 0
  PostRun start s =
      PoolRun rtos httpd (write_post_handler rtos httpd) (λ led. led) (λ led. led) start s

  empty_body :
      (req : Req) (s : Pool rtos httpd)
      → content_len req ≡ 0
      → ((write_post_handler rtos httpd req s).1.request_queue ≡ s.request_queue)
        × ((write_post_handler rtos httpd req s).1.worker_ready ≡ s.worker_ready)
  unfolding write_post_handler
  empty_body req s e =
      let t : (content_len req == 0) ≡ true = ground (arith, e) in rw t (refl, refl)

  -- In every state that is reached, at most one writer is queued or served; a further one is refused
  -- with ESP_ERR_NOT_FINISHED exactly while one is queued or the worker has not signalled, or else
  -- gets what the server returns for the copy; and a request with an empty body takes no place.
  pub one_writer :
      {start s : Pool rtos httpd} (req : Req)
      → IsNew rtos httpd 1 start
      → PostRun start s
      → OneAtATime rtos httpd req s
        × (content_len req ≡ 0
            → ((write_post_handler rtos httpd req s).1.request_queue ≡ s.request_queue)
              × ((write_post_handler rtos httpd req s).1.worker_ready ≡ s.worker_ready))
  one_writer {start} {s} req i run = (
    one_at_a_time rtos httpd req s (
        PoolRun-PoolOk rtos httpd 1 (write_post_handler rtos httpd) (λ led. led) (λ led. led)
          write_post_handler-PoolOk i run),
    empty_body req s,
  )
