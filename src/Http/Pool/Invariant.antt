-- ===== src/Http/Pool/Invariant.antt =====
-- The tokens and the copies of requests that a pool of `n` workers passes round.
use Prim.Native.String.{String}
use esp32_wifi_gnss.Prelude.{
  ℕ, suc, ◌+◌, ◌≡◌, refl, sym, ap, ◌∙◌, true, false, not, Option, none, length, ltb, if◌then◌else◌,
  arith, inl, inr, Bool-cases,
}
use esp32_wifi_gnss.Rtos.{Rtos}
use esp32_wifi_gnss.Rtos.Token.{Token, refused-Token, given_back-Token, sent-Token}
use esp32_wifi_gnss.Esp.{EspErr, esp_ok, err_not_finished, is_ok, is_ok→esp_ok}
use esp32_wifi_gnss.Http.Httpd.{Httpd}
use esp32_wifi_gnss.Http.Pool.{AsyncCall, Pool, pool_send, stream_request_queue, take_first_queue}
use esp32_wifi_gnss.Http.Pool.Count.{busy, serving, total}

module _ (rtos : Rtos) (httpd : Httpd) (n : ℕ) where
  open rtos use {
    Queue, items, capacity, count, send, receive, take_sem, give_sem, receive-items, taken,
    count-take,
  }
  open httpd use {
    Req, Dev, open_copies, httpd_req_async_handler_begin, httpd_req_async_handler_complete,
    open-begin, open-complete, open-reply, httpd_reply,
  }

  pub record PoolOk (s : Pool rtos httpd) : Type 0 where
    pub token : Token rtos n s.worker_ready s.request_queue (total busy s.workers)
    pub copies : open_copies s.dev ≡ length (items s.request_queue) + total serving s.workers

  -- A reply, and the indicator, leave both as they are.
  pub replied-PoolOk :
      (status : Option String) (text : String) (req : Req) (s : Pool rtos httpd)
      → PoolOk s
      → PoolOk (record s { dev = (httpd_reply status text req s.dev).1 })
  replied-PoolOk status text req s v = record {
    token = v.token;
    copies = open-reply status text req s.dev ∙ v.copies;
  }

  sent-PoolOk :
      (r : AsyncCall Req) (s : Pool rtos httpd) (d : Dev)
      → PoolOk s
      → (take_sem s.worker_ready).0 ≡ true
      → open_copies d ≡ suc (open_copies s.dev)
      → let t =
          pool_send rtos httpd r
            (record s { worker_ready = (take_sem s.worker_ready).1; dev = d }) in
        (t.0 ≡ esp_ok) × PoolOk t.1
  unfolding pool_send
  sent-PoolOk r s d v got one_more =
      let k =
        sent-Token rtos n s.worker_ready s.request_queue (total busy s.workers) r v.token got in
      rw (k.0, pool_send)
        (
          refl,
          record {
            token = k.1;
            copies = ground (
              arith,
              v.copies,
              one_more,
              v.token.tokens,
              k.1.tokens,
              count-take s.worker_ready,
              taken s.worker_ready,
            );
          },
        )

  -- What the queueing functions return, and that they keep the tokens and the copies.
  abbrev Queued : EspErr → EspErr × Pool rtos httpd → Type 0
  Queued err t = (t.0 ≡ err) × PoolOk t.1

  module _ (req : Req) (s : Pool rtos httpd) where
    begin : EspErr × Req × Dev
    begin = httpd_req_async_handler_begin req s.dev

    copied : is_ok begin.0 ≡ true → open_copies begin.2 ≡ suc (open_copies s.dev)
    unfolding begin
    copied ok =
        open-begin req s.dev ∙ ap (λ b. if b then suc (open_copies s.dev) else open_copies s.dev) ok

    not_copied : is_ok begin.0 ≡ false → open_copies begin.2 ≡ open_copies s.dev
    unfolding begin
    not_copied bad =
        open-begin req s.dev
        ∙ ap (λ b. if b then suc (open_copies s.dev) else open_copies s.dev) bad

    pub stream_request_queue-PoolOk :
        (content_type : String)
        → PoolOk s
        → Queued
            (if not (is_ok (httpd_req_async_handler_begin req s.dev).0)
              then (httpd_req_async_handler_begin req s.dev).0
              else if ltb 0 (count s.worker_ready)
              then esp_ok
              else err_not_finished)
            (stream_request_queue rtos httpd content_type req s)
    unfolding stream_request_queue begin
    stream_request_queue-PoolOk content_type v = elim (Bool-cases (is_ok begin.0)) [
      | inr bad ↦
          rw (bad, stream_request_queue)
            (refl, record { token = v.token; copies = not_copied bad ∙ v.copies })
      | inl ok ↦ elim (Bool-cases (take_sem s.worker_ready).0) [
        | inl got ↦
            rw (ok, got, sym (taken s.worker_ready) ∙ got, stream_request_queue)
              (sent-PoolOk _ s begin.2 v got (copied ok))
        | inr missed ↦
            rw (ok, missed, sym (taken s.worker_ready) ∙ missed, stream_request_queue)
              (
                refl,
                record {
                  token = refused-Token rtos n _ _ _ v.token missed;
                  copies = omega (arith, open-complete begin.1 begin.2, copied ok, v.copies);
                },
              )
      ]
    ]

    pub take_first_queue-PoolOk :
        PoolOk s
        → Queued
            (if ltb 0 (count s.worker_ready)
              then (httpd_req_async_handler_begin req s.dev).0
              else err_not_finished)
            (take_first_queue rtos httpd req s)
    unfolding take_first_queue begin
    take_first_queue-PoolOk v = elim (Bool-cases (take_sem s.worker_ready).0) [
      | inr missed ↦
          rw (missed, sym (taken s.worker_ready) ∙ missed, take_first_queue)
            (refl, record { token = refused-Token rtos n _ _ _ v.token missed; copies = v.copies })
      | inl got ↦ elim (Bool-cases (is_ok begin.0)) [
        | inl ok ↦
            let k =
              sent-PoolOk (record { req = begin.1; content_type = none }) s begin.2 v got
                (copied ok) in
            rw (ok, got, sym (taken s.worker_ready) ∙ got, take_first_queue)
              (k.0 ∙ sym (is_ok→esp_ok begin.0 ok), k.1)
        | inr bad ↦
            rw (bad, got, sym (taken s.worker_ready) ∙ got, take_first_queue)
              (
                refl,
                record {
                  token = given_back-Token rtos n _ _ _ v.token got;
                  copies = not_copied bad ∙ v.copies;
                },
              )
      ]
    ]
