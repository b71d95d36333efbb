-- ===== src/Http/Pool/Steps.antt =====
-- The handlers, the workers of a pool and the indicator's task, interleaved in any order. `handle`
-- is what the server's task does with a call.
use esp32_wifi_gnss.Prelude.{
  ℕ, zero, suc, ◌<◌, ◌≡◌, refl, ap, [], set, get_or, length, replicate, arith, inl, inr,
}
use esp32_wifi_gnss.Rtos.{Rtos}
use esp32_wifi_gnss.Rtos.Token.{signalled-Token, received-Token}
use esp32_wifi_gnss.Esp.{EspErr}
use esp32_wifi_gnss.Led.{Led}
use esp32_wifi_gnss.Http.Httpd.{Httpd}
use esp32_wifi_gnss.Http.Pool.{
  at_head, idle, serves, AsyncCall, Pool, pool_signal, pool_take, pool_complete,
}
use esp32_wifi_gnss.Http.Pool.Count.{busy, serving, total, total-set}
use esp32_wifi_gnss.Http.Pool.Invariant.{PoolOk}

module _ (rtos : Rtos) (httpd : Httpd) {H : Type 0}
    (handle : H → Pool rtos httpd → EspErr × Pool rtos httpd) (enter leave : Led → Led) where
  open httpd use {Req}

  pub data PoolStep (s : Pool rtos httpd) : Pool rtos httpd → Type 0 where
    handles : (h : H) → PoolStep s (handle h s).1
    signals :
        (i : ℕ)
        → i < length s.workers
        → get_or s.workers i at_head ≡ at_head
        → PoolStep s (pool_signal rtos httpd i s)
    takes :
        (i : ℕ)
        → i < length s.workers
        → get_or s.workers i at_head ≡ idle
        → PoolStep s (pool_take rtos httpd enter i s)
    completes :
        (i : ℕ) (r : AsyncCall Req)
        → i < length s.workers
        → get_or s.workers i at_head ≡ serves r
        → PoolStep s (pool_complete rtos httpd leave i r s)
    indicates :
        (led : Led)
        → led.connected_client_count ≡ s.led.connected_client_count
        → PoolStep s (record s { led = led })

  pub data PoolRun (start : Pool rtos httpd) : Pool rtos httpd → Type 0 where
    stays : PoolRun start start
    moves : {s t : Pool rtos httpd} → PoolStep s t → PoolRun start s → PoolRun start t

module _ (rtos : Rtos) (httpd : Httpd) (n : ℕ) where
  open rtos use {items, capacity, count, limit, receive, receive-items, give_sem}
  open httpd use {Req, open_copies, open-complete}

  -- `xQueueCreate(n, ...)`, `xSemaphoreCreateCounting(n, 0)` and the start of the `n` tasks.
  pub record IsNew (s : Pool rtos httpd) : Type 0 where
    pub no_request : items s.request_queue ≡ []
    pub places : capacity s.request_queue ≡ n
    pub none_ready : count s.worker_ready ≡ 0
    pub bound : limit s.worker_ready ≡ n
    pub all_starting : s.workers ≡ replicate n at_head
    pub no_client : s.led.connected_client_count ≡ 0
    pub no_copy : open_copies s.dev ≡ 0

  total_busy-replicate : (m : ℕ) → total {R = AsyncCall Req} busy (replicate m at_head) ≡ m
  total_busy-replicate zero = refl
  total_busy-replicate (suc m) = omega (arith, total_busy-replicate m)

  pub total_serving-replicate :
      (m : ℕ) → total {R = AsyncCall Req} serving (replicate m at_head) ≡ 0
  total_serving-replicate zero = refl
  total_serving-replicate (suc m) = omega (arith, total_serving-replicate m)

  new-PoolOk : (s : Pool rtos httpd) → IsNew s → PoolOk rtos httpd n s
  new-PoolOk s i = record {
    token = record {
      tokens = omega (
        arith,
        i.none_ready,
        ap length i.no_request,
        ap (total busy) i.all_starting,
        total_busy-replicate n,
      );
      room = i.places;
      top = i.bound;
    };
    copies = omega (
      arith,
      i.no_copy,
      ap length i.no_request,
      ap (total serving) i.all_starting,
      total_serving-replicate n,
    );
  }

  signal-PoolOk :
      (i : ℕ) (s : Pool rtos httpd)
      → i < length s.workers
      → get_or s.workers i at_head ≡ at_head
      → PoolOk rtos httpd n s
      → PoolOk rtos httpd n (pool_signal rtos httpd i s)
  unfolding pool_signal
  signal-PoolOk i s h e v = record {
    token =
        signalled-Token rtos n s.worker_ready s.request_queue (total busy (set s.workers i idle))
          (record {
            tokens = omega (arith, v.token.tokens, total-set busy s.workers i idle h, ap busy e);
            room = v.token.room;
            top = v.token.top;
          });
    copies = omega (arith, v.copies, total-set serving s.workers i idle h, ap serving e);
  }

  take-PoolOk :
      (enter : Led → Led) (i : ℕ) (s : Pool rtos httpd)
      → i < length s.workers
      → get_or s.workers i at_head ≡ idle
      → PoolOk rtos httpd n s
      → PoolOk rtos httpd n (pool_take rtos httpd enter i s)
  unfolding pool_take
  take-PoolOk enter i s h e v = elim (receive-items s.request_queue) [
    | inl (none_left, r) ↦ rw (r, pool_take) v
    | inr (req, q, listed, r, kept) ↦
        let k =
          received-Token rtos n s.worker_ready s.request_queue (total busy s.workers) req q v.token
            listed kept in
        rw (r, pool_take)
          (record {
            token = record {
              tokens =
                  omega (arith, k.tokens, total-set busy s.workers i (serves req) h, ap busy e);
              room = k.room;
              top = k.top;
            };
            copies = omega (
              arith,
              v.copies,
              ap length listed,
              total-set serving s.workers i (serves req) h,
              ap serving e,
            );
          })
  ]

  complete-PoolOk :
      (leave : Led → Led) (i : ℕ) (r : AsyncCall Req) (s : Pool rtos httpd)
      → i < length s.workers
      → get_or s.workers i at_head ≡ serves r
      → PoolOk rtos httpd n s
      → PoolOk rtos httpd n (pool_complete rtos httpd leave i r s)
  unfolding pool_complete
  complete-PoolOk leave i r s h e v = record {
    token = record {
      tokens = omega (arith, v.token.tokens, total-set busy s.workers i at_head h, ap busy e);
      room = v.token.room;
      top = v.token.top;
    };
    copies = omega (
      arith,
      v.copies,
      open-complete r.req s.dev,
      total-set serving s.workers i at_head h,
      ap serving e,
    );
  }

  module _ {H : Type 0} (handle : H → Pool rtos httpd → EspErr × Pool rtos httpd)
      (enter leave : Led → Led)
      (handle-PoolOk : (h : H) (s : Pool rtos httpd)
        → PoolOk rtos httpd n s
        → PoolOk rtos httpd n (handle h s).1) where
    pub PoolRun-PoolOk :
        {start s : Pool rtos httpd}
        → IsNew start
        → PoolRun rtos httpd handle enter leave start s
        → PoolOk rtos httpd n s
    PoolRun-PoolOk i stays = new-PoolOk _ i
    PoolRun-PoolOk i (moves {s} (handles h) run) = handle-PoolOk h s (PoolRun-PoolOk i run)
    PoolRun-PoolOk i (moves {s} (signals w h e) run) = signal-PoolOk w s h e (PoolRun-PoolOk i run)
    PoolRun-PoolOk i (moves {s} (takes w h e) run) =
        take-PoolOk enter w s h e (PoolRun-PoolOk i run)
    PoolRun-PoolOk i (moves {s} (completes w r h e) run) =
        complete-PoolOk leave w r s h e (PoolRun-PoolOk i run)
    PoolRun-PoolOk i (moves {s} (indicates led e) run) =
        let v = PoolRun-PoolOk i run in record { token = v.token; copies = v.copies }
