-- ===== src/Log/Order.antt =====
-- What a client of main/log_stream.c gets of the log.
use mathlib.Core.List.{Sublistᴰ}
use mathlib.Core.List.Sublistᴰ
use esp32_wifi_gnss.Prelude.{
  ℕ, ◌+◌, ◌-◌, ◌^◌, ◌≤◌, ◌<◌, ◌≡◌, refl, sym, subst, min, Option, none, some, false, List, [], ◌∷◌,
  ◌++◌, Bytes, length, take, drop, length-take, length-drop, length-append, take-append_le,
  take-add, take-append-drop, append_assoc, append-nil, ltb, on_test, arith,
}
use esp32_wifi_gnss.Esp.{EspErr, esp_fail, is_ok}
use esp32_wifi_gnss.Socket.{Peek}
use esp32_wifi_gnss.Log.{LogRing, log_capture, reader_start, size_t}
use esp32_wifi_gnss.Log.Ring.{Holds, log_capture-Holds}
use esp32_wifi_gnss.Log.Reader.{resume, chunk_take-log}
use esp32_wifi_gnss.Log.Client.{
  LogClient, LogView, LogEvent, captures, rounds, log_client_open, log_client_is_connected,
  log_client_round, round_of, log_event, log_run,
}

-- What the events add to the log.
abbrev pub captured : List LogEvent → Bytes
captured [] = []
captured (captures text ∷ events) = take 255 text ++ captured events
captured (rounds err peek ∷ events) = captured events

-- Fewer than 2 ^ 32 - 4096 bytes are logged between a round and the next; `n` since the last one.
abbrev KeepsUp : ℕ → List LogEvent → Type 0
KeepsUp n [] = Unit
KeepsUp n (captures text ∷ events) = KeepsUp (n + length (take 255 text)) events
KeepsUp n (rounds err peek ∷ events) = (n < 2 ^ 32 - 4096) × KeepsUp 0 events

-- The client has had, or has skipped, the first `at` bytes of the log.
record Behind (n : ℕ) (log : Bytes) (v : LogView) : Type 0 where
  pub holds : Holds log v.ring
  pub at : ℕ
  pub within : at ≤ length log
  pub sub : Sublistᴰ v.client.sent (take at log)
  pub live :
      v.client.result ≡ none → (v.client.last_sent ≡ size_t at) × (length log - at ≤ 4096 + n)

longer-Sublist : (l h m : Bytes) → Sublistᴰ l h → Sublistᴰ l (h ++ m)
longer-Sublist l h m s =
    subst (λ k. Sublistᴰ k (h ++ m)) (append-nil l) (Sublistᴰ.append s (Sublistᴰ.nil-sublist m))

take-Sublist : (n m : ℕ) (l k : Bytes) → Sublistᴰ k (take n l) → Sublistᴰ k (take (n + m) l)
take-Sublist n m l k s =
    subst (Sublistᴰ k) (sym (take-add n m l)) (longer-Sublist k (take n l) (take m (drop n l)) s)

capture-Behind :
    (n : ℕ) (log text : Bytes) (v : LogView)
    → Behind n log v
    → Behind
        (n + length (take 255 text))
        (log ++ take 255 text)
        (record v { ring = log_capture text v.ring })
capture-Behind n log text v b = record {
  holds = log_capture-Holds log text v.ring b.holds;
  at = b.at;
  within = omega (arith, length-append log (take 255 text), b.within);
  sub =
      subst (Sublistᴰ v.client.sent) (sym (take-append_le b.at log (take 255 text) b.within)) b.sub;
  live = λ h. ((b.live h).0, omega (arith, length-append log (take 255 text), (b.live h).1));
}

left-Behind :
    (n m : ℕ) (log : Bytes) (v : LogView) (err : EspErr)
    → Behind n log v
    → Behind m log (record v { client = record v.client { result = some err } })
left-Behind n m log v err b = record {
  holds = b.holds;
  at = b.at;
  within = b.within;
  sub = b.sub;
  live = λ h. absurd cc;
}

-- The chunk of a round has been sent: the client goes on behind it.
sent-Behind :
    (n : ℕ) (log : Bytes) (v : LogView) (b : Behind n log v)
    → v.client.result ≡ none
    → n < 2 ^ 32 - 4096
    → let from = resume (length log) b.at in
      let count = min (length log - from) 512 in
      Behind 0 log (record v {
        client = record v.client {
          last_sent = size_t (from + count);
          sent = v.client.sent ++ take count (drop from log);
        };
      })
sent-Behind n log v b none_yet near = record {
  holds = b.holds;
  at = from + count;
  within = ground (arith, b.within);
  sub =
      subst (Sublistᴰ (v.client.sent ++ take count (drop from log))) (sym (take-add from count log))
        (Sublistᴰ.append
          (subst (λ k. Sublistᴰ v.client.sent (take k log)) {x = b.at + (from - b.at)} {y = from}
            (ground (arith, b.within)) (take-Sublist b.at (from - b.at) log v.client.sent b.sub))
          (Sublistᴰ.refl (take count (drop from log))));
  live = λ h. (refl, ground (arith, b.within, b.live none_yet));
}
  where
    from : ℕ
    from = resume (length log) b.at

    count : ℕ
    count = min (length log - from) 512

-- Nothing is left to send.
idle-Behind :
    (n : ℕ) (log : Bytes) (v : LogView) (b : Behind n log v)
    → let from = resume (length log) b.at in
      ltb 0 (length (take (min (length log - from) 512) (drop from log))) ≡ false → Behind 0 log v
idle-Behind n log v b empty = record {
  holds = b.holds;
  at = b.at;
  within = b.within;
  sub = b.sub;
  live = λ h. (
    (b.live h).0,
    ground (
      arith,
      empty,
      b.within,
      length-take (min (length log - from) 512) (drop from log),
      length-drop from log,
    ),
  );
}
  where
    from : ℕ
    from = resume (length log) b.at

round-Behind :
    (n : ℕ) (log : Bytes) (result : Option EspErr) (err : EspErr) (peek : Peek) (v : LogView)
    → n < 2 ^ 32 - 4096
    → result ≡ v.client.result
    → Behind n log v
    → Behind 0 log (round_of result err peek v)
unfolding log_client_round
round-Behind n log (some left) err peek v near same b = record {
  holds = b.holds;
  at = b.at;
  within = b.within;
  sub = b.sub;
  live = λ h. absurd (cc (same, h));
}
round-Behind n log none err peek v near same b =
    let (at, live) = b.live (sym same) in
    rw
      (
        chunk_take-log log v.ring v.client.last_sent b.at b.holds at b.within
            (omega (arith, live, near)),
        log_client_round,
      )
      (on_test P (ltb 0 (length (take count (drop from log)))) _ _
        (λ some_bytes.
          on_test P (is_ok err) _ _ (λ _. sent-Behind n log v b (sym same) near)
            (λ _. left-Behind n 0 log v err b))
        (λ empty.
          let idle = idle-Behind n log v b empty in
          on_test P (log_client_is_connected peek) _ _ (λ _. idle)
            (λ _. left-Behind 0 0 log v esp_fail idle)))
  where
    from : ℕ
    from = resume (length log) b.at

    count : ℕ
    count = min (length log - from) 512

    P : LogClient → Type 0
    P c = Behind 0 log (record v { client = c })

open-Behind :
    (log : Bytes) (r : LogRing)
    → Holds log r
    → Behind 0 log (record { ring = r; client = log_client_open r })
unfolding reader_start
open-Behind log r h = record {
  holds = h;
  at = length log - min r.write_total 4096;
  within = omega arith;
  sub = Sublistᴰ.nil-sublist (take (length log - min r.write_total 4096) log);
  live = λ _. (ground (arith, h.total), omega arith);
}

run-Behind :
    (events : List LogEvent) (n : ℕ) (log : Bytes) (v : LogView)
    → KeepsUp n events
    → Behind n log v
    → (m : ℕ) × Behind m (log ++ captured events) (log_run events v)
unfolding log_run log_event
run-Behind [] n log v near b = (n, subst (λ l. Behind n l v) (sym (append-nil log)) b)
run-Behind (captures text ∷ events) n log v near b =
    let (m, b') = run-Behind events _ _ _ near (capture-Behind n log text v b) in
    (
      m,
      subst (λ l. Behind m l (log_run (captures text ∷ events) v))
          (append_assoc log (take 255 text) (captured events)) b',
    )
run-Behind (rounds err peek ∷ events) n log v near b =
    run-Behind events 0 log _ near.1 (round-Behind n log v.client.result err peek v near.0 refl b)

-- Let the ring hold `log` when a client connects, and let texts be captured and rounds of its worker
-- come in any order and with any results of the socket, with fewer than 2 ^ 32 - 4096 bytes captured
-- between a round and the next. What the client has been sent is then a part of the log, that from
-- before and that captured since, in its order and nothing twice: the wraps of the ring and of the
-- 32-bit counters lose bytes to a slow client, and never repeat, reorder or mix them.
pub log_client_in_order :
    (log : Bytes) (r : LogRing) (events : List LogEvent)
    → Holds log r
    → KeepsUp 0 events
    → Sublistᴰ
        (log_run events (record { ring = r; client = log_client_open r })).client.sent
        (log ++ captured events)
log_client_in_order log r events h near =
    let whole = log ++ captured events in
    let (m, b) = run-Behind events 0 log _ near (open-Behind log r h) in
    subst (Sublistᴰ _) (take-append-drop b.at whole)
      (longer-Sublist _ (take b.at whole) (drop b.at whole) b.sub)
