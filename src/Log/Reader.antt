-- ===== src/Log/Reader.antt =====
-- The reader of main/log_stream.c against the log written to the ring.
use esp32_wifi_gnss.Prelude.{
  take-drop-suc, ℕ, zero, suc, ◌+◌, ◌-◌, ◌^◌, ◌≤◌, ◌<◌, ◌≡◌, refl, sym, ap, ap₂, ◌∙◌, min, Bool,
  ◌∷◌, Bytes, length, get_or, take, drop, ltb, if◌then◌else◌, arith,
}
use esp32_wifi_gnss.Log.{LogRing, ring_read, reader_start, chunk_take, size_t}
use esp32_wifi_gnss.Log.Ring.{Survivors, Holds}

ring_read-log :
    (ring log : Bytes) (at q count : ℕ)
    → Survivors ring log
    → size_t at ≡ size_t q
    → q + count ≤ length log
    → length log ≤ q + 4096
    → ring_read ring at count ≡ take count (drop q log)
unfolding ring_read
ring_read-log ring log at q zero v e fits near = refl
ring_read-log ring log at q (suc count) v e fits near =
    ap₂ (λ x l. x ∷ l)
      (ap (λ i. get_or ring i 0) (omega (arith, e)) ∙ v.kept q (omega arith) (omega arith))
      (ring_read-log ring log (suc at) (suc q) count v (omega (arith, e)) (omega arith)
        (omega arith))
    ∙ sym (take-drop-suc log q count 0 (omega arith))

-- Where the reader goes on that has had the first `sent` bytes of a log of `len`: there, or at the
-- oldest byte that the ring still holds.
abbrev pub resume : ℕ → ℕ → ℕ
resume len sent = if ltb 4096 (len - sent) then len - 4096 else sent

-- A reader that has had (or has skipped) the first `sent` bytes of the log, no more than 2 ^ 32 - 1
-- of them behind, gets a chunk that is the log's next bytes, at most 512 of them, from `sent` on, or
-- from the oldest survivor if the ring has wrapped past it. Its `last_sent` counts on from there.
pub chunk_take-log :
    (log : Bytes) (r : LogRing) (last_sent sent : ℕ)
    → Holds log r
    → last_sent ≡ size_t sent
    → sent ≤ length log
    → length log - sent < 2 ^ 32
    → let from = resume (length log) sent in
      let count = min (length log - from) 512 in
      chunk_take r last_sent ≡ (take count (drop from log), size_t (from + count))
unfolding chunk_take
chunk_take-log log r last_sent sent v e le near =
    ap₂ (λ chunk next. (chunk, next))
      (ap (ring_read r.ring_buffer oldest) copied
        ∙ ring_read-log r.ring_buffer log oldest from _ v.survivors place (ground arith)
            (ground arith))
      (omega (arith, place, copied))
  where
    from : ℕ
    from = resume (length log) sent

    available : size_t (r.write_total + 2 ^ 32 - last_sent) ≡ length log - sent
    available = omega (arith, v.total, e, le, near)

    wrapped : Bool
    wrapped = ltb 4096 (size_t (r.write_total + 2 ^ 32 - last_sent))

    oldest : ℕ
    oldest = if wrapped then size_t (r.write_total + 2 ^ 32 - 4096) else last_sent

    place : size_t oldest ≡ size_t from
    place = ground (arith, available, v.total, e)

    copied :
        min (if wrapped then 4096 else size_t (r.write_total + 2 ^ 32 - last_sent)) 512
        ≡ min (length log - from) 512
    copied = ground (arith, available)

-- A client starts at the oldest byte that the ring holds, as long as the counter has not wrapped.
reader_start-resume :
    (log : Bytes) (r : LogRing)
    → Holds log r
    → length log < 2 ^ 32
    → reader_start r ≡ resume (length log) 0
unfolding reader_start
reader_start-resume log r v small = ground (arith, v.total)
