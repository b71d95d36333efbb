-- ===== src/Http/Write/Handshake.antt =====
-- The calls of the writer, where the override is as its phase says.
use esp32_wifi_gnss.Prelude.{
  ℕ, ◌-◌, ◌≡◌, ap, ap₂, ◌∙◌, true, false, not, ◌&&◌, ◌||◌, Option, none, some, Bytes, length, take,
  take-length, if◌then◌else◌, arith,
}
use esp32_wifi_gnss.Rtos.{Rtos}
use esp32_wifi_gnss.Esp.{EspErr, esp_ok, err_invalid_state, is_ok}
use esp32_wifi_gnss.Gnss.{FilterControl, flush_override, cleared_parser}
use esp32_wifi_gnss.Gnss.Pipeline.{
  Pipeline, feed_parser, feed_chunks, int_max, input_epoch_advance, input_override_begin,
  input_override_feed, input_override_close,
}
use esp32_wifi_gnss.Gnss.Pipeline.Feed.{feed_chunks-feed_parser}
use esp32_wifi_gnss.Http.Write.{
  ending, flushing, answering, write_loop, write_begin, write_feed, write_close,
}

module _ (rtos : Rtos) where
  open rtos use {
    Queue, items, capacity, count, limit, pending, mark, send, sent-send, capacity-send,
    pending-mark, take_sem, taken, count-take, limit-take,
  }

  abbrev pub begun : Pipeline rtos → Pipeline rtos
  begun g = record g {
    input_override_active = true;
    input_override_closing = false;
    input_epoch = input_epoch_advance g.input_epoch;
    parser_state = cleared_parser;
  }

  pub begin-idle :
      (g : Pipeline rtos)
      → g.input_override_active ≡ false
      → input_override_begin rtos g ≡ (esp_ok, begun g)
  unfolding input_override_begin
  begin-idle g e = ap (λ b. if b then (err_invalid_state, g) else (esp_ok, begun g)) e

  pub write_begin-idle :
      (content_len : ℕ) (g : Pipeline rtos)
      → g.input_override_active ≡ false
      → write_begin rtos content_len g ≡ (write_loop content_len, begun g)
  unfolding write_begin
  write_begin-idle content_len g e =
      ap
        (λ (r : EspErr × Pipeline rtos).
          if is_ok r.0 then (write_loop content_len, r.1) else (answering esp_ok, r.1))
        (begin-idle g e)

  pub feed-open :
      (bytes : Bytes) (g : Pipeline rtos)
      → g.input_override_active ≡ true
      → g.input_override_closing ≡ false
      → input_override_feed rtos g (some bytes) (length bytes) ≡ (esp_ok, feed_parser rtos bytes g)
  unfolding input_override_feed
  feed-open bytes g ea ec =
      ap₂
        (λ a c. if not a || c then (err_invalid_state, g) else (
          esp_ok,
          feed_chunks (feed_parser rtos) int_max (length bytes) (take (length bytes) bytes) g,
        ))
        ea ec
      ∙ ap (λ h. (esp_ok, h))
          (ap (λ l. feed_chunks (feed_parser rtos) int_max (length bytes) l g) (take-length bytes)
            ∙ feed_chunks-feed_parser rtos int_max (length bytes) bytes g (omega arith)
                (omega arith))

  -- While the override is open, what the worker receives goes to the parser as it is, and the loop
  -- goes on with as many bytes fewer.
  pub write_feed-open :
      (remaining : ℕ) (bytes : Bytes) (g : Pipeline rtos)
      → g.input_override_active ≡ true
      → g.input_override_closing ≡ false
      → write_feed rtos remaining bytes g
        ≡ (write_loop (remaining - length bytes), feed_parser rtos bytes g)
  unfolding write_feed
  write_feed-open remaining bytes g ea ec =
      ap
        (λ (r : EspErr × Pipeline rtos).
          if is_ok r.0 then (write_loop (remaining - length bytes), r.1) else (ending r.0, r.1))
        (feed-open bytes g ea ec)

  abbrev pub flush_of : Pipeline rtos → FilterControl
  flush_of g = record { control_type = flush_override; input_epoch = g.input_epoch }

  pub close-open :
      (g : Pipeline rtos)
      → g.input_override_active ≡ true
      → g.input_override_closing ≡ false
      → input_override_close rtos g
        ≡ (some (flush_of g), record g { input_override_closing = true })
  unfolding input_override_close
  close-open g ea ec =
      ap₂
        (λ a c.
          if a && not c
          then (some (flush_of g), record g { input_override_closing = true })
          else (none, g))
        ea ec

  pub write_close-open :
      (result : EspErr) (g : Pipeline rtos)
      → g.input_override_active ≡ true
      → g.input_override_closing ≡ false
      → write_close rtos result g
        ≡ (flushing result (flush_of g), record g { input_override_closing = true })
  unfolding write_close
  write_close-open result g ea ec =
      ap
        (λ (r : Option FilterControl × Pipeline rtos).
          (elim r.0 [ none ↦ answering result | some flush ↦ flushing result flush ], r.1))
        (close-open g ea ec)
