-- ===== src/Http/Write/Upload.antt =====
-- A whole upload of main/http_stream.c, as the socket delivers it.
use esp32_wifi_gnss.Prelude.{
  ℕ, zero, suc, ◌-◌, ◌≤◌, ◌≡◌, refl, sym, ap, ◌∙◌, true, false, List, [], ◌∷◌, ◌++◌, Bytes, length,
  length-append, All, arith,
}
use esp32_wifi_gnss.Rtos.{Rtos}
use esp32_wifi_gnss.Esp.{esp_ok}
use esp32_wifi_gnss.Socket.{Received, timed_out, closed, data_in}
use esp32_wifi_gnss.Gnss.Parser.{parser_feed}
use esp32_wifi_gnss.Gnss.Pipeline.{Pipeline, feed_parser}
use esp32_wifi_gnss.Http.Write.{
  WriterPhase, receiving, ending, write_loop, write_begin, write_round,
}
use esp32_wifi_gnss.Gnss.Pipeline.Feed.{feed_parser-append}
use esp32_wifi_gnss.Http.Write.Handshake.{begun, write_begin-idle, write_feed-open}

-- The bytes of some rounds, in order.
abbrev pub delivered : List Received → Bytes
delivered [] = []
delivered (data_in bytes ∷ rounds) = bytes ++ delivered rounds
delivered (timed_out ∷ rounds) = delivered rounds
delivered (closed ∷ rounds) = delivered rounds

-- A round in which the connection lives: a pause, or at least one byte.
abbrev pub Alive : Received → Type 0
Alive timed_out = Unit
Alive closed = ⊥
Alive (data_in bytes) = 1 ≤ length bytes

module _ (rtos : Rtos) where
  -- The loop of `write_request_receive` on what the socket delivers.
  abbrev pub write_rounds :
      List Received → WriterPhase × Pipeline rtos → WriterPhase × Pipeline rtos
  write_rounds [] s = s
  write_rounds (received ∷ rounds) (receiving remaining, g) =
      write_rounds rounds (write_round rtos remaining received g)
  write_rounds (received ∷ rounds) (phase, g) = (phase, g)

  rounds_done :
      (rounds : List Received) (g : Pipeline rtos)
      → write_rounds rounds (ending esp_ok, g) ≡ (ending esp_ok, g)
  rounds_done [] g = refl
  rounds_done (received ∷ rounds) g = refl

  feed_parser-nil : (g : Pipeline rtos) → feed_parser rtos [] g ≡ g
  unfolding feed_parser parser_feed
  feed_parser-nil g = refl

  nothing_left :
      (rounds : List Received) (body : Bytes) (g : Pipeline rtos)
      → length body ≡ 0
      → write_rounds rounds (ending esp_ok, g) ≡ (ending esp_ok, feed_parser rtos body g)
  nothing_left rounds [] g h =
      rounds_done rounds g ∙ ap (λ x. (ending esp_ok, x)) (sym (feed_parser-nil g))
  nothing_left rounds (b ∷ body) g h = absurd (omega (arith, h))

  rounds_of :
      (rounds : List Received) (remaining : ℕ) (g : Pipeline rtos)
      → g.input_override_active ≡ true
      → g.input_override_closing ≡ false
      → All Alive rounds
      → length (delivered rounds) ≡ remaining
      → write_rounds rounds (write_loop remaining, g)
        ≡ (ending esp_ok, feed_parser rtos (delivered rounds) g)
  unfolding write_round feed_parser
  rounds_of rounds zero g ea ec alive whole = nothing_left rounds (delivered rounds) g whole
  rounds_of [] (suc left) g ea ec alive whole = absurd (omega (arith, whole))
  rounds_of (timed_out ∷ rounds) (suc left) g ea ec alive whole =
      rounds_of rounds (suc left) g ea ec alive.1 whole
  rounds_of (closed ∷ rounds) (suc left) g ea ec alive whole = absurd alive.0
  rounds_of (data_in [] ∷ rounds) (suc left) g ea ec alive whole = absurd (omega (arith, alive.0))
  rounds_of (data_in (b ∷ bytes) ∷ rounds) (suc left) g ea ec alive whole =
      ap (write_rounds rounds) (write_feed-open rtos (suc left) (b ∷ bytes) g ea ec)
      ∙ rounds_of rounds (suc left - length (b ∷ bytes)) (feed_parser rtos (b ∷ bytes) g) ea ec
          alive.1 (omega (arith, whole, length-append (b ∷ bytes) (delivered rounds)))
      ∙ ap (λ x. (ending esp_ok, x))
          (sym (feed_parser-append rtos (b ∷ bytes) (delivered rounds) g))

  -- An upload to an idle pipeline whose connection lives until the whole body is there: whatever
  -- the sizes of the pieces, and with any pauses between them, the loop ends with ESP_OK, and the
  -- parser, cleared and in the new source generation, has read the body as if it had come at once.
  pub upload_is_one_feed :
      (rounds : List Received) (g : Pipeline rtos)
      → g.input_override_active ≡ false
      → All Alive rounds
      → write_rounds rounds (write_begin rtos (length (delivered rounds)) g)
        ≡ (ending esp_ok, feed_parser rtos (delivered rounds) (begun rtos g))
  upload_is_one_feed rounds g idle alive =
      ap (write_rounds rounds) (write_begin-idle rtos (length (delivered rounds)) g idle)
      ∙ rounds_of rounds (length (delivered rounds)) (begun rtos g) refl refl alive refl
