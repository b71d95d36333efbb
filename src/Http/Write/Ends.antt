-- ===== src/Http/Write/Ends.antt =====
-- The loop of `write_request_receive` of main/http_stream.c ends.
use esp32_wifi_gnss.Prelude.{
  ℕ, zero, suc, ◌+◌, ◌-◌, ◌≤◌, ◌≡◌, refl, Bool, true, false, some, List, [], ◌∷◌, length, either,
  arith,
}
use esp32_wifi_gnss.Rtos.{Rtos}
use esp32_wifi_gnss.Esp.{is_ok}
use esp32_wifi_gnss.Socket.{Received, timed_out, closed, data_in}
use esp32_wifi_gnss.Gnss.Pipeline.{Pipeline, input_override_begin, input_override_feed}
use esp32_wifi_gnss.Http.Write.{
  WriterPhase, no_writer, receiving, ending, flushing, awaiting, answering, write_loop, write_begin,
  write_feed, write_round,
}

module _ (rtos : Rtos) where
  -- What the socket gives in each round, and the pipeline as the other tasks have left it.
  abbrev pub Rounds : Type 0
  Rounds = List (Received × Pipeline rtos)

  -- The rounds in which the socket gives something other than a timeout.
  abbrev pub answers : Rounds → ℕ
  answers [] = 0
  answers ((timed_out, g) ∷ rounds) = answers rounds
  answers ((closed, g) ∷ rounds) = 1 + answers rounds
  answers ((data_in bytes, g) ∷ rounds) = 1 + answers rounds

  -- The loop among the other tasks.
  abbrev pub phase_after : Rounds → WriterPhase → WriterPhase
  phase_after [] phase = phase
  phase_after ((received, g) ∷ rounds) (receiving remaining) =
      phase_after rounds (write_round rtos remaining received g).0
  phase_after (round ∷ rounds) phase = phase

  abbrev pub in_loop : WriterPhase → Bool
  in_loop (receiving remaining) = true
  in_loop _ = false

  abbrev Left : Rounds → WriterPhase → Type 0
  Left rounds phase = in_loop (phase_after rounds phase) ≡ false

  outside-Left : (rounds : Rounds) (phase : WriterPhase) → in_loop phase ≡ false → Left rounds phase
  outside-Left [] phase out = out
  outside-Left (round ∷ rounds) no_writer out = refl
  outside-Left (round ∷ rounds) (receiving remaining) out = absurd cc
  outside-Left (round ∷ rounds) (ending err) out = refl
  outside-Left (round ∷ rounds) (flushing err flush) out = refl
  outside-Left (round ∷ rounds) (awaiting err) out = refl
  outside-Left (round ∷ rounds) (answering err) out = refl

  loop-Left :
      (rounds : Rounds) (remaining : ℕ)
      → remaining ≤ answers rounds
      → Left rounds (write_loop remaining)
  unfolding write_round write_feed
  loop-Left rounds zero enough = outside-Left rounds _ refl
  loop-Left [] (suc left) enough = absurd (omega arith)
  loop-Left ((timed_out, g) ∷ rounds) (suc left) enough = loop-Left rounds (suc left) enough
  loop-Left ((closed, g) ∷ rounds) (suc left) enough = outside-Left rounds _ refl
  loop-Left ((data_in [], g) ∷ rounds) (suc left) enough = outside-Left rounds _ refl
  loop-Left ((data_in (b ∷ bytes), g) ∷ rounds) (suc left) enough =
      let (err, g') = input_override_feed rtos g (some (b ∷ bytes)) (length (b ∷ bytes)) in
      either (λ (s : WriterPhase × Pipeline rtos). Left rounds s.0) (is_ok err) _ _
        (loop-Left rounds (suc left - length (b ∷ bytes)) (omega (arith, enough)))
        (outside-Left rounds _ refl)

  -- The loop of an upload ends: whatever state the pipeline is in, whatever the other tasks make of
  -- it between the rounds and whatever the socket delivers, once the socket has given as many answers
  -- other than a timeout as the body has bytes, the worker has left the loop.
  pub write_loop_ends :
      (rounds : Rounds) (content_len : ℕ) (g : Pipeline rtos)
      → content_len ≤ answers rounds
      → in_loop (phase_after rounds (write_begin rtos content_len g).0) ≡ false
  unfolding write_begin
  write_loop_ends rounds content_len g enough =
      let (err, g') = input_override_begin rtos g in
      either (λ (s : WriterPhase × Pipeline rtos). Left rounds s.0) (is_ok err) _ _
        (loop-Left rounds content_len enough) (outside-Left rounds _ refl)
