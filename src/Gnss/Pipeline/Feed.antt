-- ===== src/Gnss/Pipeline/Feed.antt =====
-- How the bytes are divided makes no difference to the pipeline of main/gnss.c.
use esp32_wifi_gnss.Prelude.{
  ℕ, zero, suc, ◌≤◌, ◌≡◌, refl, sym, ap, ◌∙◌, [], ◌∷◌, ◌++◌, Bytes, length, length-drop, take, drop,
  take-append-drop, min, arith,
}
use esp32_wifi_gnss.Rtos.{Rtos}
use esp32_wifi_gnss.Gnss.Parser.{parser_feed}
use esp32_wifi_gnss.Gnss.Parser.Reading.{parser_feed-append}
use esp32_wifi_gnss.Gnss.Pipeline.{Pipeline, candidate_send, feed_parser, feed_chunks}

module _ (rtos : Rtos) where
  pub feed_parser-append :
      (xs ys : Bytes) (g : Pipeline rtos)
      → feed_parser rtos (xs ++ ys) g ≡ feed_parser rtos ys (feed_parser rtos xs g)
  unfolding feed_parser
  feed_parser-append xs ys g =
      ap (λ r. record g { parser_state = r.0; candidate_queue = r.1.0; filter_queue_set = r.1.1 })
        (parser_feed-append (candidate_send rtos) g.input_epoch xs ys
          (g.parser_state, (g.candidate_queue, g.filter_queue_set)))

  -- However the loop of `gnss_input_override_feed` divides the bytes, they reach the parser as they
  -- are.
  pub feed_chunks-feed_parser :
      (limit rounds : ℕ) (bytes : Bytes) (g : Pipeline rtos)
      → 1 ≤ limit
      → length bytes ≤ rounds
      → feed_chunks (feed_parser rtos) limit rounds bytes g ≡ feed_parser rtos bytes g
  unfolding feed_chunks feed_parser parser_feed
  feed_chunks-feed_parser limit zero [] g one fits = refl
  feed_chunks-feed_parser limit zero (b ∷ bytes) g one fits = absurd (omega (arith, fits))
  feed_chunks-feed_parser limit (suc rounds) [] g one fits = refl
  feed_chunks-feed_parser limit (suc rounds) (b ∷ bytes) g one fits =
      let n = min (length (b ∷ bytes)) limit in
      feed_chunks-feed_parser limit rounds (drop n (b ∷ bytes)) _ one
        (omega (arith, length-drop n (b ∷ bytes)))
      ∙ sym (feed_parser-append (take n (b ∷ bytes)) (drop n (b ∷ bytes)) g)
      ∙ ap (λ l. feed_parser rtos l g) (take-append-drop n (b ∷ bytes))
