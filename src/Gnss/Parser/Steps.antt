-- ===== src/Gnss/Parser/Steps.antt =====
-- The branches of one round of the loop of `nmea_parser_feed`.
use esp32_wifi_gnss.Prelude.{ℕ, ◌≡◌, true, false, leb, ◌==◌, arith}
use esp32_wifi_gnss.Nmea.{max_sentence_len}
use esp32_wifi_gnss.Gnss.{ParserState, Candidate}
use esp32_wifi_gnss.Gnss.Parser.{
  complete_sentence, start_sentence, reset_sentence, append_byte, parser_byte,
}

module _ {Q : Type 0} (candidate_send : Q → Candidate → Q) (epoch : ℕ) (p : ParserState) (q : Q)
    (byte : ℕ) where
  pub parser_byte-start :
      (byte == b'$') ≡ true
      → parser_byte candidate_send epoch (p, q) byte ≡ (start_sentence p byte, q)
  unfolding parser_byte
  parser_byte-start e = ground arith

  pub parser_byte-skip :
      (byte == b'$') ≡ false
      → p.in_sentence ≡ false
      → parser_byte candidate_send epoch (p, q) byte ≡ (p, q)
  unfolding parser_byte
  parser_byte-skip e out = ground arith

  pub parser_byte-overlong :
      (byte == b'$') ≡ false
      → p.in_sentence ≡ true
      → leb max_sentence_len p.sentence_len ≡ true
      → parser_byte candidate_send epoch (p, q) byte ≡ (reset_sentence p, q)
  unfolding parser_byte
  parser_byte-overlong e within full = ground arith

  pub parser_byte-append :
      (byte == b'$') ≡ false
      → p.in_sentence ≡ true
      → leb max_sentence_len p.sentence_len ≡ false
      → (byte == b'\n') ≡ false
      → parser_byte candidate_send epoch (p, q) byte ≡ (append_byte p byte, q)
  unfolding parser_byte
  parser_byte-append e within free on = ground arith

  pub parser_byte-line :
      (byte == b'$') ≡ false
      → p.in_sentence ≡ true
      → leb max_sentence_len p.sentence_len ≡ false
      → (byte == b'\n') ≡ true
      → parser_byte candidate_send epoch (p, q) byte ≡ (
          let (p', q') = complete_sentence candidate_send epoch (append_byte p byte) q in
          (reset_sentence p', q'))
  unfolding parser_byte
  parser_byte-line e within free end = ground arith
