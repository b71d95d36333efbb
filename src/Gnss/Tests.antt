-- ===== src/Gnss/Tests.antt =====
-- The theorems on the GNSS pipeline at concrete sentences.
use esp32_wifi_gnss.Prelude.{
  ℕ, ◌≡◌, ◌≢◌, refl, true, false, not, ◌&&◌, Bytes, some, List, [], ◌∷◌, ◌++◌, length, pos, every,
  every-All, All, ◌==◌, arith,
}
use esp32_wifi_gnss.Rtos.Simple.{simple}
use esp32_wifi_gnss.Nmea.{
  hex_digit_to_value, strip_eol, memchr, xor_range, checksum_matches, stripped_checksum_ok,
  checksum_ok, field_scan, stripped_field_range, get_field_range, decimal_step, decimal_loop,
  decimal_value, parse_decimal_milli, parse_hdop_milli,
}
use esp32_wifi_gnss.Gnss.{ParserState, Candidate, Publication, cleared_parser}
use esp32_wifi_gnss.Gnss.Parser.{parser_feed}
use esp32_wifi_gnss.Gnss.Parser.Bounds.{Kept, parser_feed-Kept}
use esp32_wifi_gnss.Gnss.Parser.Invariant.{IsGga, IsGenuine, cleared-ParserInv}
use esp32_wifi_gnss.Gnss.Parser.Reading.{IsBody, line_of, parser_feed-append}
use esp32_wifi_gnss.Gnss.Parser.Pairing.{IsRmc, IsPair, gga_rmc-IsPair}
use esp32_wifi_gnss.Gnss.Filter.{consider_all, publish_best_candidate}
use esp32_wifi_gnss.Gnss.Filter.Publish.{Sized, Outcome, window-Outcome}
use esp32_wifi_gnss.Gnss.Pipeline.{
  Pipeline, uart_input_feed, selection_timer_callback, filter_step, input_override_begin,
  input_override_feed,
}
use esp32_wifi_gnss.Gnss.Pipeline.Steps.{Reach, here, next, uart, timer, filters, begins, feeds}
use esp32_wifi_gnss.Gnss.Pipeline.Sessions.{IsOfOneSource, sessions}
use esp32_wifi_gnss.Gnss.Pipeline.OneSource.{publication_from_one_source}
use esp32_wifi_gnss.Gnss.Samples.{
  gga_body, rmc_body, candidate_with, fresh_filter, start, start-IsInitial,
}

is_body : (l : Bytes) → every (λ x. not (x == b'$') && not (x == b'\n')) l ≡ true → IsBody l
is_body =
    every-All (λ x. (x ≢ b'$') × (x ≢ b'\n')) (λ x. not (x == b'$') && not (x == b'\n'))
      (λ x h. ground arith)

first_line_ok : IsGga (line_of gga_body) (length (line_of gga_body)) (pos 900)
unfolding checksum_ok stripped_checksum_ok checksum_matches hex_digit_to_value strip_eol memchr
    xor_range parse_hdop_milli get_field_range stripped_field_range field_scan parse_decimal_milli
    decimal_loop decimal_step decimal_value
first_line_ok = record { sum = refl; hdop = refl }

second_line_ok : IsRmc (line_of rmc_body)
unfolding checksum_ok stripped_checksum_ok checksum_matches hex_digit_to_value strip_eol memchr
    xor_range
second_line_ok = record { sum = refl; long = omega arith; rmc = refl }

abbrev collect : List Candidate → Candidate → List Candidate
collect sent c = sent ++ c ∷ []

gga_rmc-IsPair_example :
    (p' : ParserState) × (c : Candidate) × (parser_feed collect 1
        (line_of gga_body ++ line_of rmc_body)
        (cleared_parser, [])
      ≡ (p', collect [] c))
    × IsPair (line_of gga_body) (line_of rmc_body) (pos 900) 1 c
    × (p'.has_pending_gga ≡ false)
gga_rmc-IsPair_example =
    gga_rmc-IsPair collect 1 cleared_parser gga_body rmc_body (pos 900) [] cleared-ParserInv
      (is_body gga_body refl) (is_body rmc_body refl) (omega arith) (omega arith) first_line_ok
      second_line_ok

parser_feed-append_example :
    parser_feed collect 1 (line_of gga_body ++ line_of rmc_body) (cleared_parser, [])
    ≡ parser_feed collect 1
        (line_of rmc_body)
        (parser_feed collect 1 (line_of gga_body) (cleared_parser, []))
parser_feed-append_example =
    parser_feed-append collect 1 (line_of gga_body) (line_of rmc_body) (cleared_parser, [])

keep_genuine :
    (sent : List Candidate) (c : Candidate)
    → IsGenuine 1 c
    → All (IsGenuine 1) sent
    → All (IsGenuine 1) (collect sent c)
keep_genuine [] c g h = (g, tt)
keep_genuine (x ∷ sent) c g h = (h.0, keep_genuine sent c g h.1)

parser_feed-Kept_example :
    Kept collect 1
      (All (IsGenuine 1))
      keep_genuine
      (parser_feed collect 1 (line_of gga_body ++ line_of rmc_body) (cleared_parser, []))
parser_feed-Kept_example =
    parser_feed-Kept collect 1 (All (IsGenuine 1)) keep_genuine
      (line_of gga_body ++ line_of rmc_body) cleared_parser [] cleared-ParserInv tt

abbrev window : List Candidate
window = candidate_with 1500 1 ∷ candidate_with 700 0 ∷ candidate_with 900 1 ∷ []

candidate_with-Sized : (hdop epoch : ℕ) → Sized (candidate_with hdop epoch)
candidate_with-Sized hdop epoch = record {
  gga_fits = record { size = refl; within = omega arith };
  rmc_fits = record { size = refl; within = omega arith };
}

abbrev put : List Publication → Publication → List Publication
put q p = p ∷ []

window-Outcome_example :
    Outcome put 1 fresh_filter [] window
      (publish_best_candidate put 1 (consider_all 1 fresh_filter window, []))
window-Outcome_example =
    window-Outcome put 1 fresh_filter [] window refl
      (candidate_with-Sized 1500 1, (candidate_with-Sized 700 0, (candidate_with-Sized 900 1, tt)))

-- A GGA from the UART, then an upload of both lines.
abbrev upload : Bytes
upload = line_of gga_body ++ line_of rmc_body

abbrev begun : Pipeline simple
begun = (input_override_begin simple (uart_input_feed simple start (line_of gga_body))).1

abbrev fed : Pipeline simple
fed = (input_override_feed simple begun (some upload) (length upload)).1

abbrev end : Pipeline simple
end = filter_step simple (filter_step simple (selection_timer_callback simple fed))

end-Reach : Reach simple start end
end-Reach =
    next
      (next
        (next
          (next (next (next here (uart (line_of gga_body))) begins)
            (feeds (some upload) (length upload)))
          timer)
        filters)
      filters

publication_from_one_source_example :
    All (IsOfOneSource (sessions simple end-Reach)) (simple.items end.publication_queue)
publication_from_one_source_example = publication_from_one_source simple start-IsInitial end-Reach
