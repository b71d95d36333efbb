-- ===== src/Nmea/Tests.antt =====
-- Runs of the NMEA routines, and the theorems at concrete sentences.
use esp32_wifi_gnss.Prelude.{
  ◌/◌, ◌%◌, ◌<◌, ◌≡◌, ◌≢◌, ◌↔◌, take, refl, inl, inr, true, false, not, none, some, Bytes, List, [],
  ◌∷◌, ◌++◌, length, pos, codes, every, every-All, All, ltb, leb, ◌==◌, ◌&&◌, arith,
}
use esp32_wifi_gnss.Nmea.{
  hex_digit_to_value, strip_eol, memchr, xor_range, checksum_matches, stripped_checksum_ok,
  checksum_ok, field_scan, stripped_field_range, get_field_range, decimal_step, decimal_loop,
  decimal_value, parse_decimal_milli, parse_hdop_milli,
}
use esp32_wifi_gnss.Nmea.Checksum.{hex_digit, checksum_ok-round_trip, checksum_ok_detects_change}
use esp32_wifi_gnss.Nmea.Frame.{frame, frame_len, NoStar, AreBytes, xor_all}
use esp32_wifi_gnss.Nmea.Sealed.{IsSealed, checksum_ok_iff}
use esp32_wifi_gnss.Nmea.Fields.{IsField, layout, get_field_range-layout}
use esp32_wifi_gnss.Nmea.Hdop.{parse_decimal_milli-dotted, parse_decimal_milli-rejects}
use esp32_wifi_gnss.Nmea.Digits.{IsDigit}
use esp32_wifi_gnss.Nmea.Gga.{gga_address, parse_hdop_milli-gga}

abbrev gga : Bytes
gga =
    codes "$GPGGA,123519,4807.038,N,01131.000,E,1,08,0.9,545.4,M,46.9,M,,*47" ++ b'\r' ∷ b'\n' ∷ []

gga_checksum : checksum_ok gga (length gga) ≡ true
unfolding checksum_ok stripped_checksum_ok checksum_matches hex_digit_to_value strip_eol memchr
    xor_range
gga_checksum = refl

gga_hdop : parse_hdop_milli gga (length gga) ≡ some (pos 900)
unfolding parse_hdop_milli get_field_range stripped_field_range field_scan strip_eol memchr
    parse_decimal_milli decimal_loop decimal_step decimal_value
gga_hdop = refl

-- An HDOP text of nine digits and more wraps: this one counts as 0.
wrapped_hdop : parse_decimal_milli (codes "4294967296.0") 12 ≡ some (pos 0)
unfolding parse_decimal_milli decimal_loop decimal_step decimal_value
wrapped_hdop = refl

abbrev payload : Bytes
payload = codes "GPGGA,123519,4807.038,N,01131.000,E,1,08,0.9,545.4,M,46.9,M,,"

no_star : (l : Bytes) → every (λ x. not (x == b'*')) l ≡ true → NoStar l
no_star = every-All (λ x. x ≢ b'*') (λ x. not (x == b'*')) (λ x h. ground arith)

are_bytes : (l : Bytes) → every (λ x. ltb x 256) l ≡ true → AreBytes l
are_bytes = every-All (λ x. x < 256) (λ x. ltb x 256) (λ x h. ground arith)

no_comma : (l : Bytes) → every (λ x. not (x == b',')) l ≡ true → All (λ x. x ≢ b',') l
no_comma = every-All (λ x. x ≢ b',') (λ x. not (x == b',')) (λ x h. ground arith)

is_field : (l : Bytes) → every (λ x. not (x == b',') && not (x == b'*')) l ≡ true → IsField l
is_field =
    every-All (λ x. (x ≢ b',') × (x ≢ b'*')) (λ x. not (x == b',') && not (x == b'*'))
      (λ x h. ground arith)

is_digits : (l : Bytes) → every (λ x. leb b'0' x && leb x b'9') l ≡ true → All IsDigit l
is_digits = every-All IsDigit (λ x. leb b'0' x && leb x b'9') (λ x h. ground arith)

checksum_ok_iff_example : (checksum_ok gga (length gga) ≡ true) ↔ IsSealed (take (length gga) gga)
checksum_ok_iff_example = checksum_ok_iff gga (length gga) (omega arith)

checksum_ok-round_trip_example :
    checksum_ok
      (frame payload (hex_digit (xor_all 0 payload / 16)) (hex_digit (xor_all 0 payload % 16)) [])
      (frame_len payload)
    ≡ true
checksum_ok-round_trip_example =
    checksum_ok-round_trip payload [] (are_bytes payload refl) (no_star payload refl) (omega arith)

abbrev before : Bytes
before = codes "GPGGA,123519,4807.038,N,01131.000,E,1,08,"

abbrev behind : Bytes
behind = codes ".9,545.4,M,46.9,M,,"

checksum_ok_detects_change_example :
    checksum_ok (frame (before ++ b'9' ∷ behind) b'4' b'7' []) (frame_len (before ++ b'0' ∷ behind))
    ≡ false
unfolding checksum_ok stripped_checksum_ok checksum_matches hex_digit_to_value strip_eol memchr
    xor_range
checksum_ok_detects_change_example =
    checksum_ok_detects_change before behind b'0' b'9' b'4' b'7' [] (are_bytes before refl)
      (are_bytes behind refl) (omega arith) (omega arith) (no_star (before ++ b'0' ∷ behind) refl)
      (omega arith) refl (omega arith) refl

abbrev seven : List Bytes
seven =
    codes "123519"
    ∷ codes "4807.038"
    ∷ codes "N"
    ∷ codes "01131.000"
    ∷ codes "E"
    ∷ codes "1"
    ∷ codes "08"
    ∷ []

seven-IsField : All IsField seven
seven-IsField = (
  is_field (codes "123519") refl,
  (
    is_field (codes "4807.038") refl,
    (
      is_field (codes "N") refl,
      (
        is_field (codes "01131.000") refl,
        (is_field (codes "E") refl, (is_field (codes "1") refl, (is_field (codes "08") refl, tt))),
      ),
    ),
  ),
)

abbrev sentence : Bytes
sentence = layout (gga_address b'G' b'P') seven (codes "0.9") (codes ",545.4,M,46.9,M,,*47")

parse_hdop_milli-gga_example : parse_hdop_milli sentence (length sentence) ≡ some (pos 900)
unfolding strip_eol
parse_hdop_milli-gga_example =
    parse_hdop_milli-gga b'G' b'P' seven (codes "0") (codes "9") (codes "545.4,M,46.9,M,,*47")
      (length sentence) (omega arith) (omega arith) seven-IsField refl (is_digits (codes "0") refl)
      (is_digits (codes "9") refl) (inl (λ e. cc)) (omega arith)

get_field_range-layout_example : get_field_range sentence (length sentence) 8 ≡ some (42, 3)
unfolding strip_eol
get_field_range-layout_example =
    get_field_range-layout (gga_address b'G' b'P') seven (codes "0.9")
      (codes ",545.4,M,46.9,M,,*47") (length sentence) (no_comma (gga_address b'G' b'P') refl)
      seven-IsField (is_field (codes "0.9") refl) (omega arith) (inl refl)

parse_decimal_milli-dotted_example : parse_decimal_milli (codes "12.3456,M") 7 ≡ some (pos 12345)
parse_decimal_milli-dotted_example =
    parse_decimal_milli-dotted (codes "12") (codes "3456") (codes ",M")
      (is_digits (codes "12") refl) (is_digits (codes "3456") refl) (inl (λ e. cc))

parse_decimal_milli-rejects_example : parse_decimal_milli (codes "1.x5") 4 ≡ none
parse_decimal_milli-rejects_example =
    parse_decimal_milli-rejects (codes "1.") (codes "5") [] b'x' (inr (omega arith)) (omega arith)
