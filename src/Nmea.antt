-- ===== src/Nmea.antt =====
-- The NMEA routines of main/gnss.c: checksum, sentence type, comma-separated fields, and HDOP in
-- thousandths. A sentence is the array that the C code is handed, with the length beside it; a
-- read past the end of the array gives 0. A pointer into it is an index.
pub mod Frame
pub mod Checksum
pub mod Layout
pub mod HexDigits
pub mod Sealed
pub mod Fields
pub mod Digits
pub mod Hdop
pub mod Gga
pub mod Locality
mod Tests
use esp32_wifi_gnss.Prelude.{
  ℕ, zero, suc, ◌+◌, ◌-◌, ◌*◌, ◌%◌, ◌^◌, Bool, true, false, not, ◌&&◌, ◌||◌, Option, none, some, ℤ,
  pos, negsuc, signed32, Bytes, get_or, drop, ltb, leb, ◌==◌, if◌then◌else◌, bit_or, bit_xor, ltb_ℤ,
  pos_part,
}

-- GNSS_NMEA_MAX_SENTENCE_LEN
abbrev pub max_sentence_len : ℕ
max_sentence_len = 128

-- NMEA_PREFIX_LEN
abbrev pub prefix_len : ℕ
prefix_len = 6

unfoldable pub hex_digit_to_value : ℕ → ℤ
hex_digit_to_value digit =
    if leb b'0' digit && leb digit b'9'
    then pos (digit - b'0')
    else if leb b'A' digit && leb digit b'F'
    then pos (digit - b'A' + 10)
    else if leb b'a' digit && leb digit b'f'
    then pos (digit - b'a' + 10)
    else negsuc 0

abbrev pub is_eol : ℕ → Bool
is_eol byte = byte == b'\r' || byte == b'\n'

-- `while (len > 0 && (sentence[len - 1] == '\r' || sentence[len - 1] == '\n')) len--;`
unfoldable pub strip_eol : Bytes → ℕ → ℕ
strip_eol sentence zero = 0
strip_eol sentence (suc len) = elim (is_eol (get_or sentence len 0)) [
  | true ↦ strip_eol sentence len
  | false ↦ suc len
]

-- `memchr` from index `i` over `n` bytes; the pointer that it returns is an index.
unfoldable pub memchr : Bytes → ℕ → ℕ → ℕ → Option ℕ
memchr s c i zero = none
memchr s c i (suc n) = elim (get_or s i 0 == c) [ true ↦ some i | false ↦ memchr s c (suc i) n ]

-- The loop `for (ptr = ...; ptr < star; ptr++) checksum ^= *ptr;` from index `i`, `n` rounds.
unfoldable pub xor_range : Bytes → ℕ → ℕ → ℕ → ℕ
xor_range s i zero checksum = checksum
xor_range s i (suc n) checksum = xor_range s (suc i) n (bit_xor checksum (get_or s i 0))

abbrev pub is_neg : ℤ → Bool
is_neg v = ltb_ℤ v (pos 0)

-- `(uint8_t)((high << 4) | low)`, for digits that are not negative
abbrev pub hex_byte : ℤ → ℤ → ℕ
hex_byte high low = bit_or (pos_part high * 16) (pos_part low) % 256

-- The part of `nmea_checksum_ok` behind the search for '*'.
unfoldable pub checksum_matches : Bytes → ℕ → ℕ → Bool
checksum_matches sentence len star =
    let high = hex_digit_to_value (get_or sentence (star + 1) 0) in
    let low = hex_digit_to_value (get_or sentence (star + 2) 0) in
    if not (len - star == 3)
    then false
    else if is_neg high || is_neg low
    then false
    else xor_range sentence 1 (star - 1) 0 == hex_byte high low

-- The same, with the line ends stripped.
unfoldable pub stripped_checksum_ok : Bytes → ℕ → Bool
stripped_checksum_ok sentence len =
    if ltb len 10 || not (get_or sentence 0 0 == b'$')
    then false
    else elim (memchr sentence b'*' 1 (len - 1)) [
      | none ↦ false
      | some star ↦ checksum_matches sentence len star
    ]

unfoldable pub checksum_ok : Bytes → ℕ → Bool
checksum_ok sentence len = stripped_checksum_ok sentence (strip_eol sentence len)

-- `memcmp(sentence + NMEA_TYPE_OFFSET, "...", 3) == 0`
abbrev pub type_is : Bytes → ℕ → ℕ → ℕ → Bool
type_is sentence a b c =
    get_or sentence 3 0 == a && get_or sentence 4 0 == b && get_or sentence 5 0 == c

unfoldable pub sentence_looks_valid : Bytes → ℕ → Bool
sentence_looks_valid sentence len =
    if ltb len prefix_len || not (get_or sentence 0 0 == b'$')
    then false
    else type_is sentence b'G' b'G' b'A'
      || (type_is sentence b'R' b'M' b'C'
          || (type_is sentence b'G' b'L' b'L'
              || (type_is sentence b'V' b'T' b'G'
                  || (type_is sentence b'G' b'S' b'A' || type_is sentence b'G' b'S' b'V'))))

-- The loop of `nmea_get_field_range`, with the number of rounds left: `cursor` runs up to `end`
-- itself. A field is its first index and its length.
unfoldable pub field_scan : Bytes → ℕ → ℕ → ℕ → ℕ → ℕ → ℕ → Option (ℕ × ℕ)
field_scan sentence end field_number zero cursor start current = none
field_scan sentence end field_number (suc rounds) cursor start current =
    let same = field_scan sentence end field_number rounds (suc cursor) start current in
    let next =
      field_scan sentence end field_number rounds (suc cursor) (suc cursor) (suc current) in
    let byte = get_or sentence cursor 0 in
    if cursor == end || (byte == b',' || byte == b'*')
    then (if current == field_number
        then (if ltb 0 (cursor - start) then some (start, cursor - start) else none)
        else if cursor == end || byte == b'*'
        then none
        else next)
    else same

-- The same, with the line ends stripped.
unfoldable pub stripped_field_range : Bytes → ℕ → ℕ → Option (ℕ × ℕ)
stripped_field_range sentence end field_number = elim (memchr sentence b',' 0 end) [
  | none ↦ none
  | some comma ↦
      field_scan sentence end field_number (end + 1 - suc comma) (suc comma) (suc comma) 1
]

unfoldable pub get_field_range : Bytes → ℕ → ℕ → Option (ℕ × ℕ)
get_field_range sentence len = stripped_field_range sentence (strip_eol sentence len)

-- The local variables of `nmea_parse_decimal_milli`. The `int`s are bit patterns modulo 2 ^ 32:
-- where C leaves a signed overflow undefined, the pattern wraps.
pub record Decimal : Type 0 where
  pub integer_part : ℕ
  pub fractional_part : ℕ
  pub fractional_digits : ℕ
  pub seen_dot : Bool
  pub seen_digit : Bool

abbrev pub int_mod : ℕ
int_mod = 2 ^ 32

-- One round of its loop; `none` is `return false`.
unfoldable pub decimal_step : Decimal → ℕ → Option Decimal
decimal_step d byte =
    if byte == b'.'
    then (if d.seen_dot then none else some (record d { seen_dot = true }))
    else if ltb byte b'0' || ltb b'9' byte
    then none
    else if not d.seen_dot
    then some (record d {
      integer_part = (d.integer_part * 10 + (byte - b'0')) % int_mod;
      seen_digit = true;
    })
    else if ltb d.fractional_digits 3
    then some (record d {
      fractional_part = (d.fractional_part * 10 + (byte - b'0')) % int_mod;
      fractional_digits = d.fractional_digits + 1;
      seen_digit = true;
    })
    else some (record d { seen_digit = true })

-- The loop over `n` bytes of the field from index `i`.
unfoldable pub decimal_loop : Bytes → ℕ → ℕ → Decimal → Option Decimal
decimal_loop field i zero d = some d
decimal_loop field i (suc n) d = elim (decimal_step d (get_or field i 0)) [
  | none ↦ none
  | some d' ↦ decimal_loop field (suc i) n d'
]

-- `while (fractional_digits < 3) { fractional_part *= 10; fractional_digits++; }`: the rounds left
-- are `3 - fractional_digits`.
unfoldable pub pad_fraction : ℕ → ℕ → ℕ
pad_fraction zero fractional_part = fractional_part
pad_fraction (suc n) fractional_part = pad_fraction n (fractional_part * 10 % int_mod)

abbrev pub decimal_start : Decimal
decimal_start = record {
  integer_part = 0;
  fractional_part = 0;
  fractional_digits = 0;
  seen_dot = false;
  seen_digit = false;
}

-- What follows the loop.
unfoldable pub decimal_value : Decimal → Option ℤ
unfolding pad_fraction
decimal_value d =
    if not d.seen_digit
    then none
    else some (
        signed32 (d.integer_part * 1000 + pad_fraction (3 - d.fractional_digits) d.fractional_part))

-- `field` is the memory from the pointer on.
unfoldable pub parse_decimal_milli : Bytes → ℕ → Option ℤ
parse_decimal_milli field len = elim (decimal_loop field 0 len decimal_start) [
  | none ↦ none
  | some d ↦ decimal_value d
]

-- HDOP is field 8.
unfoldable pub parse_hdop_milli : Bytes → ℕ → Option ℤ
parse_hdop_milli sentence len =
    if ltb len prefix_len
      || (not (get_or sentence 0 0 == b'$') || not (type_is sentence b'G' b'G' b'A'))
    then none
    else elim (get_field_range sentence len 8) [
      | none ↦ none
      | some (start, field_len) ↦ parse_decimal_milli (drop start sentence) field_len
    ]
