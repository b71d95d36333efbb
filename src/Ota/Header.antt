-- ===== src/Ota/Header.antt =====
-- `ota_sha256_header_parse` of main/ota_update.c.
use esp32_wifi_gnss.Prelude.{
  ℕ, zero, suc, ◌+◌, ◌*◌, ◌&&◌, ◌||◌, Option, none, some, [], ◌∷◌, Bytes, ℤ, pos, negsuc, ◌-◌, ◌^◌,
  ◌%◌, length, leb, ltb_ℤ, ◌==◌, if◌then◌else◌, bit_or, pos_part,
}

unfoldable pub hex_digit_value : ℕ → ℤ
hex_digit_value digit =
    if leb b'0' digit && leb digit b'9'
    then pos (digit - b'0')
    else if leb b'A' digit && leb digit b'F'
    then pos (digit - b'A' + 10)
    else if leb b'a' digit && leb digit b'f'
    then pos (digit - b'a' + 10)
    else negsuc 0

-- The body of the loop of `ota_sha256_header_parse`.
unfoldable pub header_byte : ℤ → ℤ → Option ℕ
header_byte high low =
    if ltb_ℤ high (pos 0) || ltb_ℤ low (pos 0)
    then none
    else some (bit_or (pos_part high * 16) (pos_part low) % 2 ^ 8)

-- The rest of the output counts only where the byte is right.
abbrev pub header_cons : Option ℕ → Option Bytes → Option Bytes
header_cons (some byte) (some output) = some (byte ∷ output)
header_cons _ _ = none

-- `count` bytes from the text `value`.
unfoldable pub header_bytes : ℕ → Bytes → Option Bytes
unfolding hex_digit_value header_byte
header_bytes zero value = some []
header_bytes (suc count) (high ∷ low ∷ value) =
    header_cons (header_byte (hex_digit_value high) (hex_digit_value low))
      (header_bytes count value)
header_bytes (suc count) value = none

unfoldable pub sha256_header_parse : Option Bytes → Option Bytes
unfolding header_bytes
sha256_header_parse none = none
sha256_header_parse (some value) = if length value == 64 then header_bytes 32 value else none
