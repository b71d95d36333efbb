-- ===== src/Ota/Server/Header.antt =====
-- The header X-Firmware-SHA256 against the usual text of a digest.
use esp32_wifi_gnss.Prelude.{
  ℕ, ◌+◌, ◌-◌, ◌*◌, ◌/◌, ◌%◌, ◌<◌, ◌≡◌, refl, sym, ap, ◌∙◌, Bool, true, false, Option, none, some,
  [], ◌∷◌, Bytes, All, length, ltb, ◌==◌, if◌then◌else◌, arith, all_below, all_below_use,
}
use esp32_wifi_gnss.Ota.Header.{hex_digit_value, header_byte, header_bytes, sha256_header_parse}

-- A hexadecimal digit, in either case.
abbrev pub hex_text_digit : Bool → ℕ → ℕ
hex_text_digit upper d = if ltb d 10 then b'0' + d else (if upper then b'A' else b'a') + (d - 10)

-- Two digits a byte, the high one first.
unfoldable pub hex_text : Bool → Bytes → Bytes
hex_text upper [] = []
hex_text upper (b ∷ l) =
    hex_text_digit upper (b / 16) ∷ hex_text_digit upper (b % 16) ∷ hex_text upper l

abbrev holds_byte : Option ℕ → ℕ → Bool
holds_byte none b = false
holds_byte (some a) b = a == b

abbrev text_byte : Bool → ℕ → Option ℕ
text_byte upper b =
    header_byte (hex_digit_value (hex_text_digit upper (b / 16)))
      (hex_digit_value (hex_text_digit upper (b % 16)))

text_byte_table : (upper : Bool) → all_below (λ b. holds_byte (text_byte upper b) b) 256 ≡ true
unfolding all_below header_byte hex_digit_value
text_byte_table true = refl
text_byte_table false = refl

holds_byte-some : (m : Option ℕ) (b : ℕ) → holds_byte m b ≡ true → m ≡ some b
holds_byte-some none b h = cc
holds_byte-some (some a) b h = ap some (ground arith)

text_byte-some : (upper : Bool) (b : ℕ) → b < 256 → text_byte upper b ≡ some b
text_byte-some upper b lt =
    holds_byte-some (text_byte upper b) b
      (all_below_use (λ x. holds_byte (text_byte upper x) x) 256 (text_byte_table upper) b lt)

header_bytes-hex_text :
    (upper : Bool) (bytes : Bytes)
    → All (λ b. b < 256) bytes
    → header_bytes (length bytes) (hex_text upper bytes) ≡ some bytes
unfolding header_bytes hex_text
header_bytes-hex_text upper [] h = refl
header_bytes-hex_text upper (b ∷ l) h =
    rw (text_byte-some upper b h.0, header_bytes-hex_text upper l h.1) refl

length-hex_text : (upper : Bool) (bytes : Bytes) → length (hex_text upper bytes) ≡ 2 * length bytes
unfolding hex_text
length-hex_text upper [] = refl
length-hex_text upper (b ∷ l) = omega (arith, length-hex_text upper l)

-- The header parser gives back every 32-byte digest from its hexadecimal text, in capital letters
-- or in small ones.
pub sha256_header_parse-hex_text :
    (upper : Bool) (digest : Bytes)
    → length digest ≡ 32
    → All (λ b. b < 256) digest
    → sha256_header_parse (some (hex_text upper digest)) ≡ some digest
unfolding sha256_header_parse
sha256_header_parse-hex_text upper digest len bytes =
    rw (length-hex_text upper digest, len, sha256_header_parse)
      (ap (λ n. header_bytes n (hex_text upper digest)) (sym len)
        ∙ header_bytes-hex_text upper digest bytes)
