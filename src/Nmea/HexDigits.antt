-- ===== src/Nmea/HexDigits.antt =====
-- The two hexadecimal digits that `nmea_checksum_ok` of main/gnss.c reads, against their values.
use esp32_wifi_gnss.Prelude.{
  ℕ, ◌+◌, ◌-◌, ◌*◌, ◌/◌, ◌%◌, ◌≤◌, ◌<◌, ◌≡◌, ◌⊎◌, refl, ap₂, ◌∙◌, Bool, true, false, pos, pos_part,
  bit_or, ◌==◌, arith, all_below, all_below_use,
}
use esp32_wifi_gnss.Nmea.{hex_digit_to_value, is_neg}
use esp32_wifi_gnss.Nmea.Frame.{digits_match}

-- `c` is the digit of `v`: 0 to 9, A to F, or a to f.
abbrev pub IsHexDigit : ℕ → ℕ → Type 0
IsHexDigit c v =
    ((v < 10) × (c ≡ b'0' + v))
    ⊎ (((10 ≤ v) × (v < 16) × (c ≡ b'A' + (v - 10)))
        ⊎ ((10 ≤ v) × (v < 16) × (c ≡ b'a' + (v - 10))))

-- The bytes `hi` and `lo` are the digits of `sum`.
pub record IsHexByte (hi lo sum : ℕ) : Type 0 where
  pub high : ℕ
  pub low : ℕ
  pub high_digit : IsHexDigit hi high
  pub low_digit : IsHexDigit lo low
  pub value : sum ≡ high * 16 + low

digit-below : (c v : ℕ) → IsHexDigit c v → v < 16
digit-below c v h = ground arith

digit-value : (c v : ℕ) → IsHexDigit c v → hex_digit_to_value c ≡ pos v
unfolding hex_digit_to_value
digit-value c v h = ground arith

value-IsHexDigit :
    (c : ℕ) → is_neg (hex_digit_to_value c) ≡ false → IsHexDigit c (pos_part (hex_digit_to_value c))
unfolding hex_digit_to_value
value-IsHexDigit c h = ground arith

abbrev or_table : ℕ → Bool
or_table x = bit_or ((x / 16) * 16) (x % 16) % 256 == x

or_table_holds : all_below or_table 256 ≡ true
unfolding all_below
or_table_holds = refl

or_sum : (h l : ℕ) → h < 16 → l < 16 → bit_or (h * 16) l % 256 ≡ h * 16 + l
or_sum h l hh hl =
    ap₂ (λ a b. bit_or (a * 16) b % 256) {x = h} {y = (h * 16 + l) / 16} (omega arith) (omega arith)
    ∙ table
  where
    x : ℕ
    x = h * 16 + l

    table : bit_or ((x / 16) * 16) (x % 16) % 256 ≡ x
    table = ground (arith, all_below_use or_table 256 or_table_holds x (omega arith))

pub digits_match-IsHexByte : (hi lo sum : ℕ) → digits_match hi lo sum ≡ true → IsHexByte hi lo sum
digits_match-IsHexByte hi lo sum h = record {
  high = pos_part (hex_digit_to_value hi);
  low = pos_part (hex_digit_to_value lo);
  high_digit = high';
  low_digit = low';
  value = ground (arith, h, or_sum _ _ (digit-below hi _ high') (digit-below lo _ low'));
}
  where
    high' : IsHexDigit hi (pos_part (hex_digit_to_value hi))
    high' = value-IsHexDigit hi (ground (arith, h))

    low' : IsHexDigit lo (pos_part (hex_digit_to_value lo))
    low' = value-IsHexDigit lo (ground (arith, h))

pub IsHexByte-digits_match : (hi lo sum : ℕ) → IsHexByte hi lo sum → digits_match hi lo sum ≡ true
IsHexByte-digits_match hi lo sum b =
    rw (digit-value hi b.high b.high_digit, digit-value lo b.low b.low_digit)
      (ground (
        arith,
        b.value,
        or_sum b.high b.low (digit-below hi _ b.high_digit) (digit-below lo _ b.low_digit),
      ))
