-- ===== src/Nmea/Gga.antt =====
-- `nmea_parse_hdop_milli` on a whole GGA sentence.
use esp32_wifi_gnss.Prelude.{
  ℕ, zero, suc, ◌+◌, ◌*◌, ◌≤◌, ◌≡◌, ◌≢◌, refl, sym, ap, ap₂, ◌∙◌, ◌⊎◌, inl, true, false, none, some,
  List, [], ◌∷◌, ◌++◌, Bytes, length, drop, All, All-append, append_assoc, signed32, ltb,
  if◌then◌else◌, arith,
}
use esp32_wifi_gnss.Nmea.{strip_eol, get_field_range, parse_hdop_milli}
use esp32_wifi_gnss.Nmea.Fields.{
  IsField, layout, with_commas, field_start, get_field_range-layout, layout-stop, strip_eol-le,
}
use esp32_wifi_gnss.Nmea.Hdop.{parse_decimal_milli-dotted}
use esp32_wifi_gnss.Nmea.Digits.{IsDigit, digits_value, thousandths}

-- The address of a GGA sentence of talker `t u`.
abbrev pub gga_address : ℕ → ℕ → Bytes
gga_address t u = b'$' ∷ t ∷ u ∷ b'G' ∷ b'G' ∷ b'A' ∷ []

drop-append : (xs ys : Bytes) (n : ℕ) → n ≡ length xs → drop n (xs ++ ys) ≡ ys
drop-append [] ys zero e = refl
drop-append [] ys (suc n) e = absurd (omega arith)
drop-append (x ∷ xs) ys zero e = absurd (omega arith)
drop-append (x ∷ xs) ys (suc n) e = drop-append xs ys n (omega arith)

drop-layout :
    (pre : Bytes) (fs : List Bytes) (f stop : Bytes)
    → drop (field_start pre fs) (layout pre fs f stop) ≡ f ++ stop
drop-layout [] fs f stop =
    ap₂ drop (omega arith) (append_assoc (with_commas fs) f stop)
    ∙ drop-append (with_commas fs) (f ++ stop) _ refl
drop-layout (p ∷ pre) fs f stop =
    ap (λ n. drop n (layout (p ∷ pre) fs f stop)) {x = field_start (p ∷ pre) fs}
      {y = suc (field_start pre fs)} (omega arith)
    ∙ drop-layout pre fs f stop

IsDigit-IsField : (ds : Bytes) → All IsDigit ds → IsField ds
IsDigit-IsField [] h = tt
IsDigit-IsField (x ∷ ds) h = ((omega arith, omega arith), IsDigit-IsField ds h.1)

decimal-IsField : (ds fs : Bytes) → All IsDigit ds → All IsDigit fs → IsField (ds ++ b'.' ∷ fs)
decimal-IsField ds fs hd hf =
    All-append _ ds (b'.' ∷ fs) (IsDigit-IsField ds hd)
      ((omega arith, omega arith), IsDigit-IsField fs hf)

dotted_nonempty : (ds fs : Bytes) → ltb 0 (length (ds ++ b'.' ∷ fs)) ≡ true
dotted_nonempty [] fs = ground arith
dotted_nonempty (x ∷ ds) fs = ground arith

module _ (t u : ℕ) (fs : List Bytes) (whole frac stop : Bytes) (len : ℕ) where
  -- The HDOP of a GGA sentence is its field 8, whatever stands in the seven fields before it and
  -- behind it: where that field is digits with a dot, at least one of them, and a comma follows within
  -- the sentence, the result is its value in thousandths, three decimals read and the rest cut off, in
  -- the arithmetic of a 32-bit `int`, which wraps.
  pub parse_hdop_milli-gga :
      (t ≢ b',')
      → (u ≢ b',')
      → All IsField fs
      → length fs ≡ 7
      → All IsDigit whole
      → All IsDigit frac
      → (whole ≢ []) ⊎ (frac ≢ [])
      → let hdop = whole ++ b'.' ∷ frac in
        let s = layout (gga_address t u) fs hdop (b',' ∷ stop) in
        field_start (gga_address t u) fs + length hdop ≤ strip_eol s len
        → parse_hdop_milli s len ≡ some (signed32 (digits_value 0 whole * 1000 + thousandths frac))
  unfolding parse_hdop_milli
  parse_hdop_milli-gga ht hu hfs seven hw hf ne fits =
      rw (parse_hdop_milli, long, found, drop-layout (gga_address t u) fs hdop (b',' ∷ stop))
        (parse_decimal_milli-dotted whole frac (b',' ∷ stop) hw hf ne)
    where
      hdop : Bytes
      hdop = whole ++ b'.' ∷ frac

      s : Bytes
      s = layout (gga_address t u) fs hdop (b',' ∷ stop)

      long : ltb len 6 ≡ false
      long = ground (arith, strip_eol-le s len)

      found : get_field_range s len 8 ≡ some (field_start (gga_address t u) fs, length hdop)
      found =
          ap (λ n. get_field_range s len (suc n)) (sym seven)
          ∙ get_field_range-layout (gga_address t u) fs hdop (b',' ∷ stop) len (omega arith) hfs
              (decimal-IsField whole frac hw hf) fits
              (inl (layout-stop (gga_address t u) fs hdop stop b','))
          ∙ ap (λ b. if b then some (field_start (gga_address t u) fs, length hdop) else none)
              (dotted_nonempty whole frac)
