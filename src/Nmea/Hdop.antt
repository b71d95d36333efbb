-- ===== src/Nmea/Hdop.antt =====
-- `nmea_parse_decimal_milli` against decimal notation.
use esp32_wifi_gnss.Prelude.{
  ℕ, suc, ◌+◌, ◌-◌, ◌*◌, ◌%◌, ◌^◌, ◌<◌, ◌≡◌, ◌≢◌, refl, ap, ◌∙◌, ◌⊎◌, inl, inr, Bool, true, false,
  none, some, [], ◌∷◌, ◌++◌, Bytes, length, All, signed32, signed32_cong, not, if◌then◌else◌, arith,
  Option-cases,
}
use esp32_wifi_gnss.Nmea.{
  Decimal, decimal_step, decimal_start, decimal_value, pad_fraction, parse_decimal_milli, int_mod,
}
use esp32_wifi_gnss.Nmea.Digits.{
  IsDigit, digits_value, thousandths, steps, decimal_loop-append, steps-append, whole, seen_after,
  steps-digits, dotted, steps-extra,
}

-- The fraction's loop leaves, padded to three digits, the thousandths; the rest is not read.
fraction_padded : Decimal → ℕ
fraction_padded d = pad_fraction (3 - d.fractional_digits) d.fractional_part

step-fraction :
    (v f k x : ℕ) (b : Bool)
    → IsDigit x
    → k < 3
    → decimal_step (dotted v f k b) x ≡ some (dotted v (f * 10 + (x - b'0')) (suc k) true)
unfolding decimal_step
step-fraction v f k x b h l = ground arith

-- The fraction `fs` of a number is read to the digits `d`, which pad to its thousandths.
record Fraction (v : ℕ) (b : Bool) (fs : Bytes) (d : Decimal) : Type 0 where
  read : steps fs (dotted v 0 0 b) ≡ some d
  whole_kept : d.integer_part ≡ v % int_mod
  seen : d.seen_digit ≡ seen_after b fs
  padded : fraction_padded d ≡ thousandths fs

steps-Fraction :
    (v : ℕ) (b : Bool) (fs : Bytes) → All IsDigit fs → (d : Decimal) × Fraction v b fs d
unfolding steps fraction_padded pad_fraction
steps-Fraction v b [] h =
    (dotted v 0 0 b, record { read = refl; whole_kept = refl; seen = refl; padded = refl })
steps-Fraction v b (x ∷ []) h = (
  dotted v (digits_value 0 (x ∷ [])) 1 true,
  record {
    read = rw (step-fraction v 0 0 x b h.0 (omega arith), steps);
    whole_kept = refl;
    seen = refl;
    padded = omega arith;
  },
)
steps-Fraction v b (x ∷ y ∷ []) h = (
  dotted v (digits_value 0 (x ∷ y ∷ [])) 2 true,
  record {
    read =
        rw (step-fraction v 0 0 x b h.0 (omega arith), steps)
          (rw (step-fraction v (digits_value 0 (x ∷ [])) 1 y true h.1.0 (omega arith), steps));
    whole_kept = refl;
    seen = refl;
    padded = omega arith;
  },
)
steps-Fraction v b (x ∷ y ∷ z ∷ fs) h = (
  dotted v (digits_value 0 (x ∷ y ∷ z ∷ [])) 3 true,
  record {
    read =
        rw (step-fraction v 0 0 x b h.0 (omega arith), steps)
          (rw (step-fraction v (digits_value 0 (x ∷ [])) 1 y true h.1.0 (omega arith), steps)
            (rw
              (step-fraction v (digits_value 0 (x ∷ y ∷ [])) 2 z true h.1.1.0 (omega arith), steps)
              (steps-extra v (digits_value 0 (x ∷ y ∷ z ∷ [])) fs h.1.1.1)));
    whole_kept = refl;
    seen = refl;
    padded = omega arith;
  },
)

abbrev Nonempty : Bytes → Bytes → Type 0
Nonempty ds fs = (ds ≢ []) ⊎ (fs ≢ [])

seen-Nonempty : (ds fs : Bytes) → Nonempty ds fs → seen_after (seen_after false ds) fs ≡ true
seen-Nonempty [] [] (inl h) = absurd (h refl)
seen-Nonempty [] [] (inr h) = absurd (h refl)
seen-Nonempty (x ∷ ds) [] h = refl
seen-Nonempty [] (y ∷ fs) h = refl
seen-Nonempty (x ∷ ds) (y ∷ fs) h = refl

parse-steps :
    (xs rest : Bytes) (d : Decimal)
    → steps xs decimal_start ≡ some d
    → parse_decimal_milli (xs ++ rest) (length xs) ≡ decimal_value d
unfolding parse_decimal_milli
parse-steps xs rest d h = rw (parse_decimal_milli, decimal_loop-append xs rest decimal_start ∙ h)

decimal_value-seen :
    (v t : ℕ) (d : Decimal)
    → d.integer_part ≡ v % int_mod
    → d.seen_digit ≡ true
    → fraction_padded d ≡ t
    → decimal_value d ≡ some (signed32 (v * 1000 + t))
unfolding decimal_value fraction_padded
decimal_value-seen v t d hi hs ht =
    ap (λ b. if not b then none else some (signed32 (d.integer_part * 1000 + fraction_padded d))) hs
    ∙ ap some (signed32_cong (d.integer_part * 1000 + fraction_padded d) (v * 1000 + t) same)
  where
    same : (d.integer_part * 1000 + fraction_padded d) % 2 ^ 32 ≡ (v * 1000 + t) % 2 ^ 32
    same = omega arith

dot :
    (ds fs : Bytes) (b : Bool)
    → steps (b'.' ∷ fs) (whole (digits_value 0 ds) b) ≡ steps fs (dotted (digits_value 0 ds) 0 0 b)
unfolding steps decimal_step
dot ds fs b = refl

-- "ddd.fff" is read as thousandths, in the arithmetic of a 32-bit `int`: the digits before the dot
-- count 1000 each, of those behind it three are read, and either side of the dot may be empty, but
-- not both. What the memory holds behind the field makes no difference.
pub parse_decimal_milli-dotted :
    (ds fs rest : Bytes)
    → All IsDigit ds
    → All IsDigit fs
    → Nonempty ds fs
    → parse_decimal_milli ((ds ++ b'.' ∷ fs) ++ rest) (length (ds ++ b'.' ∷ fs))
      ≡ some (signed32 (digits_value 0 ds * 1000 + thousandths fs))
parse_decimal_milli-dotted ds fs rest hd hf ne =
    let (d, f) = steps-Fraction (digits_value 0 ds) (seen_after false ds) fs hf in
    parse-steps (ds ++ b'.' ∷ fs) rest d (
      steps-append ds (b'.' ∷ fs) decimal_start _ (steps-digits ds 0 false hd)
      ∙ dot ds fs (seen_after false ds)
      ∙ f.read)
    ∙ decimal_value-seen (digits_value 0 ds) (thousandths fs) d f.whole_kept
        (f.seen ∙ seen-Nonempty ds fs ne) f.padded

-- A number without a dot is read as whole.
parse_decimal_milli-whole :
    (ds rest : Bytes)
    → All IsDigit ds
    → ds ≢ []
    → parse_decimal_milli (ds ++ rest) (length ds) ≡ some (signed32 (digits_value 0 ds * 1000))
unfolding fraction_padded pad_fraction
parse_decimal_milli-whole ds rest hd ne =
    parse-steps ds rest _ (steps-digits ds 0 false hd)
    ∙ decimal_value-seen (digits_value 0 ds) 0 _ refl (seen-Nonempty ds [] (inl ne)) none_padded
    ∙ ap (λ n. some (signed32 n)) (omega arith)
  where
    none_padded : fraction_padded (whole (digits_value 0 ds) (seen_after false ds)) ≡ 0
    none_padded = refl

steps-bad :
    (pre post : Bytes) (x : ℕ) (d : Decimal)
    → (x < b'0') ⊎ (b'9' < x)
    → x ≢ b'.'
    → steps (pre ++ x ∷ post) d ≡ none
unfolding steps decimal_step
steps-bad [] post x d h ne = ground arith
steps-bad (y ∷ pre) post x d h ne = elim (Option-cases (decimal_step d y)) [
  | inl e ↦ rw (e, steps)
  | inr (d', e) ↦ rw (e, steps) (steps-bad pre post x d' h ne)
]

-- A byte that is neither a digit nor the dot makes the whole field invalid.
pub parse_decimal_milli-rejects :
    (pre post rest : Bytes) (x : ℕ)
    → (x < b'0') ⊎ (b'9' < x)
    → x ≢ b'.'
    → parse_decimal_milli ((pre ++ x ∷ post) ++ rest) (length (pre ++ x ∷ post)) ≡ none
unfolding parse_decimal_milli
parse_decimal_milli-rejects pre post rest x h ne = rw (
  parse_decimal_milli,
  decimal_loop-append (pre ++ x ∷ post) rest decimal_start
      ∙ steps-bad pre post x decimal_start h ne,
)
