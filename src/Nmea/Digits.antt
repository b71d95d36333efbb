-- ===== src/Nmea/Digits.antt =====
-- The loop of `nmea_parse_decimal_milli` of main/gnss.c on runs of digits.
use esp32_wifi_gnss.Prelude.{
  ℕ, zero, suc, ◌+◌, ◌-◌, ◌*◌, ◌%◌, ◌≤◌, ◌≡◌, refl, ap, ◌∙◌, inl, inr, Bool, true, false, Option,
  none, some, [], ◌∷◌, ◌++◌, Bytes, length, get_or, take, All, arith, Option-cases,
}
use esp32_wifi_gnss.Nmea.{Decimal, decimal_step, decimal_loop, int_mod}

abbrev pub IsDigit : ℕ → Type 0
IsDigit x = (b'0' ≤ x) × (x ≤ b'9')

-- The number that decimal digits write, read on top of `acc`.
abbrev pub digits_value : ℕ → Bytes → ℕ
digits_value acc [] = acc
digits_value acc (x ∷ xs) = digits_value (acc * 10 + (x - b'0')) xs

-- The first three digits of a fraction, missing ones being 0.
abbrev pub thousandths : Bytes → ℕ
thousandths fs = digits_value 0 (take 3 (fs ++ b'0' ∷ b'0' ∷ b'0' ∷ []))

-- The loop as a fold.
unfoldable pub steps : Bytes → Decimal → Option Decimal
steps [] d = some d
steps (x ∷ xs) d = elim (decimal_step d x) [ none ↦ none | some d' ↦ steps xs d' ]

pub decimal_loop-cons :
    (x : ℕ) (field : Bytes) (i n : ℕ) (d : Decimal)
    → decimal_loop (x ∷ field) (suc i) n d ≡ decimal_loop field i n d
unfolding decimal_loop
decimal_loop-cons x field i zero d = refl
decimal_loop-cons x field i (suc n) d = elim (Option-cases (decimal_step d (get_or field i 0))) [
  | inl e ↦ rw (e, decimal_loop)
  | inr (d', e) ↦ rw (e, decimal_loop) (decimal_loop-cons x field (suc i) n d')
]

pub decimal_loop-append :
    (xs ys : Bytes) (d : Decimal) → decimal_loop (xs ++ ys) 0 (length xs) d ≡ steps xs d
unfolding decimal_loop steps
decimal_loop-append [] ys d = refl
decimal_loop-append (x ∷ xs) ys d = elim (Option-cases (decimal_step d x)) [
  | inl e ↦ rw (e, decimal_loop, steps)
  | inr (d', e) ↦
      rw (e, decimal_loop, steps)
        (decimal_loop-cons x (xs ++ ys) 0 (length xs) d' ∙ decimal_loop-append xs ys d')
]

pub steps-append :
    (xs ys : Bytes) (d d' : Decimal) → steps xs d ≡ some d' → steps (xs ++ ys) d ≡ steps ys d'
unfolding steps
steps-append [] ys d d' h = ground arith
steps-append (x ∷ xs) ys d d' h = elim (Option-cases (decimal_step d x)) [
  | inl e ↦ absurd (ground arith)
  | inr (d'', e) ↦ rw (e, steps) (steps-append xs ys d'' d' (ground arith))
]

abbrev pub whole : ℕ → Bool → Decimal
whole acc seen = record {
  integer_part = acc % int_mod;
  fractional_part = 0;
  fractional_digits = 0;
  seen_dot = false;
  seen_digit = seen;
}

abbrev pub seen_after : Bool → Bytes → Bool
seen_after b [] = b
seen_after b (x ∷ xs) = true

pub step-digit :
    (acc x : ℕ) (b : Bool)
    → IsDigit x
    → decimal_step (whole acc b) x ≡ some (whole (acc * 10 + (x - b'0')) true)
unfolding decimal_step
step-digit acc x b h = ground arith

pub seen_after-true : (ds : Bytes) → seen_after true ds ≡ true
seen_after-true [] = refl
seen_after-true (x ∷ ds) = refl

pub steps-digits :
    (ds : Bytes) (acc : ℕ) (b : Bool)
    → All IsDigit ds
    → steps ds (whole acc b) ≡ some (whole (digits_value acc ds) (seen_after b ds))
unfolding steps
steps-digits [] acc b h = refl
steps-digits (x ∷ ds) acc b h =
    rw (step-digit acc x b h.0, steps)
      (steps-digits ds (acc * 10 + (x - b'0')) true h.1
        ∙ ap (λ t. some (whole (digits_value (acc * 10 + (x - b'0')) ds) t)) (seen_after-true ds))

abbrev pub dotted : ℕ → ℕ → ℕ → Bool → Decimal
dotted v f k b = record {
  integer_part = v % int_mod;
  fractional_part = f % int_mod;
  fractional_digits = k;
  seen_dot = true;
  seen_digit = b;
}

pub steps-extra :
    (v f : ℕ) (fs : Bytes)
    → All IsDigit fs
    → steps fs (dotted v f 3 true) ≡ some (dotted v f 3 true)
unfolding steps decimal_step
steps-extra v f [] h = refl
steps-extra v f (x ∷ fs) h = ground (arith, steps-extra v f fs h.1)
