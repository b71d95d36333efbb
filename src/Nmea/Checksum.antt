-- ===== src/Nmea/Checksum.antt =====
-- The checksum of a framed sentence: `$`, payload, `*`, two hexadecimal digits, line end, and then
-- whatever the array holds behind it.
use esp32_wifi_gnss.Prelude.{
  ℕ, ◌+◌, ◌-◌, ◌/◌, ◌%◌, ◌≤◌, ◌<◌, ◌≡◌, ◌≢◌, not, ltb, ◌==◌, inl, inr, subst, Bool-cases, refl, sym,
  ap, ◌∙◌, Bool, true, false, ◌&&◌, [], ◌∷◌, ◌++◌, Bytes, length, length-append, if◌then◌else◌,
  bit_xor, arith, all_below, all_below_use, bit_xor-lt, bit_xor_cancel, bit_xor_comm,
}
use esp32_wifi_gnss.Nmea.{hex_digit_to_value, is_eol, stripped_checksum_ok, checksum_ok}
use esp32_wifi_gnss.Nmea.Frame.{
  frame, frame_len, xor_all, NoStar, AreBytes, strip_eol-frame, digits_match, stripped-frame,
  stripped-early_star,
}

-- On a frame of at least six payload bytes, none of them `*`, whose second digit is no line end,
-- the check is exactly: both digits are hexadecimal, and together they are the exclusive or of the
-- payload, whatever the array holds behind the frame.
pub checksum_ok-frame :
    (payload : Bytes) (hi lo : ℕ) (rest : Bytes)
    → NoStar payload
    → 6 ≤ length payload
    → is_eol lo ≡ false
    → checksum_ok (frame payload hi lo rest) (frame_len payload)
      ≡ digits_match hi lo (xor_all 0 payload)
unfolding checksum_ok
checksum_ok-frame payload hi lo rest ns long eol =
    ap (stripped_checksum_ok (frame payload hi lo rest)) (strip_eol-frame payload hi lo rest eol)
    ∙ stripped-frame payload hi lo rest ns long

-- The digit that a sender writes for a value below 16.
abbrev pub hex_digit : ℕ → ℕ
hex_digit v = if ltb v 10 then b'0' + v else b'A' + (v - 10)

abbrev digits_table : ℕ → Bool
digits_table x =
    digits_match (hex_digit (x / 16)) (hex_digit (x % 16)) x && not (is_eol (hex_digit (x % 16)))

all_digits : all_below digits_table 256 ≡ true
unfolding all_below hex_digit_to_value
all_digits = refl

digits_match_lem :
    (x : ℕ)
    → x < 256
    → (digits_match (hex_digit (x / 16)) (hex_digit (x % 16)) x ≡ true)
      × (is_eol (hex_digit (x % 16)) ≡ false)
digits_match_lem x h = ground (arith, all_below_use digits_table 256 all_digits x h)

xor_all-lt : (acc : ℕ) (xs : Bytes) → acc < 256 → AreBytes xs → xor_all acc xs < 256
xor_all-lt acc [] h b = h
xor_all-lt acc (x ∷ xs) h b = xor_all-lt (bit_xor acc x) xs (bit_xor-lt acc x h b.0) b.1

-- A payload of at least six bytes, none of them `*`, framed with the capital hexadecimal digits of its
-- exclusive or passes the check, whatever the array holds behind the frame.
pub checksum_ok-round_trip :
    (payload rest : Bytes)
    → AreBytes payload
    → NoStar payload
    → 6 ≤ length payload
    → let sum = xor_all 0 payload in
      checksum_ok
        (frame payload (hex_digit (sum / 16)) (hex_digit (sum % 16)) rest)
        (frame_len payload)
      ≡ true
checksum_ok-round_trip payload rest b ns long =
    let m = digits_match_lem (xor_all 0 payload) (xor_all-lt 0 payload (omega arith) b) in
    checksum_ok-frame payload _ _ rest ns long m.1 ∙ m.0

xor_all-injective :
    (xs : Bytes) (a b : ℕ) → a < 256 → b < 256 → AreBytes xs → xor_all a xs ≡ xor_all b xs → a ≡ b
xor_all-injective [] a b ha hb h e = e
xor_all-injective (x ∷ xs) a b ha hb h e =
    sym (bit_xor_cancel a x ha h.0)
    ∙ ap (λ t. bit_xor t x)
        (xor_all-injective xs (bit_xor a x) (bit_xor b x) (bit_xor-lt a x ha h.0)
          (bit_xor-lt b x hb h.0) h.1 e)
    ∙ bit_xor_cancel b x hb h.0

xor_all-append : (acc : ℕ) (xs ys : Bytes) → xor_all acc (xs ++ ys) ≡ xor_all (xor_all acc xs) ys
xor_all-append acc [] ys = refl
xor_all-append acc (x ∷ xs) ys = xor_all-append (bit_xor acc x) xs ys

bit_xor_left : (a x y : ℕ) → a < 256 → x < 256 → y < 256 → bit_xor a x ≡ bit_xor a y → x ≡ y
bit_xor_left a x y ha hx hy e = ground (
  arith,
  bit_xor_comm a x ha hx,
  bit_xor_comm a y ha hy,
  bit_xor_cancel x a hx ha,
  bit_xor_cancel y a hy ha,
  ap (λ t. bit_xor t a) e,
)

-- Changing one byte of a payload changes its exclusive or.
xor_all-change :
    (pre post : Bytes) (x y : ℕ)
    → AreBytes pre
    → AreBytes post
    → x < 256
    → y < 256
    → x ≢ y
    → xor_all 0 (pre ++ x ∷ post) ≢ xor_all 0 (pre ++ y ∷ post)
xor_all-change pre post x y hp hq hx hy ne e = ne (
    bit_xor_left acc x y acc_lt hx hy (
      xor_all-injective post (bit_xor acc x) (bit_xor acc y) (bit_xor-lt acc x acc_lt hx)
        (bit_xor-lt acc y acc_lt hy) hq
        (sym (xor_all-append 0 pre (x ∷ post)) ∙ e ∙ xor_all-append 0 pre (y ∷ post))))
  where
    acc : ℕ
    acc = xor_all 0 pre

    acc_lt : acc < 256
    acc_lt = xor_all-lt 0 pre (omega arith) hp

digits_match_unique :
    (hi lo s t : ℕ) → digits_match hi lo s ≡ true → s ≢ t → digits_match hi lo t ≡ false
digits_match_unique hi lo s t h ne = ground arith

prefix-NoStar : (pre post : Bytes) (x : ℕ) → NoStar (pre ++ x ∷ post) → NoStar pre
prefix-NoStar [] post x h = tt
prefix-NoStar (p ∷ pre) post x h = (h.0, prefix-NoStar pre post x h.1)

changed-NoStar :
    (pre post : Bytes) (x y : ℕ) → NoStar (pre ++ x ∷ post) → y ≢ b'*' → NoStar (pre ++ y ∷ post)
changed-NoStar [] post x y h ne = (ne, h.1)
changed-NoStar (p ∷ pre) post x y h ne = (h.0, changed-NoStar pre post x y h.1 ne)

-- If a line `$`, payload, `*`, two bytes, CR, LF passes, where the payload is of bytes, at least six
-- and none of them `*`, and the last of the two bytes is no line end, then no line passes that differs
-- from it in one byte of the payload only, whatever that byte becomes, a `*` included: every
-- single-byte corruption of the payload is found.
pub checksum_ok_detects_change :
    (pre post : Bytes) (x y hi lo : ℕ) (rest : Bytes)
    → AreBytes pre
    → AreBytes post
    → x < 256
    → y < 256
    → NoStar (pre ++ x ∷ post)
    → 6 ≤ length (pre ++ x ∷ post)
    → is_eol lo ≡ false
    → x ≢ y
    → checksum_ok (frame (pre ++ x ∷ post) hi lo rest) (frame_len (pre ++ x ∷ post)) ≡ true
    → checksum_ok (frame (pre ++ y ∷ post) hi lo rest) (frame_len (pre ++ y ∷ post)) ≡ false
unfolding checksum_ok
checksum_ok_detects_change pre post x y hi lo rest hp hq hx hy nx long eol ne ok =
    elim (Bool-cases (y == b'*')) [
      | inl star ↦
          subst
            (λ z.
              checksum_ok (frame (pre ++ z ∷ post) hi lo rest) (frame_len (pre ++ z ∷ post))
              ≡ false)
            {x = b'*'} {y = y} (ground arith)
            (ap (stripped_checksum_ok (frame (pre ++ b'*' ∷ post) hi lo rest))
                (strip_eol-frame (pre ++ b'*' ∷ post) hi lo rest eol)
              ∙ stripped-early_star pre post hi lo rest (prefix-NoStar pre post x nx))
      | inr other ↦
          checksum_ok-frame (pre ++ y ∷ post) hi lo rest
            (changed-NoStar pre post x y nx (ground arith)) long' eol
          ∙ digits_match_unique hi lo _ _
              (sym (checksum_ok-frame (pre ++ x ∷ post) hi lo rest nx long eol) ∙ ok)
              (xor_all-change pre post x y hp hq hx hy ne)
    ]
  where
    long' : 6 ≤ length (pre ++ y ∷ post)
    long' = omega (arith, length-append pre (x ∷ post), length-append pre (y ∷ post))
