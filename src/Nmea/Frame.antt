-- ===== src/Nmea/Frame.antt =====
-- Frames of NMEA sentences, and what `nmea_checksum_ok` makes of one.
use esp32_wifi_gnss.Prelude.{
  ℕ, zero, suc, ◌+◌, ◌-◌, ◌≤◌, ◌<◌, ◌≡◌, ◌≢◌, not, ltb, refl, sym, ap, ◌∙◌, Bool, true, false, ◌||◌,
  some, [], ◌∷◌, ◌++◌, Bytes, length, get_or, All, ◌==◌, inl, inr, Bool-cases, length-append,
  append_assoc, if◌then◌else◌, bit_xor, arith,
}
use mathlib.Core.Option
use esp32_wifi_gnss.Nmea.{
  hex_digit_to_value, is_eol, strip_eol, memchr, xor_range, is_neg, hex_byte, checksum_matches,
  stripped_checksum_ok,
}

abbrev pub frame : Bytes → ℕ → ℕ → Bytes → Bytes
frame payload hi lo rest = b'$' ∷ (payload ++ b'*' ∷ hi ∷ lo ∷ b'\r' ∷ b'\n' ∷ rest)

-- The length of the frame without what follows it.
abbrev pub frame_len : Bytes → ℕ
frame_len payload = length payload + 6

-- The exclusive or of all bytes, on top of `acc`.
abbrev pub xor_all : ℕ → Bytes → ℕ
xor_all acc [] = acc
xor_all acc (x ∷ xs) = xor_all (bit_xor acc x) xs

abbrev pub NoStar : Bytes → Type 0
NoStar = All (λ x. x ≢ b'*')

abbrev pub AreBytes : Bytes → Type 0
AreBytes = All (λ x. x < 256)

pub memchr-cons :
    (x : ℕ) (s : Bytes) (c i n : ℕ) → memchr (x ∷ s) c (suc i) n ≡ Option.map suc (memchr s c i n)
unfolding memchr
memchr-cons x s c i zero = refl
memchr-cons x s c i (suc n) = ground (arith, memchr-cons x s c (suc i) n)

-- The first `c` behind bytes that are not `c`.
pub memchr-append :
    (xs ys : Bytes) (c n : ℕ)
    → All (λ x. x ≢ c) xs
    → length xs < n
    → memchr (xs ++ c ∷ ys) c 0 n ≡ some (length xs)
unfolding memchr
memchr-append [] ys c zero h l = absurd (omega arith)
memchr-append [] ys c (suc n) h l = ground arith
memchr-append (x ∷ xs) ys c zero h l = absurd (omega arith)
memchr-append (x ∷ xs) ys c (suc n) h l =
    ground (arith, memchr-cons x (xs ++ c ∷ ys) c 0 n, memchr-append xs ys c n h.1)

pub xor_range-cons :
    (x : ℕ) (s : Bytes) (i n acc : ℕ) → xor_range (x ∷ s) (suc i) n acc ≡ xor_range s i n acc
unfolding xor_range
xor_range-cons x s i zero acc = refl
xor_range-cons x s i (suc n) acc = xor_range-cons x s (suc i) n (bit_xor acc (get_or s i 0))

pub xor_range-append :
    (xs ys : Bytes) (acc : ℕ) → xor_range (xs ++ ys) 0 (length xs) acc ≡ xor_all acc xs
unfolding xor_range
xor_range-append [] ys acc = refl
xor_range-append (x ∷ xs) ys acc =
    xor_range-cons x (xs ++ ys) 0 (length xs) (bit_xor acc x)
    ∙ xor_range-append xs ys (bit_xor acc x)

-- Reading behind a prefix.
pub get_or-append_right :
    (xs ys : Bytes) (k : ℕ) → get_or (xs ++ ys) (length xs + k) 0 ≡ get_or ys k 0
get_or-append_right [] ys k = ap (λ j. get_or ys j 0) (omega arith)
get_or-append_right (x ∷ xs) ys k =
    ap (λ j. get_or (x ∷ (xs ++ ys)) j 0) e ∙ get_or-append_right xs ys k
  where
    e : suc (length xs) + k ≡ suc (length xs + k)
    e = omega arith

pub frame_get :
    (payload : Bytes) (hi lo : ℕ) (rest : Bytes) (i k : ℕ)
    → i ≡ suc (length payload + k)
    → get_or (frame payload hi lo rest) i 0 ≡ get_or (b'*' ∷ hi ∷ lo ∷ b'\r' ∷ b'\n' ∷ rest) k 0
frame_get payload hi lo rest i k e =
    ap (λ j. get_or (frame payload hi lo rest) j 0) e
    ∙ get_or-append_right payload (b'*' ∷ hi ∷ lo ∷ b'\r' ∷ b'\n' ∷ rest) k

-- The line end goes, and nothing else.
pub strip_eol-frame :
    (payload : Bytes) (hi lo : ℕ) (rest : Bytes)
    → is_eol lo ≡ false
    → strip_eol (frame payload hi lo rest) (frame_len payload) ≡ length payload + 4
unfolding strip_eol
strip_eol-frame payload hi lo rest h =
    ap (strip_eol (frame payload hi lo rest)) six ∙ strips ∙ sym four
  where
    six : length payload + 6 ≡ suc (suc (suc (length payload + 3)))
    six = omega arith

    four : length payload + 4 ≡ suc (length payload + 3)
    four = omega arith

    strips :
        strip_eol (frame payload hi lo rest) (suc (suc (suc (length payload + 3))))
        ≡ suc (length payload + 3)
    strips = ground (
      arith,
      frame_get payload hi lo rest (suc (suc (length payload + 3))) 4 (omega arith),
      frame_get payload hi lo rest (suc (length payload + 3)) 3 (omega arith),
      frame_get payload hi lo rest (length payload + 3) 2 (omega arith),
    )

abbrev pub digits_match : ℕ → ℕ → ℕ → Bool
digits_match hi lo sum =
    let high = hex_digit_to_value hi in
    let low = hex_digit_to_value lo in
    if is_neg high || is_neg low then false else sum == hex_byte high low

pub frame_xor :
    (payload : Bytes) (hi lo : ℕ) (rest : Bytes)
    → xor_range (frame payload hi lo rest) 1 (suc (length payload) - 1) 0 ≡ xor_all 0 payload
frame_xor payload hi lo rest =
    ap (λ n. xor_range (frame payload hi lo rest) 1 n 0) (omega arith)
    ∙ xor_range-cons b'$' _ 0 (length payload) 0
    ∙ xor_range-append payload (b'*' ∷ hi ∷ lo ∷ b'\r' ∷ b'\n' ∷ rest) 0

pub checksum_matches-frame :
    (payload : Bytes) (hi lo : ℕ) (rest : Bytes)
    → checksum_matches (frame payload hi lo rest) (length payload + 4) (suc (length payload))
      ≡ digits_match hi lo (xor_all 0 payload)
unfolding checksum_matches
checksum_matches-frame payload hi lo rest =
    rw
      (
        frame_xor payload hi lo rest,
        frame_get payload hi lo rest (suc (length payload) + 1) 1 (omega arith),
        frame_get payload hi lo rest (suc (length payload) + 2) 2 (omega arith),
      )
      (ap (λ (b : Bool). if not b then false else digits_match hi lo (xor_all 0 payload)) three)
  where
    three : (length payload + 4 - suc (length payload) == 3) ≡ true
    three = ground arith

-- A `*` in the payload ends it there, too far from the end.
pub stripped-early_star :
    (pre post : Bytes) (hi lo : ℕ) (rest : Bytes)
    → NoStar pre
    → stripped_checksum_ok (frame (pre ++ b'*' ∷ post) hi lo rest) (length (pre ++ b'*' ∷ post) + 4)
      ≡ false
unfolding stripped_checksum_ok checksum_matches
stripped-early_star pre post hi lo rest ns = elim (Bool-cases (ltb len 10)) [
  | inl short ↦ rw (short, stripped_checksum_ok) refl
  | inr long ↦ rw (long, star, stripped_checksum_ok, far) refl
]
  where
    len : ℕ
    len = length (pre ++ b'*' ∷ post) + 4

    line : Bytes
    line = frame (pre ++ b'*' ∷ post) hi lo rest

    behind : Bytes
    behind = post ++ b'*' ∷ hi ∷ lo ∷ b'\r' ∷ b'\n' ∷ rest

    size : length (pre ++ b'*' ∷ post) ≡ length pre + suc (length post)
    size = length-append pre (b'*' ∷ post)

    star : memchr line b'*' 1 (len - 1) ≡ some (suc (length pre))
    star =
        ap (λ l. memchr (b'$' ∷ l) b'*' 1 (len - 1))
          (append_assoc pre (b'*' ∷ post) (b'*' ∷ hi ∷ lo ∷ b'\r' ∷ b'\n' ∷ rest))
        ∙ memchr-cons b'$' _ b'*' 0 (len - 1)
        ∙ ap (Option.map suc) (memchr-append pre behind b'*' _ ns (omega (arith, size)))

    far : (len - suc (length pre) == 3) ≡ false
    far = ground (arith, size)

pub stripped-frame :
    (payload : Bytes) (hi lo : ℕ) (rest : Bytes)
    → NoStar payload
    → 6 ≤ length payload
    → stripped_checksum_ok (frame payload hi lo rest) (length payload + 4)
      ≡ digits_match hi lo (xor_all 0 payload)
unfolding stripped_checksum_ok
stripped-frame payload hi lo rest ns long =
    rw (star, long') (checksum_matches-frame payload hi lo rest)
  where
    long' : ltb (length payload + 4) 10 ≡ false
    long' = ground arith

    star :
        memchr (frame payload hi lo rest) b'*' 1 (length payload + 4 - 1)
        ≡ some (suc (length payload))
    star =
        memchr-cons b'$' _ b'*' 0 (length payload + 4 - 1)
        ∙ ap (Option.map suc)
            (memchr-append payload (hi ∷ lo ∷ b'\r' ∷ b'\n' ∷ rest) b'*' _ ns (omega arith))
