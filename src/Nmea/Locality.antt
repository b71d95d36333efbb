-- ===== src/Nmea/Locality.antt =====
-- The NMEA routines on two arrays that agree on their first `len` bytes.
use esp32_wifi_gnss.Prelude.{
  ℕ, zero, suc, ◌+◌, ◌-◌, ◌≤◌, ◌<◌, ◌≡◌, refl, sym, ap, ◌∙◌, inl, inr, some, [], ◌∷◌, ◌++◌, Bytes,
  get_or-append_left, get_or, drop, length, Bool-cases, Option-cases, ltb, ◌==◌, bit_xor, arith,
}
use esp32_wifi_gnss.Nmea.{
  strip_eol, memchr, xor_range, checksum_matches, stripped_checksum_ok, checksum_ok, field_scan,
  stripped_field_range, get_field_range, decimal_step, decimal_loop, parse_decimal_milli,
  parse_hdop_milli, Decimal, sentence_looks_valid, decimal_start,
}
use esp32_wifi_gnss.Nmea.Fields.{strip_eol-le}

abbrev pub Agree : ℕ → Bytes → Bytes → Type 0
Agree n s t = (i : ℕ) → i < n → get_or s i 0 ≡ get_or t i 0

get_or-drop : (a : ℕ) (s : Bytes) (i : ℕ) → get_or (drop a s) i 0 ≡ get_or s (a + i) 0
get_or-drop zero s i = ap (λ j. get_or s j 0) (omega arith)
get_or-drop (suc a) [] i = refl
get_or-drop (suc a) (x ∷ s) i =
    get_or-drop a s i ∙ ap (λ j. get_or (x ∷ s) j 0) {x = suc (a + i)} {y = suc a + i} (omega arith)

module _ (s t : Bytes) where
  pub strip_eol-local : (n : ℕ) → Agree n s t → strip_eol s n ≡ strip_eol t n
  unfolding strip_eol
  strip_eol-local zero h = refl
  strip_eol-local (suc n) h = ground (arith, h n, strip_eol-local n (λ i l. h i (omega arith)))

  memchr-local : (c i n m : ℕ) → Agree m s t → i + n ≤ m → memchr s c i n ≡ memchr t c i n
  unfolding memchr
  memchr-local c i zero m h l = refl
  memchr-local c i (suc n) m h l =
      ground (arith, h i (omega arith), memchr-local c (suc i) n m h (omega arith))

  xor_range-local :
      (i n m acc : ℕ) → Agree m s t → i + n ≤ m → xor_range s i n acc ≡ xor_range t i n acc
  unfolding xor_range
  xor_range-local i zero m acc h l = refl
  xor_range-local i (suc n) m acc h l =
      rw (h i (omega arith))
        (xor_range-local (suc i) n m (bit_xor acc (get_or t i 0)) h (omega arith))

  memchr-bound : (c i n j : ℕ) → memchr s c i n ≡ some j → (i ≤ j) × (j < i + n)
  unfolding memchr
  memchr-bound c i zero j h = absurd (ground arith)
  memchr-bound c i (suc n) j h = ground (arith, memchr-bound c (suc i) n j)

  field_scan-local :
      (end k n c st cur m : ℕ)
      → Agree m s t
      → end ≤ m
      → c + n ≤ suc end
      → field_scan s end k n c st cur ≡ field_scan t end k n c st cur
  unfolding field_scan
  field_scan-local end k zero c st cur m h e l = refl
  field_scan-local end k (suc n) c st cur m h e l = ground (
    arith,
    h c,
    field_scan-local end k n (suc c) st cur m h e (omega arith),
    field_scan-local end k n (suc c) (suc c) (suc cur) m h e (omega arith),
  )

  checksum_matches-local :
      (len star : ℕ)
      → Agree len s t
      → 1 ≤ star
      → star < len
      → checksum_matches s len star ≡ checksum_matches t len star
  unfolding checksum_matches
  checksum_matches-local len star h a b = elim (Bool-cases (len - star == 3)) [
    | inl e ↦ rw (
      h (star + 1) (ground arith),
      h (star + 2) (ground arith),
      xor_range-local 1 (star - 1) len 0 h (omega arith),
    )
    | inr e ↦ ground arith
  ]

  pub stripped-local : (n : ℕ) → Agree n s t → stripped_checksum_ok s n ≡ stripped_checksum_ok t n
  unfolding stripped_checksum_ok
  stripped-local n h = elim (Bool-cases (ltb n 10)) [
    | inl e ↦ rw e
    | inr e ↦ elim (Option-cases (memchr s b'*' 1 (n - 1))) [
      | inl none_s ↦
          rw (e, h 0 (ground arith), ← memchr-local b'*' 1 (n - 1) n h (ground arith), none_s)
      | inr (star, found) ↦
          let b = memchr-bound b'*' 1 (n - 1) star found in
          rw (
            e,
            h 0 (ground arith),
            ← memchr-local b'*' 1 (n - 1) n h (ground arith),
            found,
            checksum_matches-local n star h b.0 (omega arith),
          )
    ]
  ]

  -- `nmea_checksum_ok` depends on the first `len` bytes only.
  pub checksum_ok-local : (len : ℕ) → Agree len s t → checksum_ok s len ≡ checksum_ok t len
  unfolding checksum_ok
  checksum_ok-local len h =
      stripped-local (strip_eol s len) (λ i l. h i (omega (arith, strip_eol-le s len)))
      ∙ ap (stripped_checksum_ok t) (strip_eol-local len h)

  stripped_field_range-local :
      (n k : ℕ) → Agree n s t → stripped_field_range s n k ≡ stripped_field_range t n k
  unfolding stripped_field_range
  stripped_field_range-local n k h = elim (Option-cases (memchr s b',' 0 n)) [
    | inl e ↦ rw (stripped_field_range, ← memchr-local b',' 0 n n h (omega arith), e)
    | inr (comma, e) ↦
        rw (stripped_field_range, ← memchr-local b',' 0 n n h (omega arith), e)
          (field_scan-local n k (n + 1 - suc comma) (suc comma) (suc comma) 1 n h (omega arith)
            (omega (arith, memchr-bound b',' 0 n comma e)))
  ]

  get_field_range-local :
      (len k : ℕ) → Agree len s t → get_field_range s len k ≡ get_field_range t len k
  unfolding get_field_range
  get_field_range-local len k h =
      stripped_field_range-local (strip_eol s len) k
        (λ i l. h i (omega (arith, strip_eol-le s len)))
      ∙ ap (λ n. stripped_field_range t n k) (strip_eol-local len h)

-- A field that is found lies within the sentence.
field_scan-bound :
    (s : Bytes) (end k n c st cur a l : ℕ)
    → st ≤ c
    → c + n ≤ suc end
    → field_scan s end k n c st cur ≡ some (a, l)
    → a + l ≤ end
unfolding field_scan
field_scan-bound s end k zero c st cur a l h e q = absurd (ground arith)
field_scan-bound s end k (suc n) c st cur a l h e q = ground (
  arith,
  field_scan-bound s end k n (suc c) st cur a l,
  field_scan-bound s end k n (suc c) (suc c) (suc cur) a l,
)

get_field_range-bound :
    (s : Bytes) (len k a l : ℕ) → get_field_range s len k ≡ some (a, l) → a + l ≤ len
unfolding get_field_range stripped_field_range
get_field_range-bound s len k a l q = elim (Option-cases (memchr s b',' 0 (strip_eol s len))) [
  | inl e ↦ absurd (ground arith)
  | inr (comma, e) ↦ ground (
    arith,
    strip_eol-le s len,
    memchr-bound s s b',' 0 (strip_eol s len) comma e,
    field_scan-bound s (strip_eol s len) k (strip_eol s len + 1 - suc comma) (suc comma) (suc comma)
        1 a l,
  )
]

decimal_loop-local :
    (s t : Bytes) (i n m : ℕ) (d : Decimal)
    → Agree m s t
    → i + n ≤ m
    → decimal_loop s i n d ≡ decimal_loop t i n d
unfolding decimal_loop
decimal_loop-local s t i zero m d h l = refl
decimal_loop-local s t i (suc n) m d h l = elim (Option-cases (decimal_step d (get_or t i 0))) [
  | inl e ↦ ground (arith, h i)
  | inr (d', e) ↦ ground (arith, h i, decimal_loop-local s t (suc i) n m d' h (omega arith))
]

drop-Agree : (a m : ℕ) (s t : Bytes) → Agree (a + m) s t → Agree m (drop a s) (drop a t)
drop-Agree a m s t h i l = get_or-drop a s i ∙ h (a + i) (omega arith) ∙ sym (get_or-drop a t i)

parse_decimal_milli-local :
    (s t : Bytes) (n : ℕ) → Agree n s t → parse_decimal_milli s n ≡ parse_decimal_milli t n
unfolding parse_decimal_milli
parse_decimal_milli-local s t n h =
    rw (parse_decimal_milli, decimal_loop-local s t 0 n n decimal_start h (omega arith))

-- `nmea_parse_hdop_milli` depends on the first `len` bytes only.
pub parse_hdop_milli-local :
    (s t : Bytes) (len : ℕ) → Agree len s t → parse_hdop_milli s len ≡ parse_hdop_milli t len
unfolding parse_hdop_milli
parse_hdop_milli-local s t len h = elim (Bool-cases (ltb len 6)) [
  | inl e ↦ rw (e, parse_hdop_milli)
  | inr e ↦ elim (Option-cases (get_field_range s len 8)) [
    | inl missing ↦ rw (
      e,
      parse_hdop_milli,
      h 0 (ground arith),
      h 3 (ground arith),
      h 4 (ground arith),
      h 5 (ground arith),
      ← get_field_range-local s t len 8 h,
      missing,
    )
    | inr ((start, field_len), found) ↦ rw (
      e,
      parse_hdop_milli,
      h 0 (ground arith),
      h 3 (ground arith),
      h 4 (ground arith),
      h 5 (ground arith),
      ← get_field_range-local s t len 8 h,
      found,
      parse_decimal_milli-local (drop start s) (drop start t) field_len (
          drop-Agree start field_len s t
            (λ i l. h i (omega (arith, get_field_range-bound s len 8 start field_len found)))),
    )
  ]
]

-- `nmea_sentence_looks_valid` depends on the first `len` bytes only.
pub sentence_looks_valid-local :
    (s t : Bytes) (len : ℕ)
    → Agree len s t
    → sentence_looks_valid s len ≡ sentence_looks_valid t len
unfolding sentence_looks_valid
sentence_looks_valid-local s t len h = elim (Bool-cases (ltb len 6)) [
  | inl e ↦ rw e
  | inr e ↦ rw (e, h 0 (ground arith), h 3 (ground arith), h 4 (ground arith), h 5 (ground arith))
]

-- An array that begins with `line` agrees with `line` over its length.
pub Agree-append : (line rest : Bytes) → Agree (length line) (line ++ rest) line
Agree-append line rest i l = get_or-append_left line rest i 0 l
