-- ===== src/Nmea/Sealed.antt =====
-- `nmea_checksum_ok` of main/gnss.c on any array, against the layout of a line with its checksum.
use esp32_wifi_gnss.Prelude.{
  ℕ, suc, ◌+◌, ◌-◌, ◌≤◌, ◌<◌, ◌≡◌, ◌≢◌, ◌↔◌, ◌⊎◌, inl, inr, refl, sym, ap, ap₂, ◌∙◌, Bool, true,
  false, not, ◌||◌, none, some, [], ◌∷◌, ◌++◌, Bytes, length, take, drop, get_or, All, All-run,
  All-get_or, take-add, take-take_le, take-drop-suc, drop-drop, get_or-take, length-take,
  length-drop, length-append, ltb, ◌==◌, Bool-cases, Option-cases, arith,
}
use esp32_wifi_gnss.Nmea.{
  hex_digit_to_value, is_eol, strip_eol, memchr, checksum_matches, stripped_checksum_ok,
  checksum_ok,
}
use esp32_wifi_gnss.Nmea.Frame.{xor_all, NoStar, digits_match, get_or-append_right}
use esp32_wifi_gnss.Nmea.HexDigits.{IsHexByte, digits_match-IsHexByte, IsHexByte-digits_match}
use esp32_wifi_gnss.Nmea.Layout.{
  head, length-head, head-append, take-head, head-stripped, strip_eol-ends, strip_eol-run,
  strip_eol-stop, memchr-first, Found,
}

-- A payload of at least six bytes, none of them `*`, between `$` and `*`, two hexadecimal digits that
-- give its exclusive or, and any number of line ends.
pub record IsSealed (line : Bytes) : Type 0 where
  pub payload : Bytes
  pub hi : ℕ
  pub lo : ℕ
  pub ending : Bytes
  pub layout : line ≡ b'$' ∷ (payload ++ (b'*' ∷ hi ∷ lo ∷ ending))
  pub no_star : NoStar payload
  pub long : 6 ≤ length payload
  pub digits : IsHexByte hi lo (xor_all 0 payload)
  pub line_ends : All (λ x. (x ≡ b'\r') ⊎ (x ≡ b'\n')) ending

eol_cases : (x : ℕ) → is_eol x ≡ true → (x ≡ b'\r') ⊎ (x ≡ b'\n')
eol_cases x h = ground arith

cases_eol : (x : ℕ) → (x ≡ b'\r') ⊎ (x ≡ b'\n') → is_eol x ≡ true
cases_eol x h = ground arith

matches-three : (a : Bytes) (m star : ℕ) → checksum_matches a m star ≡ true → m - star ≡ 3
unfolding checksum_matches
matches-three a m star h = ground arith

module _ (a : Bytes) (m : ℕ) where
  abbrev too_short : Bool
  too_short = ltb m 10 || not (get_or a 0 0 == b'$')

  stripped-short : too_short ≡ true → stripped_checksum_ok a m ≡ false
  unfolding stripped_checksum_ok
  stripped-short e = rw (e, stripped_checksum_ok) refl

  stripped-no_star :
      too_short ≡ false → memchr a b'*' 1 (m - 1) ≡ none → stripped_checksum_ok a m ≡ false
  unfolding stripped_checksum_ok
  stripped-no_star e n = rw (e, n, stripped_checksum_ok) refl

  stripped-star :
      (star : ℕ)
      → too_short ≡ false
      → memchr a b'*' 1 (m - 1) ≡ some star
      → stripped_checksum_ok a m ≡ checksum_matches a m star
  unfolding stripped_checksum_ok
  stripped-star star e n = rw (e, n, stripped_checksum_ok) refl

  not_both : {b : Bool} → b ≡ false → b ≡ true → ⊥
  not_both f t = cc

  stripped-Found : stripped_checksum_ok a m ≡ true → Found a m
  stripped-Found h = elim (Bool-cases too_short) [
    | inl short ↦ absurd (not_both (stripped-short short) h)
    | inr enough ↦ elim (Option-cases (memchr a b'*' 1 (m - 1))) [
      | inl none_there ↦ absurd (not_both (stripped-no_star enough none_there) h)
      | inr (star, there) ↦
          let (low, high, found, first) = memchr-first a b'*' 1 (m - 1) star there in
          record {
            long = ground (arith, enough);
            dollar = ground (arith, enough);
            star = star;
            at_star = there;
            three =
                omega
                  (arith, matches-three a m star (sym (stripped-star star enough there) ∙ h), high);
          }
    ]
  ]

-- The bytes before the line ends.
Found-head :
    (a : Bytes) (m : ℕ) (f : Found a m)
    → m ≤ length a
    → take m a
      ≡ head (take (f.star - 1) (drop 1 a)) (get_or a (f.star + 1) 0) (get_or a (f.star + 2) 0)
Found-head a m f le =
    let (low, high, is_star, first) = memchr-first a b'*' 1 (m - 1) f.star f.at_star in
    let k = f.star in
    ap (λ n. take n a) {y = suc ((k - 1) + 3)} (omega (arith, f.three, low))
    ∙ take-drop-suc a 0 ((k - 1) + 3) 0 (omega (arith, f.long, le))
    ∙ ap₂ (λ x l. x ∷ l) f.dollar
        (take-add (k - 1) 3 (drop 1 a)
          ∙ ap (λ l. take (k - 1) (drop 1 a) ++ l)
              (ap (take 3) (drop-drop 1 (k - 1) a ∙ ap (λ n. drop n a) (omega (arith, low)))
                ∙ take-drop-suc a k 2 0 (omega (arith, f.three, le))
                ∙ ap₂ (λ x l. x ∷ l) is_star
                    (take-drop-suc a (suc k) 1 0 (omega (arith, f.three, le))
                      ∙ ap₂ (λ x l. x ∷ l) (ap (λ j. get_or a j 0) (omega arith))
                          (take-drop-suc a (suc (suc k)) 0 0 (omega (arith, f.three, le))
                            ∙ ap (λ x. x ∷ []) (ap (λ j. get_or a j 0) (omega arith))))))

IsSealed-sound :
    (a : Bytes) (len : ℕ) → len ≤ length a → checksum_ok a len ≡ true → IsSealed (take len a)
unfolding checksum_ok
IsSealed-sound a len le h =
    let m = strip_eol a len in
    let (shorter, ends) = strip_eol-ends a len in
    let f = stripped-Found a m h in
    let (low, high, is_star, first) = memchr-first a b'*' 1 (m - 1) f.star f.at_star in
    let payload = take (f.star - 1) (drop 1 a) in
    let size : length payload ≡ f.star - 1 =
      omega (arith, length-take (f.star - 1) (drop 1 a), length-drop 1 a, f.three, shorter) in
    let no_star : NoStar payload =
      All-run (λ x. x ≢ b'*') a 1 (f.star - 1) 0 (omega (arith, f.three, shorter))
        (λ i g l. first i g (omega (arith, l))) in
    let starts = Found-head a m f (omega (arith, shorter)) in
    let ending = take (len - m) (drop m a) in
    record {
      payload = payload;
      hi = get_or a (f.star + 1) 0;
      lo = get_or a (f.star + 2) 0;
      ending = ending;
      layout =
          ap (λ n. take n a) {y = m + (len - m)} (omega (arith, shorter))
          ∙ take-add m (len - m) a
          ∙ ap (λ l. l ++ ending) starts
          ∙ head-append payload (get_or a (f.star + 1) 0) (get_or a (f.star + 2) 0) ending;
      no_star = no_star;
      long = omega (arith, size, f.long, f.three);
      digits = digits_match-IsHexByte _ _ _ (
          sym (
            ap (stripped_checksum_ok a) (omega (arith, size, f.three, low))
            ∙ head-stripped a payload _ _
                (ap (λ n. take n a) {y = m} (omega (arith, size, f.three, low)) ∙ starts) no_star
                (omega (arith, size, f.long, f.three)))
          ∙ h);
      line_ends =
          All-run (λ x. (x ≡ b'\r') ⊎ (x ≡ b'\n')) a m (len - m) 0 (omega (arith, shorter))
            (λ i g l. eol_cases _ (ends i g (omega (arith, l, shorter))));
    }

digit-no_eol : (hi lo sum : ℕ) → digits_match hi lo sum ≡ true → is_eol lo ≡ false
unfolding hex_digit_to_value
digit-no_eol hi lo sum h = ground arith

module _ (a : Bytes) (len : ℕ) (le : len ≤ length a) (s : IsSealed (take len a)) where
  open s use {payload, hi, lo, ending, layout}

  matches : digits_match hi lo (xor_all 0 payload) ≡ true
  matches = IsHexByte-digits_match hi lo (xor_all 0 payload) s.digits

  sealed-size : len ≡ length payload + 4 + length ending
  sealed-size = omega (
    arith,
    ap length layout,
    length-take len a,
    length-append payload (b'*' ∷ hi ∷ lo ∷ ending),
    le,
  )

  sealed-get :
      (i : ℕ) → i < len → get_or a i 0 ≡ get_or (b'$' ∷ (payload ++ (b'*' ∷ hi ∷ lo ∷ ending))) i 0
  sealed-get i l = sym (get_or-take a len i 0 l) ∙ ap (λ (r : Bytes). get_or r i 0) layout

  sealed-ending : (i : ℕ) → length payload + 4 ≤ i → i < len → is_eol (get_or a i 0) ≡ true
  sealed-ending i g l =
      let k = i - (length payload + 4) in
      let here : get_or a i 0 ≡ get_or ending k 0 =
        sealed-get i l
        ∙ ap (λ (r : Bytes). get_or r i 0) (sym (head-append payload hi lo ending))
        ∙ ap (λ j. get_or (head payload hi lo ++ ending) j 0) {y = length (head payload hi lo) + k}
            (omega (arith, length-head payload hi lo, g))
        ∙ get_or-append_right (head payload hi lo) ending k in
      ap is_eol here
      ∙ cases_eol _ (
          All-get_or (λ x. (x ≡ b'\r') ⊎ (x ≡ b'\n')) ending k 0 s.line_ends
            (omega (arith, sealed-size, g, l)))

  sealed-low : get_or a (length payload + 3) 0 ≡ lo
  sealed-low =
      sealed-get (length payload + 3) (omega (arith, sealed-size))
      ∙ ap (λ j. get_or (b'$' ∷ (payload ++ (b'*' ∷ hi ∷ lo ∷ ending))) j 0)
          {y = suc (length payload + 2)} (omega arith)
      ∙ get_or-append_right payload (b'*' ∷ hi ∷ lo ∷ ending) 2

  sealed-strip : strip_eol a len ≡ length payload + 4
  sealed-strip =
      ap (strip_eol a) sealed-size
      ∙ strip_eol-run a (length payload + 4) (length ending)
          (λ i g l. sealed-ending i g (omega (arith, sealed-size, l)))
      ∙ ap (strip_eol a) {y = suc (length payload + 3)} (omega arith)
      ∙ strip_eol-stop a (length payload + 3)
          (ap is_eol sealed-low ∙ digit-no_eol hi lo (xor_all 0 payload) matches)
      ∙ omega arith

  sealed_complete : checksum_ok a len ≡ true
  unfolding checksum_ok
  sealed_complete =
      ap (stripped_checksum_ok a) sealed-strip
      ∙ head-stripped a payload hi lo
          (sym (take-take_le (length payload + 4) len a (omega (arith, sealed-size)))
            ∙ ap (take (length payload + 4)) layout
            ∙ take-head payload hi lo ending)
          s.no_star s.long
      ∙ matches

-- The checksum test accepts exactly the sealed lines: for any array and any length within it, it
-- gives true if and only if those bytes are `$`, a payload of at least six bytes with no `*` in it,
-- `*`, two hexadecimal digits, 0 to 9 and A to F or a to f, whose value is the exclusive or of the
-- payload, and then nothing but carriage returns and line feeds.
pub checksum_ok_iff :
    (a : Bytes) (len : ℕ) → len ≤ length a → (checksum_ok a len ≡ true) ↔ IsSealed (take len a)
checksum_ok_iff a len le = (IsSealed-sound a len le, λ s. sealed_complete a len le s)
