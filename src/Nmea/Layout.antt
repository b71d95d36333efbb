-- ===== src/Nmea/Layout.antt =====
-- `strip_eol` and `memchr` of main/gnss.c on a line that starts with `$`, a payload and `*`.
use esp32_wifi_gnss.Prelude.{
  ℕ, zero, suc, ◌+◌, ◌-◌, ◌≤◌, ◌<◌, ◌≡◌, ◌≢◌, ◌⊎◌, inl, inr, refl, sym, ap, ap₂, ◌∙◌, true, false,
  some, [], ◌∷◌, ◌++◌, Bytes, length, take, get_or, take-append_self, get_or-take, length-append,
  append_assoc, ◌==◌, Bool-cases, arith,
}
use esp32_wifi_gnss.Nmea.{is_eol, strip_eol, memchr, stripped_checksum_ok}
use esp32_wifi_gnss.Nmea.Frame.{frame, xor_all, NoStar, digits_match, stripped-frame}
use esp32_wifi_gnss.Nmea.Locality.{Agree, stripped-local}

-- `$`, the payload, `*` and two digits.
abbrev pub head : Bytes → ℕ → ℕ → Bytes
head payload hi lo = b'$' ∷ (payload ++ (b'*' ∷ hi ∷ lo ∷ []))

pub length-head : (payload : Bytes) (hi lo : ℕ) → length (head payload hi lo) ≡ length payload + 4
length-head payload hi lo = omega (arith, length-append payload (b'*' ∷ hi ∷ lo ∷ []))

pub head-append :
    (payload : Bytes) (hi lo : ℕ) (rest : Bytes)
    → head payload hi lo ++ rest ≡ b'$' ∷ (payload ++ (b'*' ∷ hi ∷ lo ∷ rest))
head-append payload hi lo rest =
    ap (λ l. b'$' ∷ l) (append_assoc payload (b'*' ∷ hi ∷ lo ∷ []) rest)

pub take-head :
    (payload : Bytes) (hi lo : ℕ) (rest : Bytes)
    → take (length payload + 4) (b'$' ∷ (payload ++ (b'*' ∷ hi ∷ lo ∷ rest))) ≡ head payload hi lo
take-head payload hi lo rest =
    ap₂ take (sym (length-head payload hi lo)) (sym (head-append payload hi lo rest))
    ∙ take-append_self (head payload hi lo) rest

pub take-Agree : (m : ℕ) (s t : Bytes) → take m s ≡ take m t → Agree m s t
take-Agree m s t e i l =
    sym (get_or-take s m i 0 l) ∙ ap (λ (r : Bytes). get_or r i 0) e ∙ get_or-take t m i 0 l

-- What follows the digits makes no difference to an array that starts like this.
pub head-stripped :
    (a payload : Bytes) (hi lo : ℕ)
    → take (length payload + 4) a ≡ head payload hi lo
    → NoStar payload
    → 6 ≤ length payload
    → stripped_checksum_ok a (length payload + 4) ≡ digits_match hi lo (xor_all 0 payload)
head-stripped a payload hi lo e ns long =
    stripped-local a (frame payload hi lo []) (length payload + 4) (
      take-Agree _ a (frame payload hi lo [])
        (e ∙ sym (take-head payload hi lo (b'\r' ∷ b'\n' ∷ []))))
    ∙ stripped-frame payload hi lo [] ns long

-- `len` goes back over line ends, and stops at another byte.
pub strip_eol-ends :
    (a : Bytes) (len : ℕ)
    → (strip_eol a len ≤ len)
      × ((i : ℕ) → strip_eol a len ≤ i → i < len → is_eol (get_or a i 0) ≡ true)
unfolding strip_eol
strip_eol-ends a zero = (omega arith, λ i g l. absurd (omega (arith, l)))
strip_eol-ends a (suc len) = elim (Bool-cases (is_eol (get_or a len 0))) [
  | inl eol ↦
      let (le, ends) = strip_eol-ends a len in
      rw (eol, strip_eol)
        (
          omega (arith, le),
          λ i g l. elim (last i len (omega (arith, l))) [
            | inl before ↦ ends i g before
            | inr same ↦ ap (λ j. is_eol (get_or a j 0)) same ∙ eol
          ],
        )
  | inr other ↦ rw (other, strip_eol) (omega arith, λ i g l. absurd (omega (arith, g, l)))
]
  where
    last : (i n : ℕ) → i < suc n → (i < n) ⊎ (i ≡ n)
    last i n l = ground arith

pub strip_eol-run :
    (a : Bytes) (m k : ℕ)
    → ((i : ℕ) → m ≤ i → i < m + k → is_eol (get_or a i 0) ≡ true)
    → strip_eol a (m + k) ≡ strip_eol a m
unfolding strip_eol
strip_eol-run a m zero h = ap (strip_eol a) (omega arith)
strip_eol-run a m (suc k) h =
    let eol = h (m + k) (omega arith) (omega arith) in
    ap (strip_eol a) {y = suc (m + k)} (omega arith)
    ∙ rw (eol, strip_eol) (strip_eol-run a m k (λ i g l. h i g (omega (arith, l))))

pub strip_eol-stop :
    (a : Bytes) (n : ℕ) → is_eol (get_or a n 0) ≡ false → strip_eol a (suc n) ≡ suc n
unfolding strip_eol
strip_eol-stop a n e = rw (e, strip_eol) refl

-- The first `c` from index `i` on.
pub memchr-first :
    (s : Bytes) (c i n k : ℕ)
    → memchr s c i n ≡ some k
    → (i ≤ k) × (k < i + n) × (get_or s k 0 ≡ c) × ((j : ℕ) → i ≤ j → j < k → get_or s j 0 ≢ c)
unfolding memchr
memchr-first s c i zero k e = absurd cc
memchr-first s c i (suc n) k e = elim (Bool-cases (get_or s i 0 == c)) [
  | inl here ↦
      let at : i ≡ k = ground (arith, here, e) in
      (
        omega (arith, at),
        omega (arith, at),
        ap (λ j. get_or s j 0) (sym at) ∙ ground (arith, here),
        λ j g l. absurd (omega (arith, at, g, l)),
      )
  | inr other ↦
      let (low, high, found, none_before) =
        memchr-first s c (suc i) n k (ground (arith, other, e)) in
      (
        omega (arith, low),
        omega (arith, high),
        found,
        λ j g l. elim (first j) [
          | inl same ↦ λ is. absurd (ground (arith, other, same, is))
          | inr behind ↦ none_before j (omega (arith, g, behind)) l
        ],
      )
]
  where
    first : (j : ℕ) → (j ≡ i) ⊎ (j ≢ i)
    first j = ground arith

-- Where the checks before the sum find their bytes.
pub record Found (a : Bytes) (m : ℕ) : Type 0 where
  pub long : 10 ≤ m
  pub dollar : get_or a 0 0 ≡ b'$'
  pub star : ℕ
  pub at_star : memchr a b'*' 1 (m - 1) ≡ some star
  pub three : m ≡ star + 3
