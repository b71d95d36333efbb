-- ===== src/Nmea/Fields.antt =====
-- `nmea_get_field_range` against the comma-separated layout.
use esp32_wifi_gnss.Prelude.{
  ℕ, zero, suc, ◌+◌, ◌-◌, ◌≤◌, ◌<◌, ◌≡◌, ◌≢◌, refl, sym, ap, ap₂, subst, ◌∙◌, ◌⊎◌, none, some, List,
  [], ◌∷◌, ◌++◌, Bytes, length, get_or, All, length-append, append_assoc, get_or-append_at, arith,
  ltb, if◌then◌else◌,
}
use esp32_wifi_gnss.Nmea.{strip_eol, field_scan, stripped_field_range, get_field_range}
use esp32_wifi_gnss.Nmea.Frame.{memchr-append}

-- The bytes that stand in the array from index `i` on.
abbrev pub At : Bytes → ℕ → Bytes → Type 0
At s i [] = Unit
At s i (x ∷ xs) = (get_or s i 0 ≡ x) × At s (suc i) xs

At-cons : (x : ℕ) (s : Bytes) (i : ℕ) (xs : Bytes) → At s i xs → At (x ∷ s) (suc i) xs
At-cons x s i [] h = tt
At-cons x s i (y ∷ ys) h = (h.0, At-cons x s (suc i) ys h.1)

At-self : (xs ys : Bytes) → At (xs ++ ys) 0 xs
At-self [] ys = tt
At-self (x ∷ xs) ys = (refl, At-cons x (xs ++ ys) 0 xs (At-self xs ys))

pub At-append : (pre xs ys : Bytes) → At (pre ++ (xs ++ ys)) (length pre) xs
At-append [] xs ys = At-self xs ys
At-append (p ∷ pre) xs ys = At-cons p (pre ++ (xs ++ ys)) (length pre) xs (At-append pre xs ys)

At-split :
    (s : Bytes) (i : ℕ) (xs ys : Bytes) → At s i (xs ++ ys) → At s i xs × At s (i + length xs) ys
At-split s i [] ys h = (tt, subst (λ j. At s j ys) (omega arith) h)
At-split s i (x ∷ xs) ys h =
    let r = At-split s (suc i) xs ys h.1 in ((h.0, r.0), subst (λ j. At s j ys) (omega arith) r.1)

-- A field holds neither separator.
abbrev pub IsField : Bytes → Type 0
IsField = All (λ x. (x ≢ b',') × (x ≢ b'*'))

-- Fields, each with its comma.
abbrev pub with_commas : List Bytes → Bytes
with_commas [] = []
with_commas (f ∷ fs) = f ++ b',' ∷ with_commas fs

module _ (s : Bytes) (end k : ℕ) where
  -- Over the bytes of a field the scan only moves its cursor.
  scan-field :
      (f : Bytes) (r c start current : ℕ)
      → IsField f
      → At s c f
      → c + length f ≤ end
      → field_scan s end k (length f + r) c start current
        ≡ field_scan s end k r (c + length f) start current
  unfolding field_scan
  scan-field [] r c start current h a l =
      ap₂ (λ n j. field_scan s end k n j start current) (omega arith) (omega arith)
  scan-field (x ∷ f) r c start current h a l =
      ap (λ n. field_scan s end k n c start current) n₁
      ∙ step
      ∙ scan-field f r (suc c) start current h.1 a.1 (omega arith)
      ∙ ap (λ j. field_scan s end k r j start current) n₂
    where
      step :
          field_scan s end k (suc (length f + r)) c start current
          ≡ field_scan s end k (length f + r) (suc c) start current
      step = ground arith

      n₁ : suc (length f) + r ≡ suc (length f + r)
      n₁ = omega arith

      n₂ : suc c + length f ≡ c + suc (length f)
      n₂ = omega arith

  -- At the comma behind another field the scan goes on to the next field.
  scan-comma :
      (r c start current : ℕ)
      → get_or s c 0 ≡ b','
      → c < end
      → current ≢ k
      → field_scan s end k (suc r) c start current
        ≡ field_scan s end k r (suc c) (suc c) (suc current)
  unfolding field_scan
  scan-comma r c start current a l ne = ground arith

  -- At a separator or the end behind field `k` the scan stops with that field.
  scan-stop :
      (r c start : ℕ)
      → (get_or s c 0 ≡ b',') ⊎ ((get_or s c 0 ≡ b'*') ⊎ (c ≡ end))
      → field_scan s end k (suc r) c start k
        ≡ (if ltb 0 (c - start) then some (start, c - start) else none)
  unfolding field_scan
  scan-stop r c start a = ground arith

  -- At `*` behind another field there is no field `k`.
  scan-star :
      (r c start current : ℕ)
      → get_or s c 0 ≡ b'*'
      → current ≢ k
      → field_scan s end k (suc r) c start current ≡ none
  unfolding field_scan
  scan-star r c start current a ne = ground arith

-- The fields before field `k` are passed.
scan-fields :
    (s : Bytes) (end k : ℕ) (fs : List Bytes) (n r c p current : ℕ)
    → All IsField fs
    → At s c (with_commas fs)
    → p ≤ end
    → n ≡ length (with_commas fs) + r
    → p ≡ c + length (with_commas fs)
    → current + length fs ≡ k
    → field_scan s end k n c c current ≡ field_scan s end k r p p k
scan-fields s end k [] n r c p current h a l en ep ek =
    let n' : n ≡ r = omega arith in
    let c' : c ≡ p = omega arith in let k' : current ≡ k = omega arith in rw (n', c', k')
scan-fields s end k (f ∷ fs) n r c p current h a l en ep ek =
    let t = At-split s c f (b',' ∷ with_commas fs) a in
    let len = length-append f (b',' ∷ with_commas fs) in
    ap (λ m. field_scan s end k m c c current) (omega (arith, len))
    ∙ scan-field s end k f (suc (length (with_commas fs) + r)) c c current h.0 t.0
        (omega (arith, len))
    ∙ scan-comma s end k (length (with_commas fs) + r) (c + length f) c current t.1.0
        (omega (arith, len)) (omega arith)
    ∙ scan-fields s end k fs (length (with_commas fs) + r) r (suc (c + length f)) p (suc current)
        h.1 t.1.1 l refl (omega (arith, len)) (omega arith)

-- A sentence whose fields behind the first comma are `fs`, each with its comma, then `f`, then
-- `stop`.
abbrev pub layout : Bytes → List Bytes → Bytes → Bytes → Bytes
layout pre fs f stop = pre ++ b',' ∷ ((with_commas fs ++ f) ++ stop)

-- Where `f` begins in it.
abbrev pub field_start : Bytes → List Bytes → ℕ
field_start pre fs = suc (length pre + length (with_commas fs))

-- Field `length fs + 1` is found exactly where it stands, if it is not empty, and is refused if it
-- is; it ends at a comma, at `*`, or at the end of the sentence without its line end.
pub get_field_range-layout :
    (pre : Bytes) (fs : List Bytes) (f stop : Bytes) (len : ℕ)
    → All (λ x. x ≢ b',') pre
    → All IsField fs
    → IsField f
    → let s = layout pre fs f stop in
      let stop_at = field_start pre fs + length f in
      stop_at ≤ strip_eol s len
      → (get_or s stop_at 0 ≡ b',') ⊎ ((get_or s stop_at 0 ≡ b'*') ⊎ (stop_at ≡ strip_eol s len))
      → get_field_range s len (suc (length fs))
        ≡ (if ltb 0 (length f) then some (field_start pre fs, length f) else none)
unfolding get_field_range stripped_field_range
get_field_range-layout pre fs f stop len hp hfs hf l sep =
    rw (stripped_field_range, memchr-append pre _ b',' end hp (omega arith))
      (scan-fields s end k fs _ (suc (length f + (end - (start + length f)))) (suc (length pre))
          start 1 hfs parts.0 (omega arith) (omega arith) (omega arith) (omega arith)
        ∙ ap (λ n. field_scan s end k n start start k) (omega arith)
        ∙ scan-field s end k f (suc (end - (start + length f))) start start k hf
            (subst (λ j. At s j f) (omega arith) parts.1) (omega arith)
        ∙ scan-stop s end k (end - (start + length f)) (start + length f) start sep
        ∙ ap (λ n. if ltb 0 n then some (start, n) else none) (omega arith))
  where
    s : Bytes
    s = layout pre fs f stop

    end : ℕ
    end = strip_eol s len

    k : ℕ
    k = suc (length fs)

    start : ℕ
    start = field_start pre fs

    placed : At s (length pre) (b',' ∷ (with_commas fs ++ f))
    placed = At-append pre (b',' ∷ (with_commas fs ++ f)) stop

    parts :
        At s (suc (length pre)) (with_commas fs)
        × At s (suc (length pre) + length (with_commas fs)) f
    parts = At-split s (suc (length pre)) (with_commas fs) f placed.1

-- What stands behind `f`.
pub layout-stop :
    (pre : Bytes) (fs : List Bytes) (f stop : Bytes) (x : ℕ)
    → get_or (layout pre fs f (x ∷ stop)) (field_start pre fs + length f) 0 ≡ x
layout-stop pre fs f stop x =
    ap₂ (λ (l : Bytes) i. get_or l i 0) (sym (append_assoc pre (b',' ∷ before) (x ∷ stop))) len
    ∙ get_or-append_at (pre ++ b',' ∷ before) stop 0 x
  where
    before : Bytes
    before = with_commas fs ++ f

    len : field_start pre fs + length f ≡ length (pre ++ b',' ∷ before)
    len = omega (arith, length-append pre (b',' ∷ before), length-append (with_commas fs) f)

pub strip_eol-le : (s : Bytes) (len : ℕ) → strip_eol s len ≤ len
unfolding strip_eol
strip_eol-le s zero = omega arith
strip_eol-le s (suc len) = ground (arith, strip_eol-le s len)
