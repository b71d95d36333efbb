-- ===== src/Log/Ring.antt =====
-- The ring of main/log_stream.c against the log written to it: what capturing a text does.
use esp32_wifi_gnss.Prelude.{
  ℕ, zero, suc, ◌+◌, ◌%◌, ◌≤◌, ◌<◌, ◌≡◌, ◌⊎◌, inl, inr, refl, sym, ap, subst, ◌∙◌, min, [], ◌∷◌,
  ◌++◌, Bytes, length, get_or, set, take, ltb, ltb→lt, ltb→le, Bool-cases, take-length,
  length-append, length-set, length-take, append_assoc, append-nil, get_or-append_left,
  get_or-append_at, get_or-set_self, get_or-set_ne, arith,
}
use esp32_wifi_gnss.Log.{LogRing, ring_write, log_capture, size_t, ring_buffer_size}

-- The array `ring` holds the last bytes of the log `log`.
pub record Survivors (ring log : Bytes) : Type 0 where
  pub size : length ring ≡ 4096
  pub kept :
      (j : ℕ) → j < length log → length log ≤ j + 4096 → get_or ring (j % 4096) 0 ≡ get_or log j 0

pub record Holds (log : Bytes) (r : LogRing) : Type 0 where
  pub survivors : Survivors r.ring_buffer log
  pub total : r.write_total ≡ size_t (length log)

take_all : (n : ℕ) (l : Bytes) → length l ≤ n → take n l ≡ l
take_all zero [] h = refl
take_all zero (x ∷ l) h = absurd (omega arith)
take_all (suc n) [] h = refl
take_all (suc n) (x ∷ l) h = ap (λ r. x ∷ r) (take_all n l (omega arith))

take-min : (n : ℕ) (l : Bytes) → take (min (length l) n) l ≡ take n l
take-min n l = elim (Bool-cases (ltb n (length l))) [
  | inl long ↦ ap (λ k. take k l) (omega (arith, ltb→lt n (length l) long))
  | inr short ↦
      ap (λ k. take k l) (omega (arith, ltb→le n (length l) short))
      ∙ take-length l
      ∙ sym (take_all n l (ltb→le n (length l) short))
]

module _ (ring log : Bytes) (at byte : ℕ) (v : Survivors ring log)
    (e : size_t at ≡ size_t (length log)) where
  slot : size_t at % 4096 ≡ length log % 4096
  slot = omega (arith, e)

  older :
      (j : ℕ)
      → j < length log
      → length log + 1 ≤ j + 4096
      → get_or (set ring (size_t at % 4096) byte) (j % 4096) 0 ≡ get_or (log ++ byte ∷ []) j 0
  older j lt near =
      get_or-set_ne ring (size_t at % 4096) (j % 4096) byte 0 (omega (arith, v.size))
        (λ same. omega (arith, same, slot, lt, near))
      ∙ v.kept j lt (omega arith)
      ∙ sym (get_or-append_left log (byte ∷ []) j 0 lt)

  newest :
      get_or (set ring (size_t at % 4096) byte) (length log % 4096) 0
      ≡ get_or (log ++ byte ∷ []) (length log) 0
  newest =
      ap (λ i. get_or (set ring (size_t at % 4096) byte) i 0) (sym slot)
      ∙ get_or-set_self ring (size_t at % 4096) byte 0 (omega (arith, v.size))
      ∙ sym (get_or-append_at log [] 0 byte)

  one_byte : Survivors (set ring (size_t at % ring_buffer_size) byte) (log ++ byte ∷ [])
  one_byte = record {
    size = length-set ring (size_t at % 4096) byte (omega (arith, v.size)) ∙ v.size;
    kept = λ j lt near. elim (last j (omega (arith, lt, length-append log (byte ∷ [])))) [
      | inl old ↦ older j old (omega (arith, near, length-append log (byte ∷ [])))
      | inr is ↦
          subst
            (λ k.
              get_or (set ring (size_t at % 4096) byte) (k % 4096) 0
              ≡ get_or (log ++ byte ∷ []) k 0)
            (sym is) newest
    ];
  }
    where
      last : (j : ℕ) → j < length log + 1 → (j < length log) ⊎ (j ≡ length log)
      last j lt = ground arith

pub ring_write-Survivors :
    (line ring log : Bytes) (at : ℕ)
    → Survivors ring log
    → size_t at ≡ size_t (length log)
    → Survivors (ring_write ring at line) (log ++ line)
unfolding ring_write
ring_write-Survivors [] ring log at v e = subst (Survivors ring) (sym (append-nil log)) v
ring_write-Survivors (byte ∷ line) ring log at v e =
    subst (Survivors (ring_write ring at (byte ∷ line))) (append_assoc log (byte ∷ []) line) (
      ring_write-Survivors line _ (log ++ byte ∷ []) (suc at) (one_byte ring log at byte v e)
        (omega (arith, e, length-append log (byte ∷ []))))

-- Capturing a text appends its first 255 bytes to the log that the ring holds: afterwards each of
-- the last 4096 bytes of the longer log stands at its place in the ring, also when the counter of
-- 32 bits has wrapped.
pub log_capture-Holds :
    (log text : Bytes) (r : LogRing)
    → Holds log r
    → Holds (log ++ take 255 text) (log_capture text r)
unfolding log_capture
log_capture-Holds log text r v = record {
  survivors =
      subst (λ l. Survivors (ring_write r.ring_buffer r.write_total l) (log ++ take 255 text))
        (sym (take-min 255 text))
        (ring_write-Survivors (take 255 text) r.ring_buffer log r.write_total v.survivors
          (omega (arith, v.total)));
  total = omega (arith, v.total, length-append log (take 255 text), length-take 255 text);
}
