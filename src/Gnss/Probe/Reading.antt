-- ===== src/Gnss/Probe/Reading.antt =====
-- What the probe of main/gnss.c has assembled.
use esp32_wifi_gnss.Prelude.{
  ℕ, suc, ◌+◌, ◌≤◌, ◌<◌, ◌≡◌, refl, sym, ap, ap₂, ◌∙◌, subst, true, ◌&&◌, [], ◌∷◌, ◌++◌, Bytes,
  length, take, set, get_or, length-set, length-append, append_assoc, take-set, get_or-take, arith,
}
use esp32_wifi_gnss.Nmea.{max_sentence_len, checksum_ok, sentence_looks_valid}
use esp32_wifi_gnss.Nmea.Locality.{Agree, checksum_ok-local, sentence_looks_valid-local}
use esp32_wifi_gnss.Gnss.{ProbeState}
use esp32_wifi_gnss.Gnss.Parser.Reading.{IsBody, line_of}
use esp32_wifi_gnss.Gnss.Probe.{probe_start, probe_append, probe_valid, probe_byte, probe_feed}

-- `text` is the sentence so far.
pub record Assembled (text : Bytes) (s : ProbeState) : Type 0 where
  pub within : s.in_sentence ≡ true
  pub len : s.sentence_len ≡ length text
  pub held : take (length text) s.sentence ≡ text
  pub size : length s.sentence ≡ max_sentence_len

pub start-Assembled :
    (s : ProbeState) (byte : ℕ)
    → length s.sentence ≡ max_sentence_len
    → Assembled (byte ∷ []) (probe_start s byte)
start-Assembled s byte h = record {
  within = refl;
  len = refl;
  held = take-set s.sentence 0 byte (omega arith);
  size = length-set s.sentence 0 byte (omega (arith, h)) ∙ h;
}

pub append-Assembled :
    (s : ProbeState) (text : Bytes) (x : ℕ)
    → Assembled text s
    → length text < max_sentence_len
    → Assembled (text ++ x ∷ []) (probe_append s x)
append-Assembled s text x r l = record {
  within = r.within;
  len = omega (arith, length-append text (x ∷ []), r.len);
  held =
      ap₂ (λ n j. take n (set s.sentence j x)) {y = suc (length text)}
        (omega (arith, length-append text (x ∷ []))) r.len
      ∙ take-set s.sentence (length text) x (omega arith)
      ∙ ap (λ t. t ++ x ∷ []) r.held;
  size = length-set s.sentence s.sentence_len x (omega (arith, r.size, r.len, l)) ∙ r.size;
}

Assembled-Agree :
    (text : Bytes) (s : ProbeState) → Assembled text s → Agree (length text) s.sentence text
Assembled-Agree text s r i l =
    sym (get_or-take s.sentence (length text) i 0 l) ∙ ap (λ (t : Bytes). get_or t i 0) r.held

-- A line that the probe takes for a proof.
abbrev pub Valid : Bytes → Type 0
Valid line =
    (sentence_looks_valid line (length line) ≡ true) × (checksum_ok line (length line) ≡ true)

-- The test reads the line, and nothing behind it in the array.
pub probe_valid-line :
    (text : Bytes) (s : ProbeState)
    → Assembled text s
    → probe_valid s ≡ (sentence_looks_valid text (length text) && checksum_ok text (length text))
probe_valid-line text s r =
    ap₂ (λ a b. a && b)
      (ap (sentence_looks_valid s.sentence) r.len
        ∙ sentence_looks_valid-local s.sentence text (length text) (Assembled-Agree text s r))
      (ap (checksum_ok s.sentence) r.len
        ∙ checksum_ok-local s.sentence text (length text) (Assembled-Agree text s r))

-- A complete valid line, from any state of the probe.
feed_body :
    (s : ProbeState) (text body : Bytes)
    → Assembled text s
    → IsBody body
    → length text + length body < max_sentence_len
    → Valid (text ++ (body ++ b'\n' ∷ []))
    → (probe_feed (body ++ b'\n' ∷ []) s).0 ≡ true
unfolding probe_feed probe_byte
feed_body s text [] r h l v =
    let w : Valid (text ++ b'\n' ∷ []) = v in
    let e : probe_valid (probe_append s b'\n') ≡ true =
      probe_valid-line (text ++ b'\n' ∷ []) (probe_append s b'\n')
        (append-Assembled s text b'\n' r (omega arith))
      ∙ ground (arith, w) in
    ground (arith, e, r.within, r.len)
feed_body s text (x ∷ body) r h l v =
    let rest =
      feed_body (probe_append s x) (text ++ x ∷ []) body (append-Assembled s text x r (omega arith))
        h.1 (omega (arith, length-append text (x ∷ [])))
        (subst Valid (sym (append_assoc text (x ∷ []) (body ++ b'\n' ∷ []))) v) in
    ground (arith, rest, r.within, r.len, h.0)

-- A valid line of at most 128 bytes, `$` and line end included, that arrives while the probe is in
-- any state makes it return true: no line before it, broken or not, can hide it.
pub probe_feed-line :
    (s : ProbeState) (body : Bytes)
    → length s.sentence ≡ max_sentence_len
    → IsBody body
    → length (line_of body) ≤ max_sentence_len
    → Valid (line_of body)
    → (probe_feed (line_of body) s).0 ≡ true
unfolding probe_feed probe_byte
probe_feed-line s body size h l v =
    feed_body (probe_start s b'$') (b'$' ∷ []) body (start-Assembled s b'$' size) h
      (omega (arith, length-append body (b'\n' ∷ []))) v
