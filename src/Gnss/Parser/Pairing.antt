-- ===== src/Gnss/Parser/Pairing.antt =====
-- `nmea_parser_feed` on a GGA line and the RMC line behind it.
use esp32_wifi_gnss.Prelude.{
  ℕ, ◌≤◌, ◌≡◌, refl, sym, ap, ap₂, ◌∙◌, true, false, none, some, ℤ, ◌++◌, Bytes, length, take,
  arith,
}
use esp32_wifi_gnss.Nmea.{max_sentence_len, checksum_ok, parse_hdop_milli, type_is}
use esp32_wifi_gnss.Gnss.{ParserState, Candidate, copy_bytes, zero_bytes}
use esp32_wifi_gnss.Gnss.Copy.{take-copy_bytes, length-copy_bytes}
use esp32_wifi_gnss.Gnss.Parser.{
  keep_gga, candidate_of, is_unpaired, complete_rmc, complete_sentence, reset_sentence, parser_feed,
}
use esp32_wifi_gnss.Gnss.Parser.Invariant.{ParserInv, IsGga}
use esp32_wifi_gnss.Gnss.Parser.Reading.{
  IsBody, line_of, Reading, parser_feed-append, feed-line, Reading-sum, Reading-hdop, Reading-type,
}

-- A complete RMC line with a correct checksum.
pub record IsRmc (line : Bytes) : Type 0 where
  pub sum : checksum_ok line (length line) ≡ true
  pub long : 6 ≤ length line
  pub rmc : type_is line b'R' b'M' b'C' ≡ true

-- An RMC has no HDOP.
rmc-no_hdop :
    (s : Bytes) (len : ℕ) → type_is s b'R' b'M' b'C' ≡ true → parse_hdop_milli s len ≡ none
unfolding parse_hdop_milli
rmc-no_hdop s len h = ground arith

-- The pending GGA of `p` is `line`.
pub record Pending (line : Bytes) (hdop_milli : ℤ) (p : ParserState) : Type 0 where
  pub size : length p.sentence ≡ max_sentence_len
  pub has : p.has_pending_gga ≡ true
  pub len : p.pending_gga_len ≡ length line
  pub held : take (length line) p.pending_gga ≡ line
  pub room : length line ≤ length p.pending_gga
  pub hdop : p.pending_gga_hdop_milli ≡ hdop_milli

-- `c` is the pair of the two lines.
pub record IsPair (gga rmc : Bytes) (hdop_milli : ℤ) (epoch : ℕ) (c : Candidate) : Type 0 where
  pub gga_len : c.gga_len ≡ length gga
  pub gga_held : take c.gga_len c.gga ≡ gga
  pub rmc_len : c.rmc_len ≡ length rmc
  pub rmc_held : take c.rmc_len c.rmc ≡ rmc
  pub hdop : c.hdop_milli ≡ hdop_milli
  pub of_epoch : c.input_epoch ≡ epoch

candidate_of-IsPair :
    (gga rmc : Bytes) (h : ℤ) (epoch : ℕ) (p p' : ParserState)
    → Pending gga h p
    → Reading p rmc p'
    → length rmc ≤ max_sentence_len
    → IsPair gga rmc h epoch (candidate_of p' epoch)
candidate_of-IsPair gga rmc h epoch p p' g r l = record {
  gga_len = r.gga_len ∙ g.len;
  gga_held =
      take-copy_bytes (zero_bytes max_sentence_len) p'.pending_gga p'.pending_gga_len
        (ground (arith, ap length r.gga))
      ∙ ap₂ take (r.gga_len ∙ g.len) r.gga
      ∙ g.held;
  rmc_len = r.len;
  rmc_held =
      take-copy_bytes (zero_bytes max_sentence_len) p'.sentence p'.sentence_len (omega arith)
      ∙ ap (λ n. take n p'.sentence) r.len
      ∙ r.held;
  hdop = r.hdop ∙ g.hdop;
  of_epoch = refl;
}

keep-Pending :
    (p p' : ParserState) (line : Bytes) (h : ℤ)
    → Reading p line p'
    → length p.pending_gga ≡ max_sentence_len
    → length line ≤ max_sentence_len
    → Pending line h (reset_sentence (keep_gga p' h))
keep-Pending p p' line h r size l = record {
  size = r.size;
  has = refl;
  len = r.len;
  held =
      ap (λ n. take n (copy_bytes p'.pending_gga 0 p'.sentence p'.sentence_len)) (sym r.len)
      ∙ take-copy_bytes p'.pending_gga p'.sentence p'.sentence_len (omega (arith, r.len))
      ∙ ap (λ n. take n p'.sentence) r.len
      ∙ r.held;
  room = omega (
    arith,
    ap length r.gga,
    length-copy_bytes p'.pending_gga 0 p'.sentence p'.sentence_len
        (omega (arith, ap length r.gga, r.len)) (omega (arith, r.len)),
  );
  hdop = refl;
}

ready :
    (p : ParserState)
    → type_is p.sentence b'R' b'M' b'C' ≡ true
    → p.has_pending_gga ≡ true
    → 6 ≤ p.sentence_len
    → is_unpaired p ≡ false
unfolding is_unpaired
ready p t h l = ground arith

module _ {Q : Type 0} (candidate_send : Q → Candidate → Q) (epoch : ℕ) where
  complete-gga :
      (p : ParserState) (h : ℤ) (q : Q)
      → checksum_ok p.sentence p.sentence_len ≡ true
      → parse_hdop_milli p.sentence p.sentence_len ≡ some h
      → complete_sentence candidate_send epoch p q ≡ (keep_gga p h, q)
  unfolding complete_sentence
  complete-gga p h q ok e = rw (ok, complete_sentence, e)

  complete-rmc :
      (p : ParserState) (q : Q)
      → checksum_ok p.sentence p.sentence_len ≡ true
      → parse_hdop_milli p.sentence p.sentence_len ≡ none
      → is_unpaired p ≡ false
      → complete_sentence candidate_send epoch p q ≡ (
        record p { has_pending_gga = false; pending_gga_len = 0 },
        candidate_send q (candidate_of p epoch),
      )
  unfolding complete_sentence complete_rmc
  complete-rmc p q ok e u = rw (ok, complete_sentence, e, u)

  feed-gga :
      (p : ParserState) (body : Bytes) (h : ℤ) (q : Q)
      → ParserInv p
      → IsBody body
      → length (line_of body) ≤ max_sentence_len
      → IsGga (line_of body) (length (line_of body)) h
      → (p' : ParserState) × (parser_feed candidate_send epoch (line_of body) (p, q) ≡ (p', q))
        × Pending (line_of body) h p'
  feed-gga p body h q v b l g =
      let (p', e, r) = feed-line candidate_send epoch p body q v.buffer.size b l in
      let ok =
        complete-gga p' h q (Reading-sum p _ p' r ∙ g.sum) (Reading-hdop p _ p' r ∙ g.hdop) in
      (
        reset_sentence (keep_gga p' h),
        e ∙ ap (λ (s : ParserState × Q). (reset_sentence s.0, s.1)) ok,
        keep-Pending p p' (line_of body) h r v.pending.size l,
      )

  feed-rmc :
      (p : ParserState) (gga body : Bytes) (h : ℤ) (q : Q)
      → Pending gga h p
      → IsBody body
      → length (line_of body) ≤ max_sentence_len
      → IsRmc (line_of body)
      → (p' : ParserState) × (c : Candidate) × (parser_feed candidate_send epoch
            (line_of body)
            (p, q)
          ≡ (p', candidate_send q c))
        × IsPair gga (line_of body) h epoch c
        × (p'.has_pending_gga ≡ false)
  feed-rmc p gga body h q g b l m =
      let (p', e, r) = feed-line candidate_send epoch p body q g.size b l in
      let type_ok = Reading-type p _ p' _ _ _ r m.long ∙ m.rmc in
      let ok =
        complete-rmc p' q (Reading-sum p _ p' r ∙ m.sum)
          (rmc-no_hdop p'.sentence p'.sentence_len type_ok)
          (ready p' type_ok (r.has ∙ g.has) (omega (arith, r.len, m.long))) in
      (
        _,
        candidate_of p' epoch,
        e ∙ ap (λ (s : ParserState × Q). (reset_sentence s.0, s.1)) ok,
        candidate_of-IsPair gga _ h epoch p p' g r l,
        refl,
      )

  -- In whatever state the parser is, a complete GGA line with an HDOP followed by a complete RMC
  -- line, both with correct checksums, sends exactly one candidate. It holds the original bytes of
  -- both lines, the HDOP of the GGA and the current source generation, and the GGA is used up.
  pub gga_rmc-IsPair :
      (p : ParserState) (gga rmc : Bytes) (h : ℤ) (q : Q)
      → ParserInv p
      → IsBody gga
      → IsBody rmc
      → length (line_of gga) ≤ max_sentence_len
      → length (line_of rmc) ≤ max_sentence_len
      → IsGga (line_of gga) (length (line_of gga)) h
      → IsRmc (line_of rmc)
      → (p' : ParserState) × (c : Candidate) × (parser_feed candidate_send epoch
            (line_of gga ++ line_of rmc)
            (p, q)
          ≡ (p', candidate_send q c))
        × IsPair (line_of gga) (line_of rmc) h epoch c
        × (p'.has_pending_gga ≡ false)
  gga_rmc-IsPair p gga rmc h q v bg br lg lr g m =
      let (p₁, e₁, pending) = feed-gga p gga h q v bg lg g in
      let (p₂, c, e₂, pair, used) = feed-rmc p₁ (line_of gga) rmc h q pending br lr m in
      (
        p₂,
        c,
        parser_feed-append candidate_send epoch (line_of gga) (line_of rmc) (p, q)
            ∙ ap (parser_feed candidate_send epoch (line_of rmc)) e₁
            ∙ e₂,
        pair,
        used,
      )
