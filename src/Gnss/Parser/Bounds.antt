-- ===== src/Gnss/Parser/Bounds.antt =====
-- The parser's invariant: the sizes of its arrays, the lengths within them, and the checks that what
-- is pending or sent has passed.
use esp32_wifi_gnss.Prelude.{
  ℕ, ◌≤◌, ◌<◌, ◌≡◌, refl, sym, subst, ◌∙◌, true, false, ℤ, [], ◌∷◌, Bytes, inl, inr, leb, ◌==◌,
  length-set, Bool-cases, Option-cases, arith,
}
use esp32_wifi_gnss.Nmea.{max_sentence_len, checksum_ok, parse_hdop_milli, type_is}
use esp32_wifi_gnss.Gnss.{ParserState, Candidate, zero_bytes}
use esp32_wifi_gnss.Gnss.Parser.Steps.{
  parser_byte-start, parser_byte-skip, parser_byte-overlong, parser_byte-append, parser_byte-line,
}
use esp32_wifi_gnss.Gnss.Parser.{
  keep_gga, candidate_of, is_unpaired, complete_rmc, complete_sentence, reset_sentence,
  start_sentence, append_byte, parser_byte, parser_feed,
}
use esp32_wifi_gnss.Gnss.Parser.Invariant.{
  IsGga, ParserInv, IsGenuine, copy-Fits, copy-sum, copy-IsGga, copy-type,
}

keep_gga-ParserInv :
    (p : ParserState) (h : ℤ)
    → ParserInv p
    → IsGga p.sentence p.sentence_len h
    → ParserInv (keep_gga p h)
keep_gga-ParserInv p h v g = record {
  buffer = v.buffer;
  pending = copy-Fits p.pending_gga p.sentence p.sentence_len v.pending.size v.buffer;
  started = v.started;
  checked = λ _. copy-IsGga p.pending_gga p.sentence p.sentence_len h v.buffer g;
}

candidate_of-IsGenuine :
    (p : ParserState) (epoch : ℕ)
    → ParserInv p
    → p.has_pending_gga ≡ true
    → checksum_ok p.sentence p.sentence_len ≡ true
    → type_is p.sentence b'R' b'M' b'C' ≡ true
    → 6 ≤ p.sentence_len
    → IsGenuine epoch (candidate_of p epoch)
candidate_of-IsGenuine p epoch v has ok rmc long = record {
  gga_fits = copy-Fits (zero_bytes 128) p.pending_gga p.pending_gga_len refl v.pending;
  gga_ok = copy-IsGga (zero_bytes 128) p.pending_gga p.pending_gga_len _ v.pending (v.checked has);
  rmc_fits = copy-Fits (zero_bytes 128) p.sentence p.sentence_len refl v.buffer;
  rmc_sum = copy-sum (zero_bytes 128) p.sentence p.sentence_len v.buffer ∙ ok;
  rmc_type = copy-type (zero_bytes 128) p.sentence p.sentence_len _ _ _ v.buffer long ∙ rmc;
  epoch_kept = refl;
}

start_sentence-ParserInv :
    (p : ParserState) (byte : ℕ) → ParserInv p → ParserInv (start_sentence p byte)
start_sentence-ParserInv p byte v = record {
  buffer = record {
    size = length-set p.sentence 0 byte (omega (arith, v.buffer.size)) ∙ v.buffer.size;
    within = omega arith;
  };
  pending = v.pending;
  started = λ _. omega arith;
  checked = v.checked;
}

pub append_byte-ParserInv :
    (p : ParserState) (byte : ℕ)
    → ParserInv p
    → p.sentence_len < max_sentence_len
    → ParserInv (append_byte p byte)
append_byte-ParserInv p byte v l = record {
  buffer = record {
    size =
        length-set p.sentence p.sentence_len byte (omega (arith, v.buffer.size, l)) ∙ v.buffer.size;
    within = omega arith;
  };
  pending = v.pending;
  started = λ _. omega arith;
  checked = v.checked;
}

pub paired :
    (p : ParserState)
    → is_unpaired p ≡ false
    → (6 ≤ p.sentence_len) × (type_is p.sentence b'R' b'M' b'C' ≡ true) × (p.has_pending_gga ≡ true)
unfolding is_unpaired
paired p h = ground arith

-- `P` is what the candidates sent so far guarantee of the queue.
module _ {Q : Type 0} (candidate_send : Q → Candidate → Q) (epoch : ℕ) (P : Q → Type 0)
    (keep : (q : Q) (c : Candidate) → IsGenuine epoch c → P q → P (candidate_send q c)) where
  abbrev pub Kept : ParserState × Q → Type 0
  Kept s = ParserInv s.0 × P s.1

  complete_rmc-Kept :
      (p : ParserState) (q : Q)
      → ParserInv p
      → checksum_ok p.sentence p.sentence_len ≡ true
      → P q
      → Kept (complete_rmc candidate_send epoch p q)
  unfolding complete_rmc
  complete_rmc-Kept p q v ok h = elim (Bool-cases (is_unpaired p)) [
    | inl e ↦ rw e (v, h)
    | inr e ↦
        let (long, rmc, has) = paired p e in
        rw e (
          record {
            buffer = v.buffer;
            pending = record { size = v.pending.size; within = omega arith };
            started = v.started;
            checked = λ t. cc;
          },
          keep q (candidate_of p epoch) (candidate_of-IsGenuine p epoch v has ok rmc long) h,
        )
  ]

  complete_sentence-Kept :
      (p : ParserState) (q : Q)
      → ParserInv p
      → P q
      → Kept (complete_sentence candidate_send epoch p q)
  unfolding complete_sentence
  complete_sentence-Kept p q v h = elim (Bool-cases (checksum_ok p.sentence p.sentence_len)) [
    | inr bad ↦ rw bad (v, h)
    | inl ok ↦ elim (Option-cases (parse_hdop_milli p.sentence p.sentence_len)) [
      | inl e ↦ rw (ok, complete_sentence, e) (complete_rmc-Kept p q v ok h)
      | inr (hdop, e) ↦
          rw (ok, complete_sentence, e)
            (keep_gga-ParserInv p hdop v (record { sum = ok; hdop = e }), h)
    ]
  ]

  reset-Kept : (p : ParserState) (q : Q) → ParserInv p → P q → Kept (reset_sentence p, q)
  reset-Kept p q v h = (
    record {
      buffer = record { size = v.buffer.size; within = omega arith };
      pending = v.pending;
      started = λ t. cc;
      checked = v.checked;
    },
    h,
  )

  pub parser_byte-Kept :
      (p : ParserState) (q : Q) (byte : ℕ)
      → ParserInv p
      → P q
      → Kept (parser_byte candidate_send epoch (p, q) byte)
  parser_byte-Kept p q byte v h = elim (Bool-cases (byte == b'$')) [
    | inl e ↦
        subst Kept (sym (parser_byte-start candidate_send epoch p q byte e))
          (start_sentence-ParserInv p byte v, h)
    | inr e ↦ elim (Bool-cases p.in_sentence) [
      | inr out ↦ subst Kept (sym (parser_byte-skip candidate_send epoch p q byte e out)) (v, h)
      | inl within ↦ elim (Bool-cases (leb max_sentence_len p.sentence_len)) [
        | inl full ↦
            subst Kept (sym (parser_byte-overlong candidate_send epoch p q byte e within full))
              (reset-Kept p q v h)
        | inr free ↦
            let w = append_byte-ParserInv p byte v (ground arith) in
            elim (Bool-cases (byte == b'\n')) [
              | inr on ↦
                  subst Kept
                    (sym (parser_byte-append candidate_send epoch p q byte e within free on)) (w, h)
              | inl end ↦
                  let (w', h') = complete_sentence-Kept (append_byte p byte) q w h in
                  subst Kept
                    (sym (parser_byte-line candidate_send epoch p q byte e within free end))
                    (reset-Kept _ _ w' h')
            ]
      ]
    ]
  ]

  -- Whatever bytes arrive, the parser keeps its invariant: the arrays keep their 128 bytes, where a
  -- write past the end would have lengthened one for good, the lengths stay within them, and a pending
  -- GGA has passed its checks. And every candidate that it sends is a GGA line with its HDOP and an RMC
  -- line, each with a correct checksum, of the current source generation: a property of the sink that
  -- sending such candidates keeps holds at the end.
  pub parser_feed-Kept :
      (bytes : Bytes) (p : ParserState) (q : Q)
      → ParserInv p
      → P q
      → Kept (parser_feed candidate_send epoch bytes (p, q))
  unfolding parser_feed
  parser_feed-Kept [] p q v h = (v, h)
  parser_feed-Kept (byte ∷ bytes) p q v h =
      let (v', h') = parser_byte-Kept p q byte v h in parser_feed-Kept bytes _ _ v' h'
