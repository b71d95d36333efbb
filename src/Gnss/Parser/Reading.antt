-- ===== src/Gnss/Parser/Reading.antt =====
-- `nmea_parser_feed` on the bytes of one line.
use esp32_wifi_gnss.Prelude.{
  ℕ, suc, ◌+◌, ◌≤◌, ◌<◌, ◌≡◌, ◌≢◌, refl, sym, ap, ap₂, ◌∙◌, append-nil, subst, true, false, [], ◌∷◌,
  ◌++◌, Bytes, All, length, take, set, get_or, length-set, length-append, append_assoc, take-set,
  get_or-take, leb, arith,
}
use esp32_wifi_gnss.Nmea.{max_sentence_len, checksum_ok, parse_hdop_milli, type_is}
use esp32_wifi_gnss.Nmea.Locality.{Agree, checksum_ok-local, parse_hdop_milli-local}
use esp32_wifi_gnss.Gnss.{ParserState, Candidate}
use esp32_wifi_gnss.Gnss.Parser.{
  complete_sentence, start_sentence, reset_sentence, append_byte, parser_byte, parser_feed,
}
use esp32_wifi_gnss.Gnss.Parser.Steps.{parser_byte-start, parser_byte-append, parser_byte-line}

abbrev pub IsBody : Bytes → Type 0
IsBody = All (λ x. (x ≢ b'$') × (x ≢ b'\n'))

abbrev pub line_of : Bytes → Bytes
line_of body = b'$' ∷ (body ++ b'\n' ∷ [])

-- `p'` holds `text` as its sentence so far, and the pending GGA of `p`.
pub record Reading (p : ParserState) (text : Bytes) (p' : ParserState) : Type 0 where
  pub within : p'.in_sentence ≡ true
  pub len : p'.sentence_len ≡ length text
  pub held : take (length text) p'.sentence ≡ text
  pub size : length p'.sentence ≡ max_sentence_len
  pub has : p'.has_pending_gga ≡ p.has_pending_gga
  pub gga_len : p'.pending_gga_len ≡ p.pending_gga_len
  pub gga : p'.pending_gga ≡ p.pending_gga
  pub hdop : p'.pending_gga_hdop_milli ≡ p.pending_gga_hdop_milli

start-Reading :
    (p : ParserState)
    → length p.sentence ≡ max_sentence_len
    → Reading p (b'$' ∷ []) (start_sentence p b'$')
start-Reading p h = record {
  within = refl;
  len = refl;
  held = take-set p.sentence 0 b'$' (omega arith);
  size = length-set p.sentence 0 b'$' (omega (arith, h)) ∙ h;
  has = refl;
  gga_len = refl;
  gga = refl;
  hdop = refl;
}

append-Reading :
    (p p' : ParserState) (text : Bytes) (x : ℕ)
    → Reading p text p'
    → length text < max_sentence_len
    → Reading p (text ++ x ∷ []) (append_byte p' x)
append-Reading p p' text x r l = record {
  within = r.within;
  len = omega (arith, length-append text (x ∷ []), r.len);
  held =
      ap₂ (λ n j. take n (set p'.sentence j x)) {y = suc (length text)}
        (omega (arith, length-append text (x ∷ []))) r.len
      ∙ take-set p'.sentence (length text) x (omega arith)
      ∙ ap (λ t. t ++ x ∷ []) r.held;
  size = length-set p'.sentence p'.sentence_len x (omega (arith, r.size, r.len, l)) ∙ r.size;
  has = r.has;
  gga_len = r.gga_len;
  gga = r.gga;
  hdop = r.hdop;
}

not_full :
    {n : ℕ} (p : ParserState)
    → p.sentence_len ≡ n
    → n < max_sentence_len
    → leb max_sentence_len p.sentence_len ≡ false
not_full p e l = ground arith

module _ {Q : Type 0} (candidate_send : Q → Candidate → Q) (epoch : ℕ) where
  -- How the bytes are cut into chunks makes no difference.
  pub parser_feed-append :
      (xs ys : Bytes) (s : ParserState × Q)
      → parser_feed candidate_send epoch (xs ++ ys) s
        ≡ parser_feed candidate_send epoch ys (parser_feed candidate_send epoch xs s)
  unfolding parser_feed
  parser_feed-append [] ys s = refl
  parser_feed-append (x ∷ xs) ys s = parser_feed-append xs ys (parser_byte candidate_send epoch s x)

  feed-body :
      (p p' : ParserState) (text body : Bytes) (q : Q)
      → Reading p text p'
      → IsBody body
      → length text + length body < max_sentence_len
      → (p'' : ParserState) × (parser_feed candidate_send epoch body (p', q) ≡ (p'', q))
        × Reading p (text ++ body) p''
  unfolding parser_feed
  feed-body p p' text [] q r h l = (p', refl, subst (λ t. Reading p t p') (sym (append-nil text)) r)
  feed-body p p' text (x ∷ body) q r h l =
      let (p'', e, r') =
        feed-body p (append_byte p' x) (text ++ x ∷ []) body q
          (append-Reading p p' text x r (omega arith)) h.1
          (omega (arith, length-append text (x ∷ []))) in
      (
        p'',
        ap (parser_feed candidate_send epoch body) (
              parser_byte-append candidate_send epoch p' q x (ground arith) r.within (ground arith)
                (ground arith))
            ∙ e,
        subst (λ t. Reading p t p'') (append_assoc text (x ∷ []) body) r',
      )

  -- A whole line, from any state: it is handed over as it came.
  pub feed-line :
      (p : ParserState) (body : Bytes) (q : Q)
      → length p.sentence ≡ max_sentence_len
      → IsBody body
      → length (line_of body) ≤ max_sentence_len
      → (p' : ParserState) × (parser_feed candidate_send epoch (line_of body) (p, q) ≡ (
          let (p'', q'') = complete_sentence candidate_send epoch p' q in
          (reset_sentence p'', q'')))
        × Reading p (line_of body) p'
  unfolding parser_feed
  feed-line p body q size h l =
      let len = length-append body (b'\n' ∷ []) in
      let (p', e, r) =
        feed-body p (start_sentence p b'$') (b'$' ∷ []) body q (start-Reading p size) h
          (omega (arith, len)) in
      (
        append_byte p' b'\n',
        ap (parser_feed candidate_send epoch (body ++ b'\n' ∷ []))
              (parser_byte-start candidate_send epoch p q b'$' refl)
            ∙ parser_feed-append body (b'\n' ∷ []) (start_sentence p b'$', q)
            ∙ ap (parser_feed candidate_send epoch (b'\n' ∷ [])) e
            ∙ parser_byte-line candidate_send epoch p' q b'\n' refl r.within
                (not_full p' r.len (omega (arith, len))) refl,
        append-Reading p p' (b'$' ∷ body) b'\n' r (omega (arith, len)),
      )

-- The buffer agrees with the line.
Reading-Agree :
    (p : ParserState) (text : Bytes) (p' : ParserState)
    → Reading p text p'
    → Agree (length text) p'.sentence text
Reading-Agree p text p' r i l =
    sym (get_or-take p'.sentence (length text) i 0 l) ∙ ap (λ (t : Bytes). get_or t i 0) r.held

pub Reading-sum :
    (p : ParserState) (text : Bytes) (p' : ParserState)
    → Reading p text p'
    → checksum_ok p'.sentence p'.sentence_len ≡ checksum_ok text (length text)
Reading-sum p text p' r =
    ap (checksum_ok p'.sentence) r.len
    ∙ checksum_ok-local p'.sentence text (length text) (Reading-Agree p text p' r)

pub Reading-hdop :
    (p : ParserState) (text : Bytes) (p' : ParserState)
    → Reading p text p'
    → parse_hdop_milli p'.sentence p'.sentence_len ≡ parse_hdop_milli text (length text)
Reading-hdop p text p' r =
    ap (parse_hdop_milli p'.sentence) r.len
    ∙ parse_hdop_milli-local p'.sentence text (length text) (Reading-Agree p text p' r)

pub Reading-type :
    (p : ParserState) (text : Bytes) (p' : ParserState) (a b c : ℕ)
    → Reading p text p'
    → 6 ≤ length text
    → type_is p'.sentence a b c ≡ type_is text a b c
Reading-type p text p' a b c r l =
    let agree = Reading-Agree p text p' r in
    rw (agree 3 (omega arith), agree 4 (omega arith), agree 5 (omega arith))
