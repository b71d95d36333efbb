-- ===== src/Gnss/Parser/Heard.antt =====
-- What `nmea_parser_feed` holds of the bytes it has been fed.
use esp32_wifi_gnss.Prelude.{
  ℕ, suc, ◌<◌, ◌≡◌, refl, sym, subst, ap, ◌∙◌, append-nil, true, false, [], ◌∷◌, ◌++◌, Bytes, take,
  set, take-set, append_assoc, arith,
}
use esp32_wifi_gnss.Nmea.{max_sentence_len}
use esp32_wifi_gnss.Gnss.{ParserState, Candidate, cleared_parser}
use esp32_wifi_gnss.Gnss.Parser.Invariant.{ParserInv}
use esp32_wifi_gnss.Gnss.Parser.{start_sentence, append_byte}

-- `run` stands in `whole` as it is.
pub record HasRun (run whole : Bytes) : Type 0 where
  pub before : Bytes
  pub after : Bytes
  pub found : whole ≡ before ++ (run ++ after)

-- Both lines of the candidate stand in `whole`, the GGA before the RMC.
pub record InOrder (whole : Bytes) (c : Candidate) : Type 0 where
  pub before : Bytes
  pub between : Bytes
  pub after : Bytes
  pub found :
      whole ≡ before ++ (take c.gga_len c.gga ++ (between ++ (take c.rmc_len c.rmc ++ after)))

-- `done` and then `text` have been fed; `text` is the sentence that is open.
pub record Reads (done text : Bytes) (p : ParserState) : Type 0 where
  pub line : p.in_sentence ≡ true → take p.sentence_len p.sentence ≡ text
  pub kept : p.has_pending_gga ≡ true → HasRun (take p.pending_gga_len p.pending_gga) done

pub record Fed (heard : Bytes) (p : ParserState) : Type 0 where
  pub done : Bytes
  pub text : Bytes
  pub split : heard ≡ done ++ text
  pub reads : Reads done text p

pub more-HasRun : (run whole more : Bytes) → HasRun run whole → HasRun run (whole ++ more)
more-HasRun run whole more h = record {
  before = h.before;
  after = h.after ++ more;
  found =
      ap (λ t. t ++ more) h.found
      ∙ append_assoc h.before (run ++ h.after) more
      ∙ ap (λ t. h.before ++ t) (append_assoc run h.after more);
}

pub more-InOrder :
    (whole more : Bytes) (c : Candidate) → InOrder whole c → InOrder (whole ++ more) c
more-InOrder whole more c h =
    let gga = take c.gga_len c.gga in
    let rmc = take c.rmc_len c.rmc in
    record {
      before = h.before;
      between = h.between;
      after = h.after ++ more;
      found =
          ap (λ t. t ++ more) h.found
          ∙ append_assoc h.before (gga ++ (h.between ++ (rmc ++ h.after))) more
          ∙ ap (λ t. h.before ++ t)
              (append_assoc gga (h.between ++ (rmc ++ h.after)) more
                ∙ ap (λ t. gga ++ t)
                    (append_assoc h.between (rmc ++ h.after) more
                      ∙ ap (λ t. h.between ++ t) (append_assoc rmc h.after more)));
    }

pub cleared-Fed : Fed [] cleared_parser
cleared-Fed = record {
  done = [];
  text = [];
  split = refl;
  reads = record { line = λ h. absurd cc; kept = λ h. absurd cc };
}

-- Outside a sentence all that was fed is done.
pub closed-Fed :
    (heard : Bytes) (p : ParserState)
    → p.in_sentence ≡ false
    → (p.has_pending_gga ≡ true → HasRun (take p.pending_gga_len p.pending_gga) heard)
    → Fed heard p
closed-Fed heard p out kept = record {
  done = heard;
  text = [];
  split = sym (append-nil heard);
  reads = record { line = λ h. absurd (cc (h, out)); kept = kept };
}

pub Fed-kept :
    (heard : Bytes) (p : ParserState)
    → Fed heard p
    → p.has_pending_gga ≡ true
    → HasRun (take p.pending_gga_len p.pending_gga) heard
Fed-kept heard p f has =
    subst (HasRun (take p.pending_gga_len p.pending_gga)) (sym f.split)
      (more-HasRun _ f.done f.text (f.reads.kept has))

pub start-Fed :
    (heard : Bytes) (p : ParserState) (byte : ℕ)
    → ParserInv p
    → Fed heard p
    → Fed (heard ++ byte ∷ []) (start_sentence p byte)
start-Fed heard p byte v f = record {
  done = heard;
  text = byte ∷ [];
  split = refl;
  reads = record {
    line = λ h. take-set p.sentence 0 byte (omega (arith, v.buffer.size));
    kept = Fed-kept heard p f;
  };
}

pub append-Reads :
    (done text : Bytes) (p : ParserState) (byte : ℕ)
    → ParserInv p
    → p.in_sentence ≡ true
    → p.sentence_len < max_sentence_len
    → Reads done text p
    → Reads done (text ++ byte ∷ []) (append_byte p byte)
append-Reads done text p byte v within free r = record {
  line = λ h.
      ap (λ n. take n (set p.sentence p.sentence_len byte)) {y = suc p.sentence_len}
        (omega (arith, free))
      ∙ take-set p.sentence p.sentence_len byte (omega (arith, v.buffer.size, free))
      ∙ ap (λ t. t ++ byte ∷ []) (r.line within);
  kept = r.kept;
}
