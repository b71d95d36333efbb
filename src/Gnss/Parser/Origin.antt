-- ===== src/Gnss/Parser/Origin.antt =====
-- Where the lines of a candidate of `nmea_parser_feed` stand in what the parser has been fed.
use esp32_wifi_gnss.Prelude.{
  ℕ, ◌<◌, ◌≡◌, refl, sym, subst, ap, ap₂, ◌∙◌, append-nil, true, [], ◌∷◌, ◌++◌, Bytes, take,
  append_assoc, leb, ◌==◌, inl, inr, Bool-cases, Option-cases, arith,
}
use esp32_wifi_gnss.Nmea.{max_sentence_len, checksum_ok, parse_hdop_milli}
use esp32_wifi_gnss.Gnss.{ParserState, Candidate, zero_bytes}
use esp32_wifi_gnss.Gnss.Copy.{take-copy_bytes}
use esp32_wifi_gnss.Gnss.Parser.Steps.{
  parser_byte-start, parser_byte-skip, parser_byte-overlong, parser_byte-append, parser_byte-line,
}
use esp32_wifi_gnss.Gnss.Parser.Bounds.{paired, append_byte-ParserInv, parser_byte-Kept}
use esp32_wifi_gnss.Gnss.Parser.Invariant.{ParserInv}
use esp32_wifi_gnss.Gnss.Parser.{
  candidate_of, is_unpaired, complete_rmc, complete_sentence, append_byte, parser_byte, parser_feed,
}
use esp32_wifi_gnss.Gnss.Parser.Heard.{
  HasRun, InOrder, Reads, Fed, more-HasRun, closed-Fed, Fed-kept, start-Fed, append-Reads,
}

-- `P` is what the candidates sent so far guarantee of the queue, where `whole` is all that the
-- parser is fed.
module _ {Q : Type 0} (candidate_send : Q → Candidate → Q) (epoch : ℕ) (whole : Bytes)
    (P : Q → Type 0)
    (keep : (q : Q) (c : Candidate) → InOrder whole c → P q → P (candidate_send q c)) where
  abbrev Ended : Bytes → ParserState × Q → Type 0
  Ended heard r =
      (r.0.has_pending_gga ≡ true → HasRun (take r.0.pending_gga_len r.0.pending_gga) heard) × P r.1

  candidate_of-InOrder :
      (p : ParserState) (done text rest : Bytes)
      → ParserInv p
      → take p.sentence_len p.sentence ≡ text
      → HasRun (take p.pending_gga_len p.pending_gga) done
      → whole ≡ (done ++ text) ++ rest
      → InOrder whole (candidate_of p epoch)
  candidate_of-InOrder p done text rest v line run e =
      let gga = take p.pending_gga_len p.pending_gga in
      let copied =
        take-copy_bytes (zero_bytes max_sentence_len) p.pending_gga p.pending_gga_len
          (omega (arith, v.pending.size, v.pending.within)) in
      let copied' =
        take-copy_bytes (zero_bytes max_sentence_len) p.sentence p.sentence_len
          (omega (arith, v.buffer.size, v.buffer.within))
        ∙ line in
      record {
        before = run.before;
        between = run.after;
        after = rest;
        found =
            e
            ∙ append_assoc done text rest
            ∙ ap (λ t. t ++ (text ++ rest)) run.found
            ∙ append_assoc run.before (gga ++ run.after) (text ++ rest)
            ∙ ap (λ t. run.before ++ t) (append_assoc gga run.after (text ++ rest))
            ∙ ap₂ (λ g r. run.before ++ (g ++ (run.after ++ (r ++ rest)))) (sym copied)
                (sym copied');
      }

  complete_rmc-Ended :
      (p : ParserState) (q : Q) (done text rest : Bytes)
      → ParserInv p
      → take p.sentence_len p.sentence ≡ text
      → Reads done text p
      → whole ≡ (done ++ text) ++ rest
      → P q
      → Ended (done ++ text) (complete_rmc candidate_send epoch p q)
  unfolding complete_rmc
  complete_rmc-Ended p q done text rest v line r e h = elim (Bool-cases (is_unpaired p)) [
    | inl u ↦ rw u (λ has. more-HasRun _ done text (r.kept has), h)
    | inr u ↦ rw u (
      λ has. absurd cc,
      keep q (candidate_of p epoch)
          (candidate_of-InOrder p done text rest v line (r.kept (paired p u).2) e) h,
    )
  ]

  complete_sentence-Ended :
      (p : ParserState) (q : Q) (done text rest : Bytes)
      → ParserInv p
      → take p.sentence_len p.sentence ≡ text
      → Reads done text p
      → whole ≡ (done ++ text) ++ rest
      → P q
      → Ended (done ++ text) (complete_sentence candidate_send epoch p q)
  unfolding complete_sentence
  complete_sentence-Ended p q done text rest v line r e h =
      let kept = λ (has : p.has_pending_gga ≡ true). more-HasRun _ done text (r.kept has) in
      elim (Bool-cases (checksum_ok p.sentence p.sentence_len)) [
        | inr bad ↦ rw bad (kept, h)
        | inl ok ↦ elim (Option-cases (parse_hdop_milli p.sentence p.sentence_len)) [
          | inl u ↦
              rw (ok, complete_sentence, u) (complete_rmc-Ended p q done text rest v line r e h)
          | inr (hdop, u) ↦
              rw (ok, complete_sentence, u)
                (
                  λ has. record {
                    before = done;
                    after = [];
                    found =
                        ap (λ t. done ++ t)
                          (sym (
                              take-copy_bytes p.pending_gga p.sentence p.sentence_len
                                (omega (arith, v.buffer.size, v.buffer.within))
                              ∙ line)
                            ∙ sym (append-nil _));
                  },
                  h,
                )
        ]
      ]

  abbrev Kept : Bytes → ParserState × Q → Type 0
  Kept heard s = Fed heard s.0 × P s.1

  byte-Kept :
      (p : ParserState) (q : Q) (byte : ℕ) (heard rest : Bytes)
      → ParserInv p
      → Fed heard p
      → whole ≡ (heard ++ byte ∷ []) ++ rest
      → P q
      → Kept (heard ++ byte ∷ []) (parser_byte candidate_send epoch (p, q) byte)
  byte-Kept p q byte heard rest v f e h =
      let all : heard ++ byte ∷ [] ≡ f.done ++ (f.text ++ byte ∷ []) =
        ap (λ t. t ++ byte ∷ []) f.split ∙ append_assoc f.done f.text (byte ∷ []) in
      let more = λ (has : p.has_pending_gga ≡ true).
        more-HasRun _ heard (byte ∷ []) (Fed-kept heard p f has) in
      let to =
        λ (s : ParserState × Q) (same : parser_byte candidate_send epoch (p, q) byte ≡ s)
            (k : Kept (heard ++ byte ∷ []) s).
          subst (Kept (heard ++ byte ∷ [])) (sym same) k in
      elim (Bool-cases (byte == b'$')) [
        | inl dollar ↦
            to _ (parser_byte-start candidate_send epoch p q byte dollar)
              (start-Fed heard p byte v f, h)
        | inr other ↦ elim (Bool-cases p.in_sentence) [
          | inr out ↦
              to _ (parser_byte-skip candidate_send epoch p q byte other out)
                (closed-Fed _ p out more, h)
          | inl within ↦ elim (Bool-cases (leb max_sentence_len p.sentence_len)) [
            | inl full ↦
                to _ (parser_byte-overlong candidate_send epoch p q byte other within full)
                  (closed-Fed _ _ refl more, h)
            | inr free ↦
                let room : p.sentence_len < max_sentence_len = ground arith in
                let r = append-Reads f.done f.text p byte v within room f.reads in
                elim (Bool-cases (byte == b'\n')) [
                  | inr on ↦
                      to _ (parser_byte-append candidate_send epoch p q byte other within free on) (
                        record {
                          done = f.done;
                          text = f.text ++ byte ∷ [];
                          split = all;
                          reads = r;
                        },
                        h,
                      )
                  | inl end ↦
                      let (kept, h') =
                        complete_sentence-Ended (append_byte p byte) q f.done (f.text ++ byte ∷ [])
                          rest (append_byte-ParserInv p byte v room) (r.line within) r
                          (e ∙ ap (λ t. t ++ rest) all) h in
                      to _ (parser_byte-line candidate_send epoch p q byte other within free end)
                        (closed-Fed _ _ refl (λ has. subst (HasRun _) (sym all) (kept has)), h')
                ]
          ]
        ]
      ]

  -- What the parser holds and sends comes from what it was fed: from a state that goes back to
  -- `heard`, after the rest of `whole` it goes back to `whole`, and each candidate sent on the way
  -- has both its lines in `whole`, byte for byte, the GGA before the RMC.
  pub parser_feed-InOrder :
      (bytes : Bytes) (p : ParserState) (q : Q) (heard : Bytes)
      → ParserInv p
      → Fed heard p
      → whole ≡ heard ++ bytes
      → P q
      → Kept whole (parser_feed candidate_send epoch bytes (p, q))
  unfolding parser_feed
  parser_feed-InOrder [] p q heard v f e h =
      (subst (λ t. Fed t p) (sym (e ∙ append-nil heard)) f, h)
  parser_feed-InOrder (byte ∷ bytes) p q heard v f e h =
      let whole_is = e ∙ sym (append_assoc heard (byte ∷ []) bytes) in
      let (f', h') = byte-Kept p q byte heard bytes v f whole_is h in
      let (v', plain) =
        parser_byte-Kept candidate_send epoch (λ _. Unit) (λ _ _ _ _. tt) p q byte v tt in
      parser_feed-InOrder bytes _ _ (heard ++ byte ∷ []) v' f' whole_is h'
