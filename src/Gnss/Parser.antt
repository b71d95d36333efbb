-- ===== src/Gnss/Parser.antt =====
-- `nmea_parser_feed`: sentences are assembled byte by byte, a GGA is kept, and the RMC that follows
-- makes it a candidate. What `gnss_candidate_send` acts on is a parameter, with that function.
pub mod Steps
pub mod Invariant
pub mod Bounds
pub mod Heard
pub mod Origin
pub mod Reading
pub mod Pairing
use esp32_wifi_gnss.Prelude.{
  ℕ, ◌+◌, Bool, true, false, not, ◌||◌, Option, none, some, ℤ, List, [], ◌∷◌, Bytes, set, ltb, leb,
  ◌==◌, if◌then◌else◌,
}
use esp32_wifi_gnss.Nmea.{max_sentence_len, prefix_len, checksum_ok, parse_hdop_milli, type_is}
use esp32_wifi_gnss.Gnss.{ParserState, Candidate, u16, zero_bytes, copy_bytes}

-- A sentence with an HDOP is a GGA: it becomes the pending one.
abbrev pub keep_gga : ParserState → ℤ → ParserState
keep_gga state hdop_milli = record state {
  pending_gga = copy_bytes state.pending_gga 0 state.sentence state.sentence_len;
  pending_gga_len = state.sentence_len;
  pending_gga_hdop_milli = hdop_milli;
  has_pending_gga = true;
}

-- `candidate` of `nmea_parser_complete_sentence`: the initialiser zeroes both arrays.
abbrev pub candidate_of : ParserState → ℕ → Candidate
candidate_of state input_epoch = record {
  gga_len = state.pending_gga_len;
  gga = copy_bytes (zero_bytes max_sentence_len) 0 state.pending_gga state.pending_gga_len;
  rmc_len = state.sentence_len;
  rmc = copy_bytes (zero_bytes max_sentence_len) 0 state.sentence state.sentence_len;
  hdop_milli = state.pending_gga_hdop_milli;
  input_epoch = input_epoch;
}

-- The sentence is no RMC, or no GGA waits for it.
pub is_unpaired : ParserState → Bool
is_unpaired state =
    ltb state.sentence_len prefix_len
    || (not (type_is state.sentence b'R' b'M' b'C') || not state.has_pending_gga)

abbrev pub reset_sentence : ParserState → ParserState
reset_sentence state = record state { in_sentence = false; sentence_len = 0 }

-- `$` restarts the assembly.
abbrev pub start_sentence : ParserState → ℕ → ParserState
start_sentence state byte = record state {
  sentence = set state.sentence 0 byte;
  sentence_len = 1;
  in_sentence = true;
}

-- `state->sentence[state->sentence_len++] = byte;`
abbrev pub append_byte : ParserState → ℕ → ParserState
append_byte state byte = record state {
  sentence = set state.sentence state.sentence_len byte;
  sentence_len = u16 (state.sentence_len + 1);
}

-- `s_input_epoch` is an argument: the parser runs under the mutex that guards it.
module _ {Q : Type 0} (candidate_send : Q → Candidate → Q) (input_epoch : ℕ) where
  -- What follows the test for a GGA.
  unfoldable pub complete_rmc : ParserState → Q → ParserState × Q
  complete_rmc state q = if is_unpaired state then (state, q) else (
    record state { has_pending_gga = false; pending_gga_len = 0 },
    candidate_send q (candidate_of state input_epoch),
  )

  unfoldable pub complete_sentence : ParserState → Q → ParserState × Q
  complete_sentence state q =
      if not (checksum_ok state.sentence state.sentence_len)
      then (state, q)
      else elim (parse_hdop_milli state.sentence state.sentence_len) [
        | some hdop_milli ↦ (keep_gga state hdop_milli, q)
        | none ↦ complete_rmc state q
      ]

  -- One round of the loop of `nmea_parser_feed`.
  unfoldable pub parser_byte : ParserState × Q → ℕ → ParserState × Q
  parser_byte (state, q) byte =
      if byte == b'$'
      then (start_sentence state byte, q)
      else if not state.in_sentence
      then (state, q)
      else if leb max_sentence_len state.sentence_len
      then (reset_sentence state, q)
      else if byte == b'\n'
      then (let (state', q') = complete_sentence (append_byte state byte) q in
          (reset_sentence state', q'))
      else (append_byte state byte, q)

  unfoldable pub parser_feed : Bytes → ParserState × Q → ParserState × Q
  parser_feed [] s = s
  parser_feed (byte ∷ bytes) s = parser_feed bytes (parser_byte s byte)
