-- ===== src/Gnss/Probe.antt =====
-- `nmea_probe_feed` of main/gnss.c: lines are assembled until one is valid.
pub mod Reading
pub mod Genuine
use esp32_wifi_gnss.Prelude.{
  ℕ, ◌+◌, Bool, true, false, not, ◌&&◌, List, [], ◌∷◌, Bytes, set, ltb, leb, ◌==◌, if◌then◌else◌,
}
use esp32_wifi_gnss.Nmea.{max_sentence_len, checksum_ok, sentence_looks_valid}
use esp32_wifi_gnss.Gnss.{ProbeState, u16}

abbrev pub probe_reset : ProbeState → ProbeState
probe_reset state = record state { in_sentence = false; sentence_len = 0 }

abbrev pub probe_start : ProbeState → ℕ → ProbeState
probe_start state byte = record state {
  sentence = set state.sentence 0 byte;
  sentence_len = 1;
  in_sentence = true;
}

-- `state->sentence[state->sentence_len++] = byte;`
abbrev pub probe_append : ProbeState → ℕ → ProbeState
probe_append state byte = record state {
  sentence = set state.sentence state.sentence_len byte;
  sentence_len = u16 (state.sentence_len + 1);
}

-- `valid`
abbrev pub probe_valid : ProbeState → Bool
probe_valid state =
    sentence_looks_valid state.sentence state.sentence_len
    && checksum_ok state.sentence state.sentence_len

-- A round of the loop; `true` is its `return true`.
unfoldable pub probe_byte : ProbeState → ℕ → Bool × ProbeState
probe_byte state byte =
    if byte == b'$'
    then (false, probe_start state byte)
    else if not state.in_sentence
    then (false, state)
    else if leb max_sentence_len state.sentence_len
    then (false, probe_reset state)
    else if byte == b'\n'
    then (probe_valid (probe_append state byte), probe_reset (probe_append state byte))
    else (false, probe_append state byte)

unfoldable pub probe_feed : Bytes → ProbeState → Bool × ProbeState
unfolding probe_byte
probe_feed [] state = (false, state)
probe_feed (byte ∷ bytes) state =
    let (found, state') = probe_byte state byte in
    let rest = probe_feed bytes state' in if found then (true, state') else rest
