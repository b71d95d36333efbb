-- ===== src/Gnss/Samples.antt =====
-- Two NMEA lines, candidates and the pipeline at the start, for concrete runs.
use esp32_wifi_gnss.Prelude.{ℕ, refl, false, Bytes, [], ◌∷◌, ◌++◌, pos, codes}
use esp32_wifi_gnss.Rtos.Simple.{simple}
use esp32_wifi_gnss.Gnss.{Candidate, cleared_parser, zero_bytes}
use esp32_wifi_gnss.Gnss.Filter.{FilterState}
use esp32_wifi_gnss.Gnss.Pipeline.{Pipeline}
use esp32_wifi_gnss.Gnss.Pipeline.Steps.{IsInitial}

abbrev pub gga_body : Bytes
gga_body = codes "GPGGA,123519,4807.038,N,01131.000,E,1,08,0.9,545.4,M,46.9,M,,*47" ++ b'\r' ∷ []

abbrev pub rmc_body : Bytes
rmc_body = codes "GPRMC,123519,A,4807.038,N,01131.000,E,022.4,084.4,230394,003.1,W*6A" ++ b'\r' ∷ []

abbrev pub candidate_with : ℕ → ℕ → Candidate
candidate_with hdop epoch = record {
  gga_len = 2;
  gga = b'$' ∷ b'G' ∷ zero_bytes 126;
  rmc_len = 2;
  rmc = b'$' ∷ b'R' ∷ zero_bytes 126;
  hdop_milli = pos hdop;
  input_epoch = epoch;
}

abbrev pub fresh_filter : FilterState
fresh_filter = record {
  best_candidate = candidate_with 0 0;
  has_best_candidate = false;
  next_sequence = 1;
}

abbrev pub start : Pipeline simple
start = record {
  candidate_queue = record { held = []; room = 8 };
  timer_event_queue = record { held = []; room = 1 };
  filter_control_queue = record { held = []; room = 1 };
  publication_queue = record { held = []; room = 1 };
  filter_queue_set = [];
  override_flush_done = record { available = 0; top = 1 };
  parser_state = cleared_parser;
  input_override_active = false;
  input_override_closing = false;
  input_epoch = 1;
  filter = fresh_filter;
}

pub start-IsInitial : IsInitial simple start
start-IsInitial = record {
  no_candidates = refl;
  eight = refl;
  no_publication = refl;
  parser = refl;
  no_best = refl;
  first_sequence = refl;
  first_epoch = refl;
  no_override = refl;
}
