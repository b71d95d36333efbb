-- ===== src/Gnss/Filter.antt =====
-- The local state of `gnss_filter_task`, `consider_candidate` and `publish_best_candidate`. The
-- source generation that they read under the parser's mutex is an argument; what
-- `xQueueOverwrite` acts on is a parameter, with that function.
pub mod Window
pub mod Publish
use esp32_wifi_gnss.Prelude.{
  ℕ, ◌+◌, Bool, true, false, not, ◌&&◌, ◌||◌, List, [], ◌∷◌, ltb_ℤ, ◌==◌, if◌then◌else◌,
}
use esp32_wifi_gnss.Gnss.{Candidate, Publication, u16, u32, zero_bytes, copy_bytes}

pub record FilterState : Type 0 where
  pub best_candidate : Candidate
  pub has_best_candidate : Bool
  pub next_sequence : ℕ  -- uint32_t

-- GNSS_PUBLICATION_MAX_LEN
abbrev pub publication_max_len : ℕ
publication_max_len = 256

-- `if (*has_best_candidate && best_candidate->input_epoch != input_epoch) ... = false`
abbrev pub still_best : ℕ → FilterState → Bool
still_best input_epoch s =
    if s.has_best_candidate && not (s.best_candidate.input_epoch == input_epoch)
    then false
    else s.has_best_candidate

unfoldable pub consider_candidate : ℕ → FilterState → Candidate → FilterState
consider_candidate input_epoch s candidate =
    if not (candidate.input_epoch == input_epoch)
    then s
    else if not (still_best input_epoch s) || ltb_ℤ candidate.hdop_milli s.best_candidate.hdop_milli
    then record s { best_candidate = candidate; has_best_candidate = true }
    else record s { has_best_candidate = still_best input_epoch s }

-- `publication` of `publish_best_candidate`
abbrev pub publication_of : ℕ → Candidate → Publication
publication_of sequence best = record {
  sequence = sequence;
  len = u16 (best.gga_len + best.rmc_len);
  hdop_milli = best.hdop_milli;
  body =
      copy_bytes (copy_bytes (zero_bytes publication_max_len) 0 best.gga best.gga_len) best.gga_len
        best.rmc best.rmc_len;
}

module _ {Q : Type 0} (publish : Q → Publication → Q) where
  unfoldable pub publish_best_candidate : ℕ → FilterState × Q → FilterState × Q
  publish_best_candidate input_epoch (s, q) =
      if not (still_best input_epoch s) then (record s { has_best_candidate = false }, q) else (
        record s { has_best_candidate = false; next_sequence = u32 (s.next_sequence + 1) },
        publish q (publication_of s.next_sequence s.best_candidate),
      )

-- The candidates that the filter task takes, one after the other, while one source is current.
unfoldable pub consider_all : ℕ → FilterState → List Candidate → FilterState
consider_all input_epoch s [] = s
consider_all input_epoch s (c ∷ cs) =
    consider_all input_epoch (consider_candidate input_epoch s c) cs
