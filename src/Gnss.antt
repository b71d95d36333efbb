-- ===== src/Gnss.antt =====
-- The data of main/gnss.c and main/gnss.h.
pub mod Copy
pub mod Parser
pub mod Filter
pub mod Pipeline
pub mod Probe
pub mod Scan
pub mod Samples
mod Tests
use esp32_wifi_gnss.Prelude.{
  ℕ, ◌+◌, ◌%◌, ◌^◌, Bool, false, Bytes, ◌++◌, take, drop, replicate, ℤ, pos,
}
use esp32_wifi_gnss.Nmea.{max_sentence_len}

-- `nmea_probe_state_t`
pub record ProbeState : Type 0 where
  pub in_sentence : Bool
  pub sentence_len : ℕ  -- uint16_t
  pub sentence : Bytes

-- `nmea_parser_state_t`
pub record ParserState : Type 0 where
  pub in_sentence : Bool
  pub sentence_len : ℕ  -- uint16_t
  pub sentence : Bytes
  pub has_pending_gga : Bool
  pub pending_gga_len : ℕ  -- uint16_t
  pub pending_gga : Bytes
  pub pending_gga_hdop_milli : ℤ  -- int

-- `gnss_candidate_t`
pub record Candidate : Type 0 where
  pub gga_len : ℕ
  pub gga : Bytes
  pub rmc_len : ℕ
  pub rmc : Bytes
  pub hdop_milli : ℤ
  pub input_epoch : ℕ  -- uint32_t

-- `gnss_publication_t`; its `data` is `body`.
pub record Publication : Type 0 where
  pub sequence : ℕ  -- uint32_t
  pub len : ℕ  -- uint16_t
  pub hdop_milli : ℤ
  pub body : Bytes

-- `gnss_filter_control_type_t` has one constant.
pub data FilterControlType : Type 0 where
  flush_override : FilterControlType

-- `gnss_filter_control_t`
pub record FilterControl : Type 0 where
  pub control_type : FilterControlType
  pub input_epoch : ℕ

abbrev pub u16 : ℕ → ℕ
u16 n = n % 2 ^ 16

abbrev pub u32 : ℕ → ℕ
u32 n = n % 2 ^ 32

abbrev pub zero_bytes : ℕ → Bytes
zero_bytes n = replicate n 0

-- `memset(&s_parser_state, 0, sizeof(s_parser_state))`
abbrev pub cleared_parser : ParserState
cleared_parser = record {
  in_sentence = false;
  sentence_len = 0;
  sentence = zero_bytes max_sentence_len;
  has_pending_gga = false;
  pending_gga_len = 0;
  pending_gga = zero_bytes max_sentence_len;
  pending_gga_hdop_milli = pos 0;
}

-- `memcpy(dst + offset, src, n)`
unfoldable pub copy_bytes : Bytes → ℕ → Bytes → ℕ → Bytes
copy_bytes dst offset src n = take offset dst ++ (take n src ++ drop (offset + n) dst)
