-- ===== src/Gnss/Parser/Invariant.antt =====
-- The invariant of the parser of main/gnss.c, and what copies of its arrays keep of it.
use esp32_wifi_gnss.Prelude.{ℕ, ◌≤◌, ◌≡◌, refl, ◌∙◌, true, some, ℤ, Bytes, length, arith}
use esp32_wifi_gnss.Nmea.{max_sentence_len, checksum_ok, parse_hdop_milli, type_is}
use esp32_wifi_gnss.Nmea.Locality.{checksum_ok-local, parse_hdop_milli-local}
use esp32_wifi_gnss.Gnss.{ParserState, Candidate, cleared_parser, copy_bytes}
use esp32_wifi_gnss.Gnss.Copy.{length-copy_bytes, copy_bytes-Agree}

-- A buffered line fits its array.
pub record Fits (array : Bytes) (len : ℕ) : Type 0 where
  pub size : length array ≡ max_sentence_len
  pub within : len ≤ max_sentence_len

-- A GGA line that has passed its checks, with its HDOP.
pub record IsGga (array : Bytes) (len : ℕ) (hdop_milli : ℤ) : Type 0 where
  pub sum : checksum_ok array len ≡ true
  pub hdop : parse_hdop_milli array len ≡ some hdop_milli

pub record ParserInv (p : ParserState) : Type 0 where
  pub buffer : Fits p.sentence p.sentence_len
  pub pending : Fits p.pending_gga p.pending_gga_len
  pub started : p.in_sentence ≡ true → 1 ≤ p.sentence_len
  pub checked :
      p.has_pending_gga ≡ true → IsGga p.pending_gga p.pending_gga_len p.pending_gga_hdop_milli

-- A candidate of source generation `epoch`: a GGA with its HDOP, and an RMC, both with their
-- checksums, in arrays that hold them.
pub record IsGenuine (epoch : ℕ) (c : Candidate) : Type 0 where
  pub gga_fits : Fits c.gga c.gga_len
  pub gga_ok : IsGga c.gga c.gga_len c.hdop_milli
  pub rmc_fits : Fits c.rmc c.rmc_len
  pub rmc_sum : checksum_ok c.rmc c.rmc_len ≡ true
  pub rmc_type : type_is c.rmc b'R' b'M' b'C' ≡ true
  pub epoch_kept : c.input_epoch ≡ epoch

pub cleared-ParserInv : ParserInv cleared_parser
cleared-ParserInv = record {
  buffer = record { size = refl; within = omega arith };
  pending = record { size = refl; within = omega arith };
  started = λ h. cc;
  checked = λ h. cc;
}

pub copy-Fits :
    (dst src : Bytes) (n : ℕ)
    → length dst ≡ max_sentence_len
    → Fits src n
    → Fits (copy_bytes dst 0 src n) n
copy-Fits dst src n d f = record {
  size = omega (arith, length-copy_bytes dst 0 src n (omega arith) (omega arith));
  within = f.within;
}

pub copy-sum :
    (dst src : Bytes) (n : ℕ)
    → Fits src n
    → checksum_ok (copy_bytes dst 0 src n) n ≡ checksum_ok src n
copy-sum dst src n f = checksum_ok-local _ src n (copy_bytes-Agree dst src n (omega arith))

pub copy-hdop :
    (dst src : Bytes) (n : ℕ)
    → Fits src n
    → parse_hdop_milli (copy_bytes dst 0 src n) n ≡ parse_hdop_milli src n
copy-hdop dst src n f = parse_hdop_milli-local _ src n (copy_bytes-Agree dst src n (omega arith))

pub copy-IsGga :
    (dst src : Bytes) (n : ℕ) (h : ℤ)
    → Fits src n
    → IsGga src n h
    → IsGga (copy_bytes dst 0 src n) n h
copy-IsGga dst src n h f g = record {
  sum = copy-sum dst src n f ∙ g.sum;
  hdop = copy-hdop dst src n f ∙ g.hdop;
}

pub copy-type :
    (dst src : Bytes) (n a b c : ℕ)
    → Fits src n
    → 6 ≤ n
    → type_is (copy_bytes dst 0 src n) a b c ≡ type_is src a b c
copy-type dst src n a b c f l = rw (
  copy_bytes-Agree dst src n (omega arith) 3 (omega arith),
  copy_bytes-Agree dst src n (omega arith) 4 (omega arith),
  copy_bytes-Agree dst src n (omega arith) 5 (omega arith),
)
