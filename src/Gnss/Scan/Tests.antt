-- ===== src/Gnss/Scan/Tests.antt =====
-- Concrete rounds of the scan.
use esp32_wifi_gnss.Prelude.{
  ℕ, zero, suc, ◌+◌, ◌-◌, ◌/◌, ◌^◌, ◌<◌, ◌≤◌, ◌≡◌, ◌≢◌, refl, Bool, true, false, List, [], ◌∷◌,
  ◌++◌, Bytes, codes, every-All, not, ◌&&◌, ◌==◌, arith,
}
use esp32_wifi_gnss.Nmea.{
  checksum_ok, stripped_checksum_ok, strip_eol, memchr, checksum_matches, xor_range,
  hex_digit_to_value, sentence_looks_valid,
}
use esp32_wifi_gnss.Gnss.{ProbeState, zero_bytes}
use esp32_wifi_gnss.Gnss.Parser.Reading.{IsBody, line_of}
use esp32_wifi_gnss.Gnss.Probe.{probe_feed}
use esp32_wifi_gnss.Gnss.Probe.Reading.{Valid}
use esp32_wifi_gnss.Gnss.Probe.Genuine.{HasValidLine, Heard, probe_feed-Heard}
use esp32_wifi_gnss.Rtos.Simple.{simple}
use esp32_wifi_gnss.Gnss.Samples.{start}
use esp32_wifi_gnss.Gnss.Pipeline.{feed_parser}
use esp32_wifi_gnss.Gnss.Scan.{
  BaudScan, Round, scan_start, scan_round, scan_rate, uart2_baud_scan_rate_count,
}
use esp32_wifi_gnss.Gnss.Scan.Lock.{scan_run, heard_run, lock_is_genuine}
use esp32_wifi_gnss.Gnss.Scan.Reader.{uart_rounds, read_from_lock, reader_takes_over}
use esp32_wifi_gnss.Gnss.Scan.Rates.{line_locks, every_rate_is_tried, patient}

abbrev gga : Bytes
gga = codes "GPGGA,*7A" ++ b'\r' ∷ []

abbrev plain : ℕ → Bool
plain x = not (x == b'$') && not (x == b'\n')

plain_sound : (x : ℕ) → plain x ≡ true → (x ≢ b'$') × (x ≢ b'\n')
plain_sound x h = (ground arith, ground arith)

gga-IsBody : IsBody gga
gga-IsBody = every-All (λ x. (x ≢ b'$') × (x ≢ b'\n')) plain plain_sound gga refl

gga-Valid : Valid (line_of gga)
unfolding sentence_looks_valid checksum_ok stripped_checksum_ok strip_eol memchr checksum_matches
    xor_range hex_digit_to_value
gga-Valid = (refl, refl)

abbrev silent_probe : ProbeState
silent_probe = record { in_sentence = false; sentence_len = 0; sentence = zero_bytes 128 }

silent_probe-Heard : Heard [] silent_probe
silent_probe-Heard = record { size = refl; line = λ h. absurd cc }

probe_feed-Heard_example :
    ((probe_feed (line_of gga) silent_probe).0 ≡ true → HasValidLine ([] ++ line_of gga))
    × ((probe_feed (line_of gga) silent_probe).0 ≡ false
        → Heard ([] ++ line_of gga) (probe_feed (line_of gga) silent_probe).1)
    × ((more : Bytes)
        → (probe_feed (line_of gga) silent_probe).0 ≡ false
        → probe_feed more (probe_feed (line_of gga) silent_probe).1
          ≡ probe_feed (line_of gga ++ more) silent_probe)
probe_feed-Heard_example = probe_feed-Heard (line_of gga) [] silent_probe silent_probe-Heard

abbrev before_start : BaudScan
before_start = record {
  locked = false;
  index = 0;
  started_at = 0;
  probe = silent_probe;
  uart_rate = 4800;
}

-- A hundred ticks a second.
abbrev pd_ms_to_ticks : ℕ → ℕ
pd_ms_to_ticks ms = ms / 10

abbrev two_rounds : List Round
two_rounds =
    record { chunk = b'?' ∷ []; now = 2 ^ 32 - 100; later = 2 ^ 32 - 100 }
    ∷ record { chunk = line_of gga; now = 2; later = 2 }
    ∷ []

lock_is_genuine_example :
    let t = scan_run pd_ms_to_ticks two_rounds (scan_start 7 before_start) in
    (t.index < uart2_baud_scan_rate_count)
    × (t.uart_rate ≡ (scan_rate t.index).baud_rate)
    × (t.locked ≡ true
        → HasValidLine (heard_run pd_ms_to_ticks two_rounds (scan_start 7 before_start) []))
lock_is_genuine_example = lock_is_genuine pd_ms_to_ticks 7 before_start two_rounds refl

line_locks_example :
    let t =
      scan_round pd_ms_to_ticks
        (record { chunk = (b'$' ∷ b'x' ∷ []) ++ (line_of gga ++ b'$' ∷ []); now = 3; later = 3 })
        before_start in
    (t.locked ≡ true) × (t.index ≡ 0)
line_locks_example =
    line_locks pd_ms_to_ticks before_start (b'$' ∷ b'x' ∷ []) gga (b'$' ∷ []) 3 3 refl refl
      gga-IsBody (omega arith) gga-Valid

-- Each round comes seven ticks late.
abbrev late : ℕ → ℕ × ℕ
late i = (7, 2)

small : (index : ℕ) → pd_ms_to_ticks (scan_rate index).dwell_ms + 7 < 2 ^ 32
small zero = omega arith
small (suc zero) = omega arith
small (suc (suc zero)) = omega arith
small (suc (suc (suc zero))) = omega arith
small (suc (suc (suc (suc zero)))) = omega arith
small (suc (suc (suc (suc (suc zero))))) = omega arith
small (suc (suc (suc (suc (suc (suc index)))))) = omega arith

every_rate_is_tried_example :
    (rounds : ℕ) × (rounds ≤ 5)
    × ((patient pd_ms_to_ticks rounds late before_start).index ≡ 4)
    × ((patient pd_ms_to_ticks rounds late before_start).locked ≡ false)
every_rate_is_tried_example =
    every_rate_is_tried pd_ms_to_ticks before_start 4 late (λ i. small) refl (omega arith)
      (omega arith) (omega arith)

-- The lock, and a line behind it.
abbrev three_rounds : List Round
three_rounds = two_rounds ++ record { chunk = line_of gga; now = 3; later = 3 } ∷ []

reader_takes_over_example :
    (uart_rounds pd_ms_to_ticks simple three_rounds (scan_start 7 before_start, start)).1
    ≡ feed_parser simple
        (read_from_lock pd_ms_to_ticks three_rounds (scan_start 7 before_start))
        start
reader_takes_over_example =
    reader_takes_over pd_ms_to_ticks simple three_rounds (scan_start 7 before_start) start refl
