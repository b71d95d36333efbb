-- ===== src/Gnss/Scan/Lock.antt =====
-- What the lock of the baud rate in main/gnss.c rests on.
use esp32_wifi_gnss.Prelude.{
  ℕ, ◌+◌, ◌<◌, ◌≡◌, refl, sym, ap, subst, true, false, [], ◌∷◌, ◌++◌, Bytes, List, length,
  if◌then◌else◌, on_test₂, arith,
}
use esp32_wifi_gnss.Nmea.{max_sentence_len}
use esp32_wifi_gnss.Gnss.Probe.{probe_reset, probe_feed}
use esp32_wifi_gnss.Gnss.Probe.Genuine.{HasValidLine, Heard, reset-Heard, probe_feed-Heard}
use esp32_wifi_gnss.Gnss.Scan.{
  BaudScan, Round, scan_rate, uart2_baud_set, uart2_baud_scan_service, dwell_over, scan_round,
  scan_start, uart2_baud_scan_rate_count,
}

module _ (pd_ms_to_ticks : ℕ → ℕ) where
  abbrev pub scan_run : List Round → BaudScan → BaudScan
  scan_run [] s = s
  scan_run (r ∷ rounds) s = scan_run rounds (scan_round pd_ms_to_ticks r s)

  -- The bytes that the probe has been fed at the current rate; a locked scan hears nothing more.
  abbrev pub heard_round : Round → BaudScan → Bytes → Bytes
  heard_round r s heard =
      if s.locked
      then heard
      else if (probe_feed r.chunk s.probe).0
      then heard ++ r.chunk
      else if dwell_over pd_ms_to_ticks r.now s
      then []
      else heard ++ r.chunk

  abbrev pub heard_run : List Round → BaudScan → Bytes → Bytes
  heard_run [] s heard = heard
  heard_run (r ∷ rounds) s heard =
      heard_run rounds (scan_round pd_ms_to_ticks r s) (heard_round r s heard)

  pub record ScanOk (heard : Bytes) (s : BaudScan) : Type 0 where
    pub bound : s.index < uart2_baud_scan_rate_count
    pub rate : s.uart_rate ≡ (scan_rate s.index).baud_rate
    pub proof : s.locked ≡ true → HasValidLine heard
    pub search : s.locked ≡ false → Heard heard s.probe

  set-ScanOk :
      (index now : ℕ) (s : BaudScan)
      → s.locked ≡ false
      → length s.probe.sentence ≡ max_sentence_len
      → ScanOk [] (uart2_baud_set index now s)
  unfolding uart2_baud_set
  set-ScanOk index now s e size = record {
    bound = omega arith;
    rate = refl;
    proof = λ l. absurd cc;
    search = λ l. reset-Heard [] s.probe size;
  }

  served : Round → BaudScan → BaudScan
  served r t =
      if dwell_over pd_ms_to_ticks r.now t then uart2_baud_set (t.index + 1) r.later t else t

  service-unlocked :
      (r : Round) (t : BaudScan)
      → t.locked ≡ false
      → uart2_baud_scan_service pd_ms_to_ticks r.now r.later t ≡ served r t
  unfolding uart2_baud_scan_service served
  service-unlocked r t e = ap (λ b. if b then t else served r t) e

  round-ScanOk :
      (r : Round) (heard : Bytes) (s : BaudScan)
      → ScanOk heard s
      → ScanOk (heard_round r s heard) (scan_round pd_ms_to_ticks r s)
  unfolding scan_round served
  round-ScanOk r heard s v =
      on_test₂ ScanOk s.locked _ _ _ _ (λ l. v)
        (λ unlocked.
          let k = probe_feed-Heard r.chunk heard s.probe (v.search unlocked) in
          on_test₂ ScanOk (probe_feed r.chunk s.probe).0 _ _ _ _
            (λ found. record {
              bound = v.bound;
              rate = v.rate;
              proof = λ l. k.0 found;
              search = λ l. absurd cc;
            })
            (λ none_yet.
              let t : BaudScan = record s { probe = (probe_feed r.chunk s.probe).1 } in
              subst (ScanOk (if dwell_over pd_ms_to_ticks r.now s then [] else heard ++ r.chunk))
                (sym (service-unlocked r t unlocked))
                (on_test₂ ScanOk (dwell_over pd_ms_to_ticks r.now s) _ _ _ _
                  (λ over. set-ScanOk (s.index + 1) r.later t unlocked (k.1 none_yet).size)
                  (λ goes_on. record {
                    bound = v.bound;
                    rate = v.rate;
                    proof = λ l. absurd cc;
                    search = λ l. k.1 none_yet;
                  }))))

  run-ScanOk :
      (rounds : List Round) (heard : Bytes) (s : BaudScan)
      → ScanOk heard s
      → ScanOk (heard_run rounds s heard) (scan_run rounds s)
  run-ScanOk [] heard s v = v
  run-ScanOk (r ∷ rounds) heard s v = run-ScanOk rounds _ _ (round-ScanOk r heard s v)

  start-ScanOk :
      (now : ℕ) (s : BaudScan)
      → length s.probe.sentence ≡ max_sentence_len
      → ScanOk [] (scan_start now s)
  unfolding scan_start
  start-ScanOk now s size =
      set-ScanOk 0 now (record s { locked = false; probe = probe_reset s.probe }) refl size

  -- Whatever the UART delivers and whenever the ticks are read: the scan stays within the table of
  -- rates, the driver has the rate that the index stands for, and if the scan has locked, the bytes
  -- that were read at that rate contain a line of one of the six types with a valid checksum.
  pub lock_is_genuine :
      (now : ℕ) (s : BaudScan) (rounds : List Round)
      → length s.probe.sentence ≡ max_sentence_len
      → let t = scan_run rounds (scan_start now s) in
        (t.index < uart2_baud_scan_rate_count)
        × (t.uart_rate ≡ (scan_rate t.index).baud_rate)
        × (t.locked ≡ true → HasValidLine (heard_run rounds (scan_start now s) []))
  lock_is_genuine now s rounds size =
      let v = run-ScanOk rounds [] (scan_start now s) (start-ScanOk now s size) in
      (v.bound, v.rate, v.proof)
