-- ===== src/Gnss/Scan/Rates.antt =====
-- The order in which main/gnss.c tries the baud rates, and the lines that end the search.
use esp32_wifi_gnss.Prelude.{
  ℕ, zero, suc, ◌+◌, ◌-◌, ◌%◌, ◌^◌, ◌<◌, ◌≤◌, ◌≡◌, refl, sym, ap, ◌∙◌, Bool, true, false, not, [],
  ◌∷◌, ◌++◌, Bytes, length, length-set, set, leb, ◌==◌, if◌then◌else◌, inl, inr, Bool-cases, either,
  on_test, arith,
}
use esp32_wifi_gnss.Nmea.{max_sentence_len}
use esp32_wifi_gnss.Gnss.{ProbeState, u32}
use esp32_wifi_gnss.Gnss.Parser.Reading.{IsBody, line_of}
use esp32_wifi_gnss.Gnss.Probe.{probe_byte, probe_feed}
use esp32_wifi_gnss.Gnss.Probe.Reading.{Valid, probe_feed-line}
use esp32_wifi_gnss.Gnss.Scan.{
  BaudScan, scan_rate, uart2_baud_set, uart2_baud_scan_service, dwell_over, scan_round,
  uart2_baud_scan_rate_count,
}

byte-size :
    (s : ProbeState) (b : ℕ)
    → length s.sentence ≡ max_sentence_len
    → length (probe_byte s b).1.sentence ≡ max_sentence_len
unfolding probe_byte
byte-size s b size =
    either P (b == b'$') _ _ (length-set s.sentence 0 b (omega (arith, size)) ∙ size) (
      either P (not s.in_sentence) _ _ size (
        on_test P (leb max_sentence_len s.sentence_len) _ _ (λ full. size)
          (λ room. either P (b == b'\n') _ _ (written room) (written room))))
  where
    P : Bool × ProbeState → Type 0
    P r = length r.1.sentence ≡ max_sentence_len

    written :
        leb max_sentence_len s.sentence_len ≡ false
        → length (set s.sentence s.sentence_len b) ≡ max_sentence_len
    written room = length-set s.sentence s.sentence_len b (ground (arith, room, size)) ∙ size

-- A line that is found is found in spite of what comes before and behind it.
found_later :
    (before rest : Bytes) (s : ProbeState)
    → length s.sentence ≡ max_sentence_len
    → ((t : ProbeState) → length t.sentence ≡ max_sentence_len → (probe_feed rest t).0 ≡ true)
    → (probe_feed (before ++ rest) s).0 ≡ true
unfolding probe_feed
found_later [] rest s size h = h s size
found_later (b ∷ before) rest s size h =
    either (λ (r : Bool × ProbeState). r.0 ≡ true) (probe_byte s b).0 _ _ refl
      (found_later before rest (probe_byte s b).1 (byte-size s b size) h)

found_before :
    (line after : Bytes) (s : ProbeState)
    → (probe_feed line s).0 ≡ true
    → (probe_feed (line ++ after) s).0 ≡ true
unfolding probe_feed
found_before [] after s h = absurd cc
found_before (b ∷ line) after s h = elim (Bool-cases (probe_byte s b).0) [
  | inl found ↦ rw found refl
  | inr not_yet ↦ rw not_yet (found_before line after (probe_byte s b).1 (rest not_yet h))
]
  where
    rest :
        (probe_byte s b).0 ≡ false
        → (probe_feed (b ∷ line) s).0 ≡ true
        → (probe_feed line (probe_byte s b).1).0 ≡ true
    rest e k =
        ap
          (λ (c : Bool).
            (if c then (true, (probe_byte s b).1) else probe_feed line (probe_byte s b).1).0)
          (sym e)
        ∙ k

module _ (pd_ms_to_ticks : ℕ → ℕ) where
  -- While the scan searches, a round whose chunk contains a complete valid line of at most 128 bytes
  -- locks the current rate, whatever the probe has assembled before and whatever stands around the
  -- line in the chunk.
  pub line_locks :
      (s : BaudScan) (before body after : Bytes) (now later : ℕ)
      → s.locked ≡ false
      → length s.probe.sentence ≡ max_sentence_len
      → IsBody body
      → length (line_of body) ≤ max_sentence_len
      → Valid (line_of body)
      → let t =
          scan_round pd_ms_to_ticks
            (record { chunk = before ++ (line_of body ++ after); now = now; later = later })
            s in
        (t.locked ≡ true) × (t.index ≡ s.index)
  unfolding scan_round
  line_locks s before body after now later searching size h l v =
      let found =
        found_later before (line_of body ++ after) s.probe size
          (λ t k. found_before (line_of body) after t (probe_feed-line t body k h l v)) in
      on_test Locked s.locked _ _ (λ locked. absurd cc)
        (λ unlocked.
          on_test Locked (probe_feed (before ++ (line_of body ++ after)) s.probe).0 _ _
            (λ yes_found. (refl, refl)) (λ not_found. absurd cc))
    where
      Locked : BaudScan → Type 0
      Locked t = (t.locked ≡ true) × (t.index ≡ s.index)

  -- A silent round that comes `extra` ticks after the dwell time of the current rate is over, and
  -- reads the counter again, for the next rate, `lag` ticks later.
  abbrev pub patient_round : ℕ × ℕ → BaudScan → BaudScan
  patient_round (extra, lag) s =
      let now = u32 (s.started_at + pd_ms_to_ticks (scan_rate s.index).dwell_ms + extra) in
      scan_round pd_ms_to_ticks (record { chunk = []; now = now; later = u32 (now + lag) }) s

  -- The delays of each round.
  abbrev pub patient : ℕ → (ℕ → ℕ × ℕ) → BaudScan → BaudScan
  patient zero delays s = s
  patient (suc rounds) delays s = patient rounds (λ i. delays (suc i)) (patient_round (delays 0) s)

  -- The state between two rounds of the search.
  record Searching (s : BaudScan) : Type 0 where
    unlocked : s.locked ≡ false
    bound : s.index < uart2_baud_scan_rate_count
    ticks : s.started_at < 2 ^ 32

  round-Searching :
      (s : BaudScan) (extra lag : ℕ)
      → pd_ms_to_ticks (scan_rate s.index).dwell_ms + extra < 2 ^ 32
      → Searching s
      → ((patient_round (extra, lag) s).index ≡ (s.index + 1) % uart2_baud_scan_rate_count)
        × Searching (patient_round (extra, lag) s)
  unfolding scan_round uart2_baud_scan_service uart2_baud_set probe_feed
  round-Searching s extra lag small v =
      on_test Moved s.locked _ _ (λ locked. absurd (ground (arith, v.unlocked)))
        (λ unlocked.
          on_test Moved s.locked _ _ (λ locked. absurd (ground (arith, v.unlocked)))
            (λ still.
              on_test Moved (dwell_over pd_ms_to_ticks over s) _ _
                (λ done. (
                  refl,
                  record { unlocked = v.unlocked; bound = omega arith; ticks = omega arith },
                ))
                (λ early. absurd (ground (arith, early, small, v.ticks)))))
    where
      over : ℕ
      over = u32 (s.started_at + pd_ms_to_ticks (scan_rate s.index).dwell_ms + extra)

      Moved : BaudScan → Type 0
      Moved t = (t.index ≡ (s.index + 1) % uart2_baud_scan_rate_count) × Searching t

  abbrev NoFullTurn : (ℕ → ℕ × ℕ) → Type 0
  NoFullTurn delays =
      (i index : ℕ) → pd_ms_to_ticks (scan_rate index).dwell_ms + (delays i).0 < 2 ^ 32

  patient-index :
      (rounds : ℕ) (delays : ℕ → ℕ × ℕ) (s : BaudScan)
      → NoFullTurn delays
      → Searching s
      → ((patient rounds delays s).index ≡ (s.index + rounds) % uart2_baud_scan_rate_count)
        × Searching (patient rounds delays s)
  patient-index zero delays s small v = (omega (arith, v.bound), v)
  patient-index (suc rounds) delays s small v =
      let (moved, w) = round-Searching s (delays 0).0 (delays 0).1 (small 0 s.index) v in
      let (e, x) =
        patient-index rounds (λ i. delays (suc i)) (patient_round (delays 0) s) (λ i. small (suc i))
          w in
      (omega (arith, e, moved), x)

  -- A silent antenna does not stop the scan, and neither does the wrap of the tick counter: whatever
  -- rate of the table is the right one, after at most five silent rounds that come when the dwell time
  -- is over, each by any delay with which it stays below 2 ^ 32 ticks, it is the current rate, and the
  -- scan still searches.
  pub every_rate_is_tried :
      (s : BaudScan) (index : ℕ) (delays : ℕ → ℕ × ℕ)
      → ((i rate : ℕ) → pd_ms_to_ticks (scan_rate rate).dwell_ms + (delays i).0 < 2 ^ 32)
      → s.locked ≡ false
      → s.index < uart2_baud_scan_rate_count
      → s.started_at < 2 ^ 32
      → index < uart2_baud_scan_rate_count
      → (rounds : ℕ) × (rounds ≤ 5)
        × ((patient rounds delays s).index ≡ index)
        × ((patient rounds delays s).locked ≡ false)
  every_rate_is_tried s index delays small unlocked bound ticks wanted =
      let rounds = (index + 6 - s.index) % 6 in
      let (e, v) =
        patient-index rounds delays s small
          (record { unlocked = unlocked; bound = bound; ticks = ticks }) in
      (rounds, omega arith, omega (arith, e), v.unlocked)
