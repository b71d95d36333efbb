-- ===== src/Gnss/Scan/Reader.antt =====
-- What main/gnss.c makes of UART2's bytes, from the scan of the rates to the steady reader.
use esp32_wifi_gnss.Prelude.{
  ℕ, ◌≡◌, refl, sym, ap, ◌∙◌, true, false, List, [], ◌∷◌, ◌++◌, Bytes, if◌then◌else◌, append-nil,
  inl, inr, Bool-cases, on_test, arith,
}
use esp32_wifi_gnss.Rtos.{Rtos}
use esp32_wifi_gnss.Gnss.Parser.{parser_feed}
use esp32_wifi_gnss.Gnss.Pipeline.{Pipeline, feed_parser, uart_input_feed}
use esp32_wifi_gnss.Gnss.Pipeline.Feed.{feed_parser-append}
use esp32_wifi_gnss.Gnss.Scan.{BaudScan, Round, scan_round, uart_round}

-- What the rounds have read.
abbrev all_read : List Round → Bytes
all_read [] = []
all_read (r ∷ rounds) = r.chunk ++ all_read rounds

module _ (pd_ms_to_ticks : ℕ → ℕ) where
  -- What was read from the chunk on that locks the rate.
  abbrev pub read_from_lock : List Round → BaudScan → Bytes
  read_from_lock [] s = []
  read_from_lock (r ∷ rounds) s =
      let rest = read_from_lock rounds (scan_round pd_ms_to_ticks r s) in
      if (scan_round pd_ms_to_ticks r s).locked then all_read (r ∷ rounds) else rest

  locked-scan_round :
      (r : Round) (s : BaudScan) → s.locked ≡ true → scan_round pd_ms_to_ticks r s ≡ s
  unfolding scan_round
  locked-scan_round r s e =
      on_test (λ t. t ≡ s) s.locked _ _ (λ _. refl) (λ no. absurd (cc (no, e)))

  module _ (rtos : Rtos) where
    abbrev pub uart_rounds : List Round → BaudScan × Pipeline rtos → BaudScan × Pipeline rtos
    uart_rounds [] x = x
    uart_rounds (r ∷ rounds) x = uart_rounds rounds (uart_round pd_ms_to_ticks rtos r x)

    abbrev Fed : List Round → BaudScan → Pipeline rtos → Bytes → Type 0
    Fed rounds s g bytes = (uart_rounds rounds (s, g)).1 ≡ feed_parser rtos bytes g

    no_bytes : (g : Pipeline rtos) → g ≡ feed_parser rtos [] g
    unfolding feed_parser parser_feed
    no_bytes g = refl

    heard :
        (g : Pipeline rtos) (bytes : Bytes)
        → g.input_override_active ≡ false
        → uart_input_feed rtos g bytes ≡ feed_parser rtos bytes g
    unfolding uart_input_feed
    heard g bytes e = ground arith

    read_now :
        (r : Round) (s : BaudScan) (g : Pipeline rtos)
        → g.input_override_active ≡ false
        → (scan_round pd_ms_to_ticks r s).locked ≡ true
        → uart_round pd_ms_to_ticks rtos r (s, g)
          ≡ (scan_round pd_ms_to_ticks r s, feed_parser rtos r.chunk g)
    unfolding uart_round
    read_now r s g idle locked =
        let s' = scan_round pd_ms_to_ticks r s in
        ap (λ b. (s', if b then uart_input_feed rtos g r.chunk else g)) locked
        ∙ ap (λ h. (s', h)) (heard g r.chunk idle)

    not_yet_read :
        (r : Round) (s : BaudScan) (g : Pipeline rtos)
        → (scan_round pd_ms_to_ticks r s).locked ≡ false
        → uart_round pd_ms_to_ticks rtos r (s, g) ≡ (scan_round pd_ms_to_ticks r s, g)
    unfolding uart_round
    not_yet_read r s g scanning =
        let s' = scan_round pd_ms_to_ticks r s in
        ap (λ b. (s', if b then uart_input_feed rtos g r.chunk else g)) scanning

    fed-idle :
        (bytes : Bytes) (g : Pipeline rtos)
        → g.input_override_active ≡ false
        → (feed_parser rtos bytes g).input_override_active ≡ false
    unfolding feed_parser
    fed-idle bytes g idle = idle

    -- A locked round and those behind it.
    locked-Fed :
        (r : Round) (rounds : List Round) (s : BaudScan) (g : Pipeline rtos)
        → g.input_override_active ≡ false
        → (scan_round pd_ms_to_ticks r s).locked ≡ true
        → Fed (r ∷ rounds) s g (all_read (r ∷ rounds))
    locked-Fed r [] s g idle locked =
        ap (λ (x : BaudScan × Pipeline rtos). x.1) (read_now r s g idle locked)
        ∙ ap (λ l. feed_parser rtos l g) (sym (append-nil r.chunk))
    locked-Fed r (q ∷ rounds) s g idle locked =
        let s' = scan_round pd_ms_to_ticks r s in
        let stays = locked-scan_round q s' locked in
        ap (λ x. (uart_rounds (q ∷ rounds) x).1) (read_now r s g idle locked)
        ∙ locked-Fed q rounds s' (feed_parser rtos r.chunk g) (fed-idle r.chunk g idle)
            (ap (λ (t : BaudScan). t.locked) stays ∙ locked)
        ∙ sym (feed_parser-append rtos r.chunk (all_read (q ∷ rounds)) g)

    -- From the first round of the scan to the steady reader, while no upload is active: the parser is
    -- fed exactly the bytes read from the chunk on that locks the rate, that chunk included, in their
    -- order and as if they had come at once; nothing that was read while the rate was sought gets in,
    -- and nothing behind it is lost when the reader's task takes over.
    pub reader_takes_over :
        (rounds : List Round) (s : BaudScan) (g : Pipeline rtos)
        → g.input_override_active ≡ false
        → (uart_rounds rounds (s, g)).1 ≡ feed_parser rtos (read_from_lock rounds s) g
    reader_takes_over [] s g idle = no_bytes g
    reader_takes_over (r ∷ rounds) s g idle =
        elim (Bool-cases (scan_round pd_ms_to_ticks r s).locked) [
          | inl locked ↦
              locked-Fed r rounds s g idle locked
              ∙ ap (λ b. feed_parser rtos (if b then all_read (r ∷ rounds) else rest) g)
                  (sym locked)
          | inr scanning ↦
              ap (λ x. (uart_rounds rounds x).1) (not_yet_read r s g scanning)
              ∙ reader_takes_over rounds (scan_round pd_ms_to_ticks r s) g idle
              ∙ ap (λ b. feed_parser rtos (if b then all_read (r ∷ rounds) else rest) g)
                  (sym scanning)
        ]
      where
        rest : Bytes
        rest = read_from_lock rounds (scan_round pd_ms_to_ticks r s)
