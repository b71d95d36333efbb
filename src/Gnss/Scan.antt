-- ===== src/Gnss/Scan.antt =====
-- The scan of baud rates in `gnss_init_task` of main/gnss.c, and the reader that follows it. The
-- tick counter, the UART's bytes and pdMS_TO_TICKS are arguments; a driver call that fails aborts the
-- firmware.
pub mod Lock
pub mod Rates
pub mod Reader
mod Tests
use esp32_wifi_gnss.Prelude.{
  ℕ, zero, suc, ◌+◌, ◌-◌, ◌^◌, ◌%◌, Bool, true, false, not, List, [], ◌∷◌, Bytes, get_or, length,
  leb, if◌then◌else◌,
}
use esp32_wifi_gnss.Rtos.{Rtos}
use esp32_wifi_gnss.Gnss.{ProbeState, u32}
use esp32_wifi_gnss.Gnss.Probe.{probe_reset, probe_feed}
use esp32_wifi_gnss.Gnss.Pipeline.{Pipeline, uart_input_feed, parser_clear}

-- `baud_scan_rate_t`
pub record BaudRate : Type 0 where
  pub baud_rate : ℕ
  pub dwell_ms : ℕ

abbrev pub uart2_baud_scan_rates : List BaudRate
uart2_baud_scan_rates =
    record { baud_rate = 4800; dwell_ms = 1400 }
    ∷ record { baud_rate = 9600; dwell_ms = 1100 }
    ∷ record { baud_rate = 19200; dwell_ms = 700 }
    ∷ record { baud_rate = 38400; dwell_ms = 400 }
    ∷ record { baud_rate = 57600; dwell_ms = 300 }
    ∷ record { baud_rate = 115200; dwell_ms = 250 }
    ∷ []

abbrev pub uart2_baud_scan_rate_count : ℕ
uart2_baud_scan_rate_count = 6

-- `UART2_BAUD_SCAN_RATES[index]`
abbrev pub scan_rate : ℕ → BaudRate
scan_rate index = get_or uart2_baud_scan_rates index (record { baud_rate = 0; dwell_ms = 0 })

-- `s_baud_scan_state`, `s_probe_state` and the rate that the driver has been given.
pub record BaudScan : Type 0 where
  pub locked : Bool
  pub index : ℕ
  pub started_at : ℕ  -- TickType_t
  pub probe : ProbeState
  pub uart_rate : ℕ

-- `now` is what xTaskGetTickCount returns.
unfoldable pub uart2_baud_set : ℕ → ℕ → BaudScan → BaudScan
uart2_baud_set index now s =
    let index' = index % uart2_baud_scan_rate_count in
    record s {
      index = index';
      started_at = now;
      probe = probe_reset s.probe;
      uart_rate = (scan_rate index').baud_rate;
    }

-- What `gnss_init_task` does before its loop.
unfoldable pub scan_start : ℕ → BaudScan → BaudScan
unfolding uart2_baud_set
scan_start now s = uart2_baud_set 0 now (record s { locked = false; probe = probe_reset s.probe })

-- What `uart_read_bytes` delivers in a round, and the ticks at which the round looks.
pub record Round : Type 0 where
  pub chunk : Bytes
  pub now : ℕ
  pub later : ℕ

module _ (pd_ms_to_ticks : ℕ → ℕ) where
  -- The rate has had its time.
  abbrev pub dwell_over : ℕ → BaudScan → Bool
  dwell_over now s =
      leb (pd_ms_to_ticks (scan_rate s.index).dwell_ms) (u32 (now + 2 ^ 32 - s.started_at))

  unfoldable pub uart2_baud_scan_service : ℕ → ℕ → BaudScan → BaudScan
  unfolding uart2_baud_set
  uart2_baud_scan_service now later s =
      if s.locked then s else if dwell_over now s then uart2_baud_set (s.index + 1) later s else s

  -- A round of the loop of `gnss_init_task`. Nothing read is nothing fed.
  unfoldable pub scan_round : Round → BaudScan → BaudScan
  unfolding uart2_baud_scan_service
  scan_round r s =
      let (found, probe) = probe_feed r.chunk s.probe in
      if s.locked
      then s
      else if found
      then record s { probe = probe; locked = true }
      else uart2_baud_scan_service r.now r.later (record s { probe = probe })

  module _ (rtos : Rtos) where
    -- The same round with the parser, and the rounds of `gnss_uart_task` once the rate is locked.
    unfoldable pub uart_round : Round → BaudScan × Pipeline rtos → BaudScan × Pipeline rtos
    unfolding scan_round
    uart_round r (s, g) =
        let s' = scan_round r s in (s', if s'.locked then uart_input_feed rtos g r.chunk else g)
