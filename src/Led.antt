-- ===== src/Led.antt =====
-- The indicator of main/generic_task.c: the counters that the HTTP workers change, and the rounds of
-- the task. The levels given to the pin are kept, oldest first; delays are left out.
pub mod Toggles
pub mod Wake
mod Tests
use esp32_wifi_gnss.Prelude.{
  ℕ, zero, suc, ◌+◌, ◌-◌, ◌%◌, ◌^◌, Bool, true, false, not, ◌&&◌, List, [], ◌∷◌, ◌++◌, ltb, ◌==◌,
  if◌then◌else◌,
}

-- `s_connected_client_count`, `s_pending_packet_toggles`, and `led_on` of the task.
pub record Led : Type 0 where
  pub connected_client_count : ℕ  -- uint32_t
  pub pending_packet_toggles : ℕ  -- uint32_t
  pub led_on : Bool
  pub levels : List Bool

-- UINT32_MAX
abbrev pub uint32_max : ℕ
uint32_max = 2 ^ 32 - 1

unfoldable pub led_client_connected : Led → Led
led_client_connected s = record s {
  connected_client_count = (s.connected_client_count + 1) % 2 ^ 32;
}

unfoldable pub led_client_disconnected : Led → Led
led_client_disconnected s =
    if ltb 0 s.connected_client_count
    then record s { connected_client_count = s.connected_client_count - 1 }
    else s

unfoldable pub led_packet_consumed : Led → Led
led_packet_consumed s =
    if ltb 0 s.connected_client_count && ltb s.pending_packet_toggles uint32_max
    then record s { pending_packet_toggles = s.pending_packet_toggles + 1 }
    else s

abbrev pub gpio_set_level : Bool → Led → Led
gpio_set_level level s = record s { led_on = level; levels = s.levels ++ level ∷ [] }

-- The five blinks before the loop of `generic_task`.
unfoldable pub startup_blinks : ℕ → Led → Led
startup_blinks zero s = s
startup_blinks (suc blink) s =
    startup_blinks blink (record s { levels = s.levels ++ true ∷ false ∷ [] })

-- The loop over `packet_toggles`.
unfoldable pub led_toggle : ℕ → Led → Led
led_toggle zero s = s
led_toggle (suc toggle) s = led_toggle toggle (gpio_set_level (not s.led_on) s)

-- A round of `generic_task` after a notification.
unfoldable pub led_round : Led → Led
unfolding led_toggle
led_round s =
    let packet_toggles = s.pending_packet_toggles in
    let s' = record s { pending_packet_toggles = 0 } in
    if s.connected_client_count == 0 then gpio_set_level false s' else led_toggle packet_toggles s'

-- What happens to the indicator, in any order.
pub data LedEvent : Type 0 where
  connects disconnects consumes wakes : LedEvent

unfoldable pub led_event : LedEvent → Led → Led
unfolding led_client_connected led_client_disconnected led_packet_consumed led_round
led_event connects s = led_client_connected s
led_event disconnects s = led_client_disconnected s
led_event consumes s = led_packet_consumed s
led_event wakes s = led_round s

unfoldable pub led_run : List LedEvent → Led → Led
unfolding led_event
led_run [] s = s
led_run (e ∷ events) s = led_run events (led_event e s)
