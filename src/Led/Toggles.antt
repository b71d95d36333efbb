-- ===== src/Led/Toggles.antt =====
-- The packets consumed and the toggles of main/generic_task.c.
use esp32_wifi_gnss.Prelude.{
  ℕ, zero, suc, ◌+◌, ◌≡◌, refl, Bool, not, List, [], ◌∷◌, length, length-append, arith,
}
use esp32_wifi_gnss.Led.{Led, LedEvent, consumes, wakes, led_toggle, gpio_set_level}

abbrev pub flips : ℕ → Bool → Bool
flips zero b = b
flips (suc n) b = flips n (not b)

pub led_toggle-flips :
    (n : ℕ) (s : Led)
    → ((led_toggle n s).led_on ≡ flips n s.led_on)
      × (length (led_toggle n s).levels ≡ length s.levels + n)
      × ((led_toggle n s).connected_client_count ≡ s.connected_client_count)
      × ((led_toggle n s).pending_packet_toggles ≡ s.pending_packet_toggles)
unfolding led_toggle
led_toggle-flips zero s = (refl, omega arith, refl, refl)
led_toggle-flips (suc n) s =
    let k = led_toggle-flips n (gpio_set_level (not s.led_on) s) in
    (k.0, omega (arith, k.1, length-append s.levels (not s.led_on ∷ [])), k.2, k.3)

-- How many packets were consumed; no client comes or goes.
abbrev pub packets : List LedEvent → ℕ
packets [] = 0
packets (consumes ∷ events) = suc (packets events)
packets (_ ∷ events) = packets events

pub data Steady : List LedEvent → Type 0 where
  none_left : Steady []
  consumes_first : {events : List LedEvent} → Steady events → Steady (consumes ∷ events)
  wakes_first : {events : List LedEvent} → Steady events → Steady (wakes ∷ events)

-- What the task has still to show counts as shown.
pub record Shown (n : ℕ) (s t : Led) : Type 0 where
  pub parity :
      flips t.pending_packet_toggles t.led_on ≡ flips (s.pending_packet_toggles + n) s.led_on
  pub count :
      length t.levels + t.pending_packet_toggles ≡ length s.levels + (s.pending_packet_toggles + n)
  pub clients : t.connected_client_count ≡ s.connected_client_count
