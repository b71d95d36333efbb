-- ===== src/Led/Tests.antt =====
-- The theorems on the indicator at a concrete run.
use esp32_wifi_gnss.Prelude.{◌-◌, ◌≡◌, refl, true, false, List, [], ◌∷◌}
use esp32_wifi_gnss.Led.{
  Led, LedEvent, consumes, wakes, connects, disconnects, led_event, led_run, led_round, led_toggle,
  led_client_connected, led_client_disconnected, led_packet_consumed,
}
use esp32_wifi_gnss.Led.Wake.{LedSystem, blinking, led_wake_task, report, task_start, task_round}
use esp32_wifi_gnss.Led.Wake

abbrev one_client : Led
one_client = record {
  connected_client_count = 1;
  pending_packet_toggles = 0;
  led_on = false;
  levels = [];
}

abbrev events : List LedEvent
events = consumes ∷ consumes ∷ wakes ∷ consumes ∷ wakes ∷ []

three_levels : (led_run events one_client).levels ≡ true ∷ false ∷ true ∷ []
unfolding led_run led_event led_round led_toggle led_client_connected led_client_disconnected
    led_packet_consumed
three_levels = refl

-- Without a client the indicator goes off.
gone :
    (led_run
      (connects ∷ consumes ∷ wakes ∷ consumes ∷ disconnects ∷ wakes ∷ [])
      (record one_client { connected_client_count = 0 })).levels
    ≡ true ∷ false ∷ []
unfolding led_run led_event led_round led_toggle led_client_connected led_client_disconnected
    led_packet_consumed
gone = refl

-- A client comes, a packet is sent, and only then both callers notify the task.
abbrev created : LedSystem
created = record {
  led = record one_client { connected_client_count = 0 };
  has_handle = true;
  notified = 0;
  callers = 0;
  phase = blinking;
}

abbrev reported : LedSystem
reported =
    let s = report (led_client_connected created.led) created in
    task_start (report (led_packet_consumed s.led) s)

abbrev woken : LedSystem
woken =
    let s = led_wake_task (record reported { callers = reported.callers - 1 }) in
    task_round (led_wake_task (record s { callers = s.callers - 1 }))
