-- ===== src/Led/Wake.antt =====
-- How the task of main/generic_task.c is woken: a caller changes the counters in one critical section
-- and notifies the task in a later one; other callers and the task come in between.
use esp32_wifi_gnss.Prelude.{ℕ, ◌+◌, ◌-◌, ◌<◌, ◌≡◌, ◌⊎◌, Bool, true, false, if◌then◌else◌}
use esp32_wifi_gnss.Led.{
  Led, led_client_connected, led_client_disconnected, led_packet_consumed, startup_blinks,
  led_round,
}

-- The task shows the start, or is in its loop.
pub data TaskPhase : Type 0 where
  blinking in_loop : TaskPhase

-- `has_handle`: `s_led_task_handle` is not NULL. `notified` is the task's notification value, and
-- `callers` counts those that have changed the counters and have not called
-- `generic_led_wake_task` yet.
pub record LedSystem : Type 0 where
  pub led : Led
  pub has_handle : Bool
  pub notified : ℕ
  pub callers : ℕ
  pub phase : TaskPhase

unfoldable pub led_wake_task : LedSystem → LedSystem
led_wake_task s = if s.has_handle then record s { notified = s.notified + 1 } else s

-- The critical section of one of the three functions that report to the indicator.
abbrev pub report : Led → LedSystem → LedSystem
report led s = record s { led = led; callers = s.callers + 1 }

-- GENERIC_LED_STARTUP_BLINK_COUNT
abbrev startup_blink_count : ℕ
startup_blink_count = 5

unfoldable pub task_start : LedSystem → LedSystem
task_start s = record s { led = startup_blinks startup_blink_count s.led; phase = in_loop }

-- `ulTaskNotifyTake(pdTRUE, portMAX_DELAY)` clears the notification value; then comes the round.
unfoldable pub task_round : LedSystem → LedSystem
task_round s = record s { notified = 0; led = led_round s.led }

pub data WakeStep (s : LedSystem) : LedSystem → Type 0 where
  connects : WakeStep s (report (led_client_connected s.led) s)
  disconnects : WakeStep s (report (led_client_disconnected s.led) s)
  consumes : WakeStep s (report (led_packet_consumed s.led) s)
  wakes : 0 < s.callers → WakeStep s (led_wake_task (record s { callers = s.callers - 1 }))
  starts : s.phase ≡ blinking → WakeStep s (task_start s)
  runs : s.phase ≡ in_loop → 0 < s.notified → WakeStep s (task_round s)

pub data WakeReach (start : LedSystem) : LedSystem → Type 0 where
  at_start : WakeReach start start
  then_step : {s t : LedSystem} → WakeReach start s → WakeStep s t → WakeReach start t

-- The task has been created, and no one has reported anything.
pub record IsCreated (s : LedSystem) : Type 0 where
  pub handle : s.has_handle ≡ true
  pub no_toggle : s.led.pending_packet_toggles ≡ 0
  pub dark : s.led.led_on ≡ false

-- No toggle is pending, and without a client the LED is off.
pub record Settled (l : Led) : Type 0 where
  pub none_pending : l.pending_packet_toggles ≡ 0
  pub idle : (0 < l.connected_client_count) ⊎ (l.led_on ≡ false)

-- A change that has not been shown has a notification or a caller that will give one.
record WakeInv (s : LedSystem) : Type 0 where
  pub handle : s.has_handle ≡ true
  pub heard : Settled s.led ⊎ (0 < s.notified + s.callers)
