-- ===== src/Wifi.antt =====
-- The station events of main/wifi_ap.c: the handler that ESP-IDF calls, and the task that logs them.
-- The events that the task has logged are kept, oldest first; a MAC address is a list of bytes.
pub mod Order
mod Tests
use esp32_wifi_gnss.Prelude.{ℕ, Bool, Option, none, some, List, [], ◌∷◌, ◌++◌, Bytes}
use esp32_wifi_gnss.Rtos.{Rtos}

-- WIFI_EVENT_AP_STACONNECTED and WIFI_EVENT_AP_STADISCONNECTED with what the handler reads of their
-- data, or any other event.
pub data WifiEvent : Type 0 where
  ap_staconnected : Bytes → ℕ → WifiEvent
  ap_stadisconnected : Bytes → ℕ → ℕ → WifiEvent
  any_other : WifiEvent

-- `wifi_station_event_type_t`
pub data StationEventType : Type 0 where
  station_connected station_disconnected : StationEventType

-- `wifi_station_event_t`
pub record StationEvent : Type 0 where
  pub event_type : StationEventType
  pub mac : Bytes
  pub aid : ℕ
  pub reason : ℕ

-- `station_event`, where the handler goes on.
abbrev pub station_event : WifiEvent → Option StationEvent
station_event (ap_staconnected mac aid) =
    some (record { event_type = station_connected; mac = mac; aid = aid; reason = 0 })
station_event (ap_stadisconnected mac aid reason) =
    some (record { event_type = station_disconnected; mac = mac; aid = aid; reason = reason })
station_event any_other = none

module _ (rtos : Rtos) where
  open rtos use {Queue, send, receive}

  pub record Wifi : Type 0 where
    pub event_queue : Queue StationEvent
    pub logged : List StationEvent

  abbrev pub wifi_event_send : Option StationEvent → Wifi → Wifi
  wifi_event_send none w = w
  wifi_event_send (some event) w = record w { event_queue = (send w.event_queue event).1 }

  unfoldable pub wifi_event_handler : WifiEvent → Wifi → Wifi
  wifi_event_handler event w = wifi_event_send (station_event event) w

  -- A round of `wifi_stack_task`; it waits while there is no event.
  unfoldable pub wifi_stack_round : Wifi → Wifi
  wifi_stack_round w = elim (receive w.event_queue) [
    | none ↦ w
    | some (event, q) ↦ record w { event_queue = q; logged = w.logged ++ event ∷ [] }
  ]
