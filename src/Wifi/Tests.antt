-- ===== src/Wifi/Tests.antt =====
-- Three events for a queue of two.
use mathlib.Core.List.{Sublistᴰ}
use esp32_wifi_gnss.Prelude.{◌≤◌, ◌≡◌, refl, List, [], ◌∷◌, length}
use esp32_wifi_gnss.Rtos.Simple.{simple}
use esp32_wifi_gnss.Wifi.{Wifi, ap_staconnected, ap_stadisconnected, any_other}
use esp32_wifi_gnss.Wifi.Order.{
  WifiAction, raises, task_runs, raised, wifi_run, kept, stations_in_order,
}

abbrev no_stations : Wifi simple
no_stations = record { event_queue = record { held = []; room = 2 }; logged = [] }

abbrev actions : List WifiAction
actions =
    raises (ap_staconnected (1 ∷ []) 1)
    ∷ raises any_other
    ∷ task_runs
    ∷ raises (ap_stadisconnected (1 ∷ []) 1 8)
    ∷ raises (ap_staconnected (2 ∷ []) 1)
    ∷ []

stations_in_order_example :
    Sublistᴰ (kept simple (wifi_run simple actions no_stations)) (raised actions)
    × (length (raised actions) ≤ 2
        → kept simple (wifi_run simple actions no_stations) ≡ raised actions)
stations_in_order_example = stations_in_order simple 2 actions no_stations refl refl refl
