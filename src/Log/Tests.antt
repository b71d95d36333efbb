-- ===== src/Log/Tests.antt =====
-- The theorems on the log's ring at a concrete text.
use mathlib.Core.List.{Sublistᴰ}
use esp32_wifi_gnss.Prelude.{
  List, ◌∷◌, negsuc, ℕ, refl, Bytes, [], ◌++◌, take, replicate, length-replicate, codes, arith,
}
use esp32_wifi_gnss.Esp.{esp_ok}
use esp32_wifi_gnss.Socket.{Peek, eagain}
use esp32_wifi_gnss.Log.{LogRing, log_capture}
use esp32_wifi_gnss.Log.Client.{LogEvent, captures, rounds, log_client_open, log_run}
use esp32_wifi_gnss.Log.Order.{captured, log_client_in_order}
use esp32_wifi_gnss.Log.Ring.{Holds, log_capture-Holds}

-- The static arrays are zero at the start.
abbrev empty_ring : LogRing
empty_ring = record { ring_buffer = replicate 4096 0; write_total = 0 }

empty_ring-Holds : Holds [] empty_ring
empty_ring-Holds = record {
  survivors = record {
    size = length-replicate {A = ℕ} 4096 0;
    kept = λ j lt near. absurd (omega (arith, lt));
  };
  total = refl;
}

abbrev line : Bytes
line = codes "I (312) gnss: UART2 locked\n"

log_capture-Holds_example : Holds ([] ++ take 255 line) (log_capture line empty_ring)
log_capture-Holds_example = log_capture-Holds [] line empty_ring empty_ring-Holds

captured-Holds : Holds line (log_capture line empty_ring)
captured-Holds = log_capture-Holds [] line empty_ring empty_ring-Holds

abbrev quiet : Peek
quiet = record { received = negsuc 0; errno = eagain }

abbrev events : List LogEvent
events = rounds esp_ok quiet ∷ captures line ∷ rounds esp_ok quiet ∷ rounds esp_ok quiet ∷ []

log_client_in_order_example :
    Sublistᴰ
      (log_run events (record {
        ring = log_capture line empty_ring;
        client = log_client_open (log_capture line empty_ring);
      })).client.sent
      (line ++ captured events)
log_client_in_order_example =
    log_client_in_order line (log_capture line empty_ring) events captured-Holds
      (omega arith, (omega arith, (omega arith, tt)))
