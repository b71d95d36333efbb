-- ===== src/Ota/Host.antt =====
-- What the handlers and the worker of main/ota_update.c have from the server and from ESP-IDF.
use esp32_wifi_gnss.Prelude.{ℕ, Bool, Option, none, some, Bytes, codes, ℤ, ◌^◌, ◌%◌, if◌then◌else◌}
use esp32_wifi_gnss.Esp.{EspErr}
use esp32_wifi_gnss.Ota.Board.{Board, Partition}
use esp32_wifi_gnss.Ota.Flash.{AsyncRequest}

-- `httpd_req_t`: the body's length and the value of the header X-Firmware-SHA256.
pub record Request : Type 0 where
  pub content_len : ℕ
  pub sha256_header : Option Bytes

-- Where the worker is in its loop: before the signal, waiting for a request, or serving one.
pub data Phase : Type 0 where
  starting : Phase
  waiting : Phase
  serving : AsyncRequest → Phase

-- The further calls of ESP-IDF, on the same board.
pub record Host (board : Board) : Type 0 where
  pub esp_ota_get_running_partition : board.Dev → Option Partition
  pub esp_ota_get_boot_partition : board.Dev → Option Partition
  pub esp_ota_get_next_update_partition : board.Dev → Option Partition
  pub esp_ota_check_rollback_is_possible : board.Dev → Bool
  pub esp_ota_mark_app_valid_cancel_rollback : board.Dev → EspErr × board.Dev
  pub esp_ota_mark_app_invalid_rollback : board.Dev → EspErr × board.Dev
  pub httpd_req_async_handler_begin : board.Dev → EspErr × board.Dev
  pub httpd_req_async_handler_complete : board.Dev → EspErr × board.Dev
  pub httpd_req_to_sockfd : board.Dev → ℤ
  pub httpd_sess_trigger_close : ℤ → board.Dev → board.Dev
  pub restart_timer_start : board.Dev → Bool × board.Dev
  pub confirmation_timer_stop : board.Dev → board.Dev
  pub esp_restart : board.Dev → board.Dev

abbrev pub label_of : Option Partition → Bytes
label_of none = codes "<none>"
label_of (some partition) = partition.label

abbrev pub answer_of : Bool → Bytes
answer_of pending = if pending then codes "yes" else codes "no"

-- `next != NULL ? (unsigned int)next->size : 0`
abbrev pub size_of : Option Partition → ℕ
size_of none = 0
size_of (some partition) = partition.size % 2 ^ 32
