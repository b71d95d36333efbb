-- ===== src/Esp.antt =====
-- The constants of `esp_err_t` that the firmware returns or tests for; `other` is any further error
-- that a call of ESP-IDF may return.
use esp32_wifi_gnss.Prelude.{ℕ, ◌≡◌, refl, Bool, true, false}

pub data EspErr : Type 0 where
  esp_ok : EspErr
  esp_fail : EspErr
  err_no_mem : EspErr
  err_invalid_arg : EspErr
  err_invalid_state : EspErr
  err_not_finished : EspErr
  err_nvs_no_free_pages : EspErr
  err_nvs_new_version_found : EspErr
  other : ℕ → EspErr

-- `err == ESP_OK`
abbrev pub is_ok : EspErr → Bool
is_ok esp_ok = true
is_ok _ = false

pub is_ok→esp_ok : (err : EspErr) → is_ok err ≡ true → err ≡ esp_ok
is_ok→esp_ok esp_ok h = refl
is_ok→esp_ok err h = absurd cc
