-- ===== src/Boot/Tests.antt =====
-- A start in which every call succeeds, but for an NVS partition of another version.
use esp32_wifi_gnss.Prelude.{ℕ, ◌≡◌, refl, true, false, [], ◌==◌, if◌then◌else◌}
use esp32_wifi_gnss.Esp.{EspErr, esp_ok, err_nvs_new_version_found}
use esp32_wifi_gnss.Boot.{Call, goes_on, aborts, app_main}
use esp32_wifi_gnss.Boot.Main.{main_script, main_well, app_main-script}

abbrev all_well : ℕ → Call → EspErr
all_well n c = if n == 2 then err_nvs_new_version_found else esp_ok

app_main-script_example :
    (main_well all_well 2 true ≡ true
      → app_main all_well 2 true [] ≡ (goes_on, main_script all_well 2 true))
    × (main_well all_well 2 true ≡ false → (app_main all_well 2 true []).0 ≡ aborts)
app_main-script_example = app_main-script all_well 2 true

main_well-all_well : main_well all_well 2 true ≡ true
main_well-all_well = refl
