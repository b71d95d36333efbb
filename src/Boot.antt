-- ===== src/Boot.antt =====
-- The start of the firmware: the initialisation functions of main/*.c and `app_main`, as the calls of
-- FreeRTOS and ESP-IDF that they make. `answers n c` is the result of call `c` as the n-th one, where
-- a handle that is not NULL and pdPASS count as ESP_OK. A failed ESP_ERROR_CHECK aborts. Calls whose
-- result is not tested (esp_log_set_vprintf, the queries of the running image) are left out.
pub mod Script
pub mod Scripts
pub mod Start
pub mod Main
pub mod Uart
mod Tests
use Prim.Native.String.{String}
use esp32_wifi_gnss.Prelude.{
  ℕ, zero, suc, ◌+◌, ◌≡◌, Bool, true, false, not, ◌&&◌, List, [], ◌∷◌, ◌++◌, length, if◌then◌else◌,
}
use esp32_wifi_gnss.Esp.{
  EspErr, esp_ok, esp_fail, err_no_mem, err_nvs_no_free_pages, err_nvs_new_version_found, is_ok,
}

-- The tasks, as the code names them.
pub data Task : Type 0 where
  generic ota_update wifi_stack gnss_filter gnss_init http_write http_stack log_worker gnss_uart :
      Task
  http_worker : ℕ → Task

-- xQueueCreate, xSemaphoreCreate..., xQueueCreateSet and xTimerCreate of a static handle; xQueueAddToSet
-- and xTimerStart of one; xTaskCreatePinnedToCore; and a call of ESP-IDF by its name.
pub data Call : Type 0 where
  create add_to_set timer_start esp : String → Call
  task_create : Task → Call

-- How a function ends: it goes on to ESP_OK, returns another code, or has aborted.
pub data Exit : Type 0 where
  goes_on : Exit
  leaves : EspErr → Exit
  aborts : Exit

abbrev pub Boot : Type 0
Boot = List Call → Exit × List Call

module _ (answers : ℕ → Call → EspErr) where
  abbrev pub succeeds : List Call → Call → Bool
  succeeds calls c = is_ok (answers (length calls) c)

  infixr 5 ◌then◌
  -- The next statement, unless the function has left.
  abbrev pub ◌then◌ : Boot → Boot → Boot
  ◌then◌ m k calls =
      let (exit, calls') = m calls in
      elim exit [
        | goes_on ↦ k calls'
        | leaves err ↦ (leaves err, calls')
        | aborts ↦ (aborts, calls')
      ]

  -- `if (call fails) return err;`
  abbrev pub or_leave : EspErr → Call → Boot
  or_leave err c calls = (if succeeds calls c then goes_on else leaves err, calls ++ c ∷ [])

  -- `ESP_ERROR_CHECK(call);`
  abbrev pub check : Call → Boot
  check c calls = (if succeeds calls c then goes_on else aborts, calls ++ c ∷ [])

  -- `ESP_ERROR_CHECK(function());`
  abbrev pub check_function : Boot → Boot
  check_function m calls =
      let (exit, calls') = m calls in
      elim exit [
        | goes_on ↦ (goes_on, calls')
        | leaves err ↦ (aborts, calls')
        | aborts ↦ (aborts, calls')
      ]

  -- All the handles are created before the one test for NULL.
  abbrev pub all_succeed : List Call → List Call → Bool
  all_succeed calls [] = true
  all_succeed calls (c ∷ l) = succeeds calls c && all_succeed (calls ++ c ∷ []) l

  abbrev pub create_all : List Call → Boot
  create_all l calls = (if all_succeed calls l then goes_on else leaves err_no_mem, calls ++ l)

  unfoldable pub log_stream_stack_init : Boot
  log_stream_stack_init =
      create_all (create "s_log_request_queue" ∷ create "s_log_worker_ready" ∷ [])

  -- Only the two version errors erase the partition; any error behind that aborts.
  abbrev pub nvs_wants_erase : EspErr → Bool
  nvs_wants_erase err_nvs_no_free_pages = true
  nvs_wants_erase err_nvs_new_version_found = true
  nvs_wants_erase _ = false

  unfoldable pub init_nvs : Boot
  init_nvs calls =
      let err = answers (length calls) (esp "nvs_flash_init") in
      let calls' = calls ++ esp "nvs_flash_init" ∷ [] in
      if nvs_wants_erase err
      then (check (esp "nvs_flash_erase") then check (esp "nvs_flash_init")) calls'
      else (if is_ok err then goes_on else aborts, calls')

  unfoldable pub generic_stack_init : Boot
  generic_stack_init =
      check (esp "gpio_reset_pin")
      then check (esp "gpio_set_direction")
      then check (esp "gpio_set_level")

  unfoldable pub generic_stack_start_task : Boot
  generic_stack_start_task = or_leave err_no_mem (task_create generic)

  unfoldable pub set_softap_ip : Boot
  set_softap_ip =
      check (esp "esp_netif_dhcps_stop")
      then check (esp "esp_netif_set_ip_info")
      then check (esp "esp_netif_dhcps_start")

  unfoldable pub wifi_ap_stack_init : Boot
  unfolding set_softap_ip
  wifi_ap_stack_init =
      or_leave err_no_mem (create "s_wifi_event_queue")
      then check (esp "esp_netif_init")
      then check (esp "esp_event_loop_create_default")
      then or_leave err_no_mem (esp "esp_netif_create_default_wifi_ap")
      then set_softap_ip
      then check (esp "esp_wifi_init")
      then check (esp "esp_event_handler_instance_register")
      then check (esp "esp_wifi_set_mode")
      then check (esp "esp_wifi_set_config")
      then check (esp "esp_wifi_start")

  unfoldable pub gnss_stack_init : Boot
  gnss_stack_init =
      create_all (
        create "s_candidate_queue"
        ∷ create "s_timer_event_queue"
        ∷ create "s_filter_control_queue"
        ∷ create "s_publication_queue"
        ∷ create "s_filter_queue_set"
        ∷ create "s_parser_mutex"
        ∷ create "s_override_flush_done"
        ∷ [])
      then or_leave esp_fail (add_to_set "s_candidate_queue")
      then or_leave esp_fail (add_to_set "s_timer_event_queue")
      then or_leave esp_fail (add_to_set "s_filter_control_queue")
      then or_leave err_no_mem (create "s_selection_timer")

  -- `pending` where the running image still has to be verified.
  unfoldable pub ota_update_stack_init : Bool → Boot
  ota_update_stack_init pending =
      create_all (
        create "s_ota_request_queue"
        ∷ create "s_ota_worker_ready"
        ∷ create "s_restart_timer"
        ∷ create "s_confirmation_timer"
        ∷ [])
      then or_leave esp_fail (esp "psa_crypto_init")
      then (if pending then or_leave esp_fail (timer_start "s_confirmation_timer") else λ calls.
          (goes_on, calls))

  unfoldable pub ota_update_register_http_handlers : Boot
  ota_update_register_http_handlers =
      check (esp "httpd_register_uri_handler POST /flash")
      then check (esp "httpd_register_uri_handler GET /flash/status")
      then check (esp "httpd_register_uri_handler POST /flash/confirm")
      then check (esp "httpd_register_uri_handler POST /flash/rollback")

  unfoldable pub http_stream_stack_init : Boot
  unfolding ota_update_register_http_handlers
  http_stream_stack_init =
      create_all (
        create "s_http_request_queue"
        ∷ create "s_http_write_request_queue"
        ∷ create "s_http_worker_ready"
        ∷ create "s_http_write_worker_ready"
        ∷ create "s_latest_mutex"
        ∷ [])
      then check (esp "httpd_start")
      then check (esp "httpd_register_uri_handler GET /stream")
      then check (esp "httpd_register_uri_handler GET /view")
      then check (esp "httpd_register_uri_handler POST /write")
      then check_function ota_update_register_http_handlers
      then check (esp "httpd_register_uri_handler GET /log")

  unfoldable pub ota_update_start_task : Boot
  ota_update_start_task = or_leave err_no_mem (task_create ota_update)

  unfoldable pub wifi_ap_start_task : Boot
  wifi_ap_start_task = or_leave err_no_mem (task_create wifi_stack)

  unfoldable pub setup_uart2 : Boot
  setup_uart2 =
      check (esp "uart_driver_install")
      then check (esp "uart_param_config")
      then check (esp "uart_set_pin")
      then check (esp "uart_flush_input")

  -- `uart2_baud_set`, for the driver.
  unfoldable pub uart2_baud_calls : Boot
  uart2_baud_calls = check (esp "uart_set_baudrate") then check (esp "uart_flush_input")

  -- The calls of `gnss_init_task` where its scan tries `rates` rates until it locks; `Gnss/Scan` has
  -- the scan itself.
  unfoldable pub scan_calls : ℕ → Boot
  unfolding uart2_baud_calls
  scan_calls zero = λ calls. (goes_on, calls)
  scan_calls (suc rates) = uart2_baud_calls then scan_calls rates

  unfoldable pub gnss_init_task : ℕ → Boot
  unfolding setup_uart2 scan_calls
  gnss_init_task rates =
      setup_uart2
      then scan_calls rates
      then check_function (or_leave err_no_mem (task_create gnss_uart))

  unfoldable pub gnss_stack_start_tasks : Boot
  gnss_stack_start_tasks =
      or_leave err_no_mem (task_create gnss_filter)
      then or_leave esp_fail (timer_start "s_selection_timer")
      then or_leave err_no_mem (task_create gnss_init)

  -- The loop over the `clients` workers, from `index` on.
  unfoldable pub http_worker_tasks : ℕ → ℕ → Boot
  http_worker_tasks zero index = λ calls. (goes_on, calls)
  http_worker_tasks (suc clients) index =
      or_leave err_no_mem (task_create (http_worker index))
      then http_worker_tasks clients (suc index)

  unfoldable pub http_stream_start_tasks : ℕ → Boot
  unfolding http_worker_tasks
  http_stream_start_tasks clients =
      http_worker_tasks clients 0
      then or_leave err_no_mem (task_create http_write)
      then or_leave err_no_mem (task_create http_stack)

  unfoldable pub log_stream_start_task : Boot
  log_stream_start_task = or_leave err_no_mem (task_create log_worker)

  -- What `app_main` does behind `init_nvs`.
  unfoldable pub start_stacks : ℕ → Bool → Boot
  unfolding generic_stack_init generic_stack_start_task wifi_ap_stack_init gnss_stack_init
      ota_update_stack_init http_stream_stack_init ota_update_start_task wifi_ap_start_task
      gnss_stack_start_tasks http_stream_start_tasks log_stream_start_task
  start_stacks clients pending =
      check_function generic_stack_init
      then check_function generic_stack_start_task
      then check_function wifi_ap_stack_init
      then check_function gnss_stack_init
      then check_function (ota_update_stack_init pending)
      then check_function http_stream_stack_init
      then check_function ota_update_start_task
      then check_function wifi_ap_start_task
      then check_function gnss_stack_start_tasks
      then check_function (http_stream_start_tasks clients)
      then check_function log_stream_start_task

  unfoldable pub app_main : ℕ → Bool → Boot
  unfolding log_stream_stack_init init_nvs start_stacks
  app_main clients pending =
      check_function log_stream_stack_init then init_nvs then start_stacks clients pending
