-- ===== src/Boot/Scripts.antt =====
-- The calls of a start, part by part, in their order.
use esp32_wifi_gnss.Prelude.{ℕ, zero, suc, Bool, List, [], ◌∷◌, ◌++◌, if◌then◌else◌}
use esp32_wifi_gnss.Boot.{
  generic, ota_update, wifi_stack, gnss_filter, gnss_init, http_write, http_stack, log_worker,
  http_worker, Call, create, add_to_set, timer_start, esp, task_create, ◌then◌,
}

abbrev pub wifi_script : List Call
wifi_script =
    create "s_wifi_event_queue"
    ∷ esp "esp_netif_init"
    ∷ esp "esp_event_loop_create_default"
    ∷ esp "esp_netif_create_default_wifi_ap"
    ∷ esp "esp_netif_dhcps_stop"
    ∷ esp "esp_netif_set_ip_info"
    ∷ esp "esp_netif_dhcps_start"
    ∷ esp "esp_wifi_init"
    ∷ esp "esp_event_handler_instance_register"
    ∷ esp "esp_wifi_set_mode"
    ∷ esp "esp_wifi_set_config"
    ∷ esp "esp_wifi_start"
    ∷ []

abbrev pub gnss_objects : List Call
gnss_objects =
    create "s_candidate_queue"
    ∷ create "s_timer_event_queue"
    ∷ create "s_filter_control_queue"
    ∷ create "s_publication_queue"
    ∷ create "s_filter_queue_set"
    ∷ create "s_parser_mutex"
    ∷ create "s_override_flush_done"
    ∷ []

abbrev pub gnss_script : List Call
gnss_script =
    gnss_objects
    ++ (add_to_set "s_candidate_queue"
        ∷ add_to_set "s_timer_event_queue"
        ∷ add_to_set "s_filter_control_queue"
        ∷ create "s_selection_timer"
        ∷ [])

abbrev pub ota_objects : List Call
ota_objects =
    create "s_ota_request_queue"
    ∷ create "s_ota_worker_ready"
    ∷ create "s_restart_timer"
    ∷ create "s_confirmation_timer"
    ∷ []

abbrev pub ota_script : Bool → List Call
ota_script pending =
    ota_objects
    ++ (esp "psa_crypto_init" ∷ (if pending then timer_start "s_confirmation_timer" ∷ [] else []))

abbrev pub http_objects : List Call
http_objects =
    create "s_http_request_queue"
    ∷ create "s_http_write_request_queue"
    ∷ create "s_http_worker_ready"
    ∷ create "s_http_write_worker_ready"
    ∷ create "s_latest_mutex"
    ∷ []

abbrev pub http_script : List Call
http_script =
    http_objects
    ++ (esp "httpd_start"
        ∷ esp "httpd_register_uri_handler GET /stream"
        ∷ esp "httpd_register_uri_handler GET /view"
        ∷ esp "httpd_register_uri_handler POST /write"
        ∷ esp "httpd_register_uri_handler POST /flash"
        ∷ esp "httpd_register_uri_handler GET /flash/status"
        ∷ esp "httpd_register_uri_handler POST /flash/confirm"
        ∷ esp "httpd_register_uri_handler POST /flash/rollback"
        ∷ esp "httpd_register_uri_handler GET /log"
        ∷ [])

abbrev pub worker_script : ℕ → ℕ → List Call
worker_script zero index = []
worker_script (suc clients) index =
    task_create (http_worker index) ∷ worker_script clients (suc index)

-- First the objects of all the parts, then their tasks.
abbrev pub start_script : ℕ → Bool → List Call
start_script clients pending =
    (esp "gpio_reset_pin"
      ∷ esp "gpio_set_direction"
      ∷ esp "gpio_set_level"
      ∷ task_create generic
      ∷ [])
    ++ (wifi_script
        ++ (gnss_script
            ++ (ota_script pending
                ++ (http_script
                    ++ ((task_create ota_update
                          ∷ task_create wifi_stack
                          ∷ task_create gnss_filter
                          ∷ timer_start "s_selection_timer"
                          ∷ task_create gnss_init
                          ∷ [])
                        ++ ((worker_script clients 0
                              ++ (task_create http_write ∷ task_create http_stack ∷ []))
                            ++ (task_create log_worker ∷ [])))))))
