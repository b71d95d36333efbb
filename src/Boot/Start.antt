-- ===== src/Boot/Start.antt =====
-- The calls of `app_main` behind `init_nvs`, in their order.
use esp32_wifi_gnss.Prelude.{ℕ, zero, suc, ◌≡◌, refl, Bool, true, false, List, [], ◌∷◌, ◌++◌}
use esp32_wifi_gnss.Esp.{EspErr, err_no_mem, esp_fail}
use esp32_wifi_gnss.Boot.{
  generic, ota_update, wifi_stack, gnss_filter, gnss_init, http_write, http_stack, log_worker,
  http_worker, Call, create, add_to_set, timer_start, esp, task_create, goes_on, aborts, Boot,
  ◌then◌, or_leave, check, check_function, all_succeed, generic_stack_init,
  generic_stack_start_task, set_softap_ip, wifi_ap_stack_init, gnss_stack_init,
  ota_update_stack_init, ota_update_register_http_handlers, http_stream_stack_init,
  ota_update_start_task, wifi_ap_start_task, gnss_stack_start_tasks, http_worker_tasks,
  http_stream_start_tasks, log_stream_start_task, start_stacks,
}
use esp32_wifi_gnss.Boot.Script.{
  Stops, Aborts, Follows, check-Follows, or_leave-Follows, create_all-Follows, nothing-Follows,
  weaker-Follows, check_function-Follows, then-Follows,
}
use esp32_wifi_gnss.Boot.Scripts.{
  wifi_script, gnss_objects, gnss_script, ota_objects, ota_script, http_objects, http_script,
  worker_script, start_script,
}

module _ (answers : ℕ → Call → EspErr) where
  abbrev F : List Call → Boot → Type 0
  F l m = Follows answers Stops l m

  must : (c : Call) → F (c ∷ []) (check answers c)
  must c = weaker-Follows answers (c ∷ []) (check answers c) (check-Follows answers c)

  may : (err : EspErr) (c : Call) → F (c ∷ []) (or_leave answers err c)
  may err c = or_leave-Follows answers err c

  step : {l k : List Call} {m n : Boot} → F l m → F k n → F (l ++ k) (◌then◌ answers m n)
  step {l} {k} {m} {n} f g = then-Follows answers Stops (λ s. s refl) l k m n f g

  generic-Follows :
      F
        (esp "gpio_reset_pin" ∷ esp "gpio_set_direction" ∷ esp "gpio_set_level" ∷ [])
        (generic_stack_init answers)
  unfolding generic_stack_init
  generic-Follows = step (must _) (step (must _) (must _))

  wifi-Follows : F wifi_script (wifi_ap_stack_init answers)
  unfolding wifi_ap_stack_init set_softap_ip
  wifi-Follows = step (may _ _) (
      step (must _) (
        step (must _) (
          step (may _ _) (
            step (step (must _) (step (must _) (must _)))
              (step (must _) (step (must _) (step (must _) (step (must _) (must _)))))))))

  gnss-Follows : F gnss_script (gnss_stack_init answers)
  unfolding gnss_stack_init
  gnss-Follows = step (create_all-Follows answers gnss_objects) (
      step (may esp_fail (add_to_set "s_candidate_queue")) (
        step (may esp_fail (add_to_set "s_timer_event_queue")) (
          step (may esp_fail (add_to_set "s_filter_control_queue"))
            (may err_no_mem (create "s_selection_timer")))))

  ota-Follows : (pending : Bool) → F (ota_script pending) (ota_update_stack_init answers pending)
  unfolding ota_update_stack_init
  ota-Follows true = step (create_all-Follows answers ota_objects) (
      step (may esp_fail (esp "psa_crypto_init"))
        (may esp_fail (timer_start "s_confirmation_timer")))
  ota-Follows false =
      step (create_all-Follows answers ota_objects)
        (step (may esp_fail (esp "psa_crypto_init")) (nothing-Follows answers Stops))

  handlers-Follows :
      F
        (esp "httpd_register_uri_handler POST /flash"
          ∷ esp "httpd_register_uri_handler GET /flash/status"
          ∷ esp "httpd_register_uri_handler POST /flash/confirm"
          ∷ esp "httpd_register_uri_handler POST /flash/rollback"
          ∷ [])
        (ota_update_register_http_handlers answers)
  unfolding ota_update_register_http_handlers
  handlers-Follows = step (must _) (step (must _) (step (must _) (must _)))

  checked : {l : List Call} {m : Boot} → F l m → F l (check_function answers m)
  checked {l} {m} f = weaker-Follows answers l _ (check_function-Follows answers l m f)

  http-Follows : F http_script (http_stream_stack_init answers)
  unfolding http_stream_stack_init
  http-Follows = step (create_all-Follows answers http_objects) (
      step (must _)
        (step (must _) (step (must _) (step (must _) (step (checked handlers-Follows) (must _))))))

  workers-Follows :
      (clients index : ℕ)
      → F (worker_script clients index) (http_worker_tasks answers clients index)
  unfolding http_worker_tasks
  workers-Follows zero index = nothing-Follows answers Stops
  workers-Follows (suc clients) index =
      step (may err_no_mem (task_create (http_worker index))) (workers-Follows clients (suc index))

  streams-Follows :
      (clients : ℕ)
      → F
          (worker_script clients 0 ++ (task_create http_write ∷ task_create http_stack ∷ []))
          (http_stream_start_tasks answers clients)
  unfolding http_stream_start_tasks
  streams-Follows clients =
      step (workers-Follows clients 0)
        (step (may err_no_mem (task_create http_write)) (may err_no_mem (task_create http_stack)))

  gnss_tasks-Follows :
      F
        (task_create gnss_filter ∷ timer_start "s_selection_timer" ∷ task_create gnss_init ∷ [])
        (gnss_stack_start_tasks answers)
  unfolding gnss_stack_start_tasks
  gnss_tasks-Follows = step (may err_no_mem (task_create gnss_filter)) (
      step (may esp_fail (timer_start "s_selection_timer"))
        (may err_no_mem (task_create gnss_init)))

  run :
      {l k : List Call} {m n : Boot}
      → F l m
      → Follows answers Aborts k n
      → Follows answers Aborts (l ++ k) (◌then◌ answers (check_function answers m) n)
  run {l} {k} {m} {n} f g =
      then-Follows answers Aborts (λ e. cc) l k (check_function answers m) n
        (check_function-Follows answers l m f) g

  -- The last statement.
  finish : {l : List Call} {m : Boot} → F l m → Follows answers Aborts l (check_function answers m)
  finish {l} {m} f = check_function-Follows answers l m f

  -- Behind `init_nvs`, whatever the system answers: `app_main` reaches its end exactly if each of the
  -- listed calls succeeds, and has then made those calls, in that order, and no other; and if any of
  -- them fails, the firmware aborts. In the list every queue, semaphore and timer stands before the
  -- tasks, and the tasks of all parts but the indicator behind the start of the SoftAP and the server.
  pub start_stacks-script :
      (clients : ℕ) (pending : Bool) (calls : List Call)
      → (all_succeed answers calls (start_script clients pending) ≡ true
          → start_stacks answers clients pending calls
            ≡ (goes_on, calls ++ start_script clients pending))
        × (all_succeed answers calls (start_script clients pending) ≡ false
            → (start_stacks answers clients pending calls).0 ≡ aborts)
  unfolding start_stacks generic_stack_start_task ota_update_start_task wifi_ap_start_task
      log_stream_start_task
  start_stacks-script clients pending calls =
      run generic-Follows
        (run (may err_no_mem (task_create generic)) (
          run wifi-Follows (
            run gnss-Follows (
              run (ota-Follows pending) (
                run http-Follows (
                  run (may err_no_mem (task_create ota_update)) (
                    run (may err_no_mem (task_create wifi_stack)) (
                      run gnss_tasks-Follows (
                        run (streams-Follows clients)
                          (finish (may err_no_mem (task_create log_worker))))))))))))
        calls
