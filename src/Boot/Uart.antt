-- ===== src/Boot/Uart.antt =====
-- The calls of `gnss_init_task` of main/gnss.c.
use esp32_wifi_gnss.Prelude.{ℕ, zero, suc, ◌≡◌, true, false, List, [], ◌∷◌, ◌++◌}
use esp32_wifi_gnss.Esp.{EspErr, err_no_mem}
use esp32_wifi_gnss.Boot.{
  gnss_uart, Call, esp, task_create, goes_on, aborts, Boot, ◌then◌, check, all_succeed, setup_uart2,
  uart2_baud_calls, scan_calls, gnss_init_task,
}
use esp32_wifi_gnss.Boot.Script.{
  Aborts, Follows, check-Follows, or_leave-Follows, nothing-Follows, check_function-Follows,
  then-Follows,
}

abbrev rates_script : ℕ → List Call
rates_script zero = []
rates_script (suc rates) =
    (esp "uart_set_baudrate" ∷ esp "uart_flush_input" ∷ []) ++ rates_script rates

abbrev uart_script : ℕ → List Call
uart_script rates =
    (esp "uart_driver_install"
      ∷ esp "uart_param_config"
      ∷ esp "uart_set_pin"
      ∷ esp "uart_flush_input"
      ∷ [])
    ++ (rates_script rates ++ (task_create gnss_uart ∷ []))

module _ (answers : ℕ → Call → EspErr) where
  abbrev A : List Call → Boot → Type 0
  A l m = Follows answers Aborts l m

  next : {l k : List Call} {m n : Boot} → A l m → A k n → A (l ++ k) (◌then◌ answers m n)
  next {l} {k} {m} {n} f g = then-Follows answers Aborts (λ e. cc) l k m n f g

  must : (c : Call) → A (c ∷ []) (check answers c)
  must c = check-Follows answers c

  setup-Follows :
      A
        (esp "uart_driver_install"
          ∷ esp "uart_param_config"
          ∷ esp "uart_set_pin"
          ∷ esp "uart_flush_input"
          ∷ [])
        (setup_uart2 answers)
  unfolding setup_uart2
  setup-Follows = next (must _) (next (must _) (next (must _) (must _)))

  rates-Follows : (rates : ℕ) → A (rates_script rates) (scan_calls answers rates)
  unfolding scan_calls uart2_baud_calls
  rates-Follows zero = nothing-Follows answers Aborts
  rates-Follows (suc rates) = next (next (must _) (must _)) (rates-Follows rates)

  -- The initialisation of the receiver, with `rates` rates tried: if all its calls succeed it makes
  -- the driver's set-up, the changes of the rate and at last the reader's task, in this order; if one
  -- of them fails, the firmware aborts and no reader starts.
  gnss_init_task-script :
      (rates : ℕ) (calls : List Call)
      → (all_succeed answers calls (uart_script rates) ≡ true
          → gnss_init_task answers rates calls ≡ (goes_on, calls ++ uart_script rates))
        × (all_succeed answers calls (uart_script rates) ≡ false
            → (gnss_init_task answers rates calls).0 ≡ aborts)
  unfolding gnss_init_task
  gnss_init_task-script rates = next setup-Follows (
      next (rates-Follows rates) (
        check_function-Follows answers (task_create gnss_uart ∷ []) _
          (or_leave-Follows answers err_no_mem (task_create gnss_uart))))
