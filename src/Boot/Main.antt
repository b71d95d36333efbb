-- ===== src/Boot/Main.antt =====
-- The whole of `app_main`, from power-on.
use esp32_wifi_gnss.Prelude.{
  ℕ, ◌≡◌, ap, ◌∙◌, Bool, true, false, ◌&&◌, List, [], ◌∷◌, ◌++◌, length, append_assoc,
  if◌then◌else◌, inl, inr, Bool-cases,
}
use esp32_wifi_gnss.Esp.{EspErr, is_ok}
use esp32_wifi_gnss.Boot.{
  Call, create, esp, Exit, goes_on, aborts, ◌then◌, check, check_function, all_succeed,
  log_stream_stack_init, nvs_wants_erase, init_nvs, start_stacks, app_main,
}
use esp32_wifi_gnss.Boot.Script.{
  Aborts, Runs, check-Follows, create_all-Follows, check_function-Follows, then-Follows, then-Runs,
}
use esp32_wifi_gnss.Boot.Start.{start_stacks-script}
use esp32_wifi_gnss.Boot.Scripts.{start_script}

abbrev log_objects : List Call
log_objects = create "s_log_request_queue" ∷ create "s_log_worker_ready" ∷ []

module _ (answers : ℕ → Call → EspErr) where
  -- What the first nvs_flash_init, behind `calls`, returns.
  abbrev nvs_answer : List Call → EspErr
  nvs_answer calls = answers (length calls) (esp "nvs_flash_init")

  -- The partition is erased and opened again where it has to be.
  abbrev nvs_script : List Call → List Call
  nvs_script calls =
      if nvs_wants_erase answers (nvs_answer calls)
      then esp "nvs_flash_init" ∷ esp "nvs_flash_erase" ∷ esp "nvs_flash_init" ∷ []
      else esp "nvs_flash_init" ∷ []

  abbrev nvs_well : List Call → Bool
  nvs_well calls =
      if nvs_wants_erase answers (nvs_answer calls)
      then all_succeed answers (calls ++ esp "nvs_flash_init" ∷ [])
          (esp "nvs_flash_erase" ∷ esp "nvs_flash_init" ∷ [])
      else is_ok (nvs_answer calls)

  nvs-Runs : Runs answers Aborts nvs_well nvs_script (init_nvs answers)
  unfolding init_nvs
  nvs-Runs calls = elim (Bool-cases (nvs_wants_erase answers (nvs_answer calls))) [
    | inl erases ↦
        let first = calls ++ esp "nvs_flash_init" ∷ [] in
        let (ok, bad) =
          then-Follows answers Aborts (λ e. cc) (esp "nvs_flash_erase" ∷ [])
            (esp "nvs_flash_init" ∷ []) (check answers (esp "nvs_flash_erase"))
            (check answers (esp "nvs_flash_init")) (check-Follows answers _)
            (check-Follows answers _) first in
        rw erases (λ h. ok h ∙ ap (λ l. (goes_on, l)) (append_assoc calls _ _), λ h. bad h)
    | inr keeps ↦
        let ends : Bool → Exit × List Call =
          λ ok. (if ok then goes_on else aborts, calls ++ esp "nvs_flash_init" ∷ []) in
        rw keeps (λ h. ap ends h, λ h. ap (λ ok. (ends ok).0) h)
  ]

  -- What `app_main` calls from power-on, where all goes well.
  abbrev pub main_script : ℕ → Bool → List Call
  main_script clients pending =
      log_objects ++ (nvs_script log_objects ++ start_script clients pending)

  -- All of these calls succeed, but for a first nvs_flash_init that asks for the erasure.
  abbrev pub main_well : ℕ → Bool → Bool
  main_well clients pending =
      all_succeed answers [] log_objects
      && (nvs_well log_objects
          && all_succeed answers (log_objects ++ nvs_script log_objects)
              (start_script clients pending))

  -- From power-on, whatever the system answers: if all the calls of `main_script` succeed, `app_main`
  -- reaches its end and has made exactly those calls in that order; and if any of them fails, the
  -- firmware aborts. The one exception is the first nvs_flash_init: where it returns
  -- ESP_ERR_NVS_NO_FREE_PAGES or ESP_ERR_NVS_NEW_VERSION_FOUND the partition is erased and opened once
  -- more, and only then both of these calls count. In the list the log's queue comes first, every
  -- queue, semaphore and timer stands before the tasks that use it, and the tasks of all parts but the
  -- indicator stand behind the start of the SoftAP and the server.
  pub app_main-script :
      (clients : ℕ) (pending : Bool)
      → (main_well clients pending ≡ true
          → app_main answers clients pending [] ≡ (goes_on, main_script clients pending))
        × (main_well clients pending ≡ false → (app_main answers clients pending []).0 ≡ aborts)
  unfolding app_main log_stream_stack_init
  app_main-script clients pending =
      then-Runs answers Aborts (λ e. cc) (λ c. all_succeed answers c log_objects) _
        (λ _. log_objects) _ (check_function answers (log_stream_stack_init answers)) _
        (check_function-Follows answers log_objects (log_stream_stack_init answers)
          (create_all-Follows answers log_objects))
        (then-Runs answers Aborts (λ e. cc) nvs_well
          (λ c. all_succeed answers c (start_script clients pending)) nvs_script
          (λ _. start_script clients pending) (init_nvs answers)
          (start_stacks answers clients pending) nvs-Runs
          (start_stacks-script answers clients pending))
        []
