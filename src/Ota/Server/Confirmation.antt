-- ===== src/Ota/Server/Confirmation.antt =====
-- The confirmation of a newly booted image in main/ota_update.c, over all that its handlers, the
-- timer and the worker do.
use esp32_wifi_gnss.Prelude.{
  ◌≡◌, ◌⊎◌, inl, inr, refl, ◌∙◌, true, false, not, [], Bool-cases, either, on_test, arith,
}
use esp32_wifi_gnss.Rtos.{Rtos}
use esp32_wifi_gnss.Esp.{EspErr, is_ok}
use esp32_wifi_gnss.Ota.Board.{Board}
use esp32_wifi_gnss.Ota.Flash.{AsyncRequest}
use esp32_wifi_gnss.Ota.Server.{
  OtaServer, confirmation_timeout_callback, restart_schedule, flash_post_handler,
  status_get_handler, restart_callback, confirm_post_handler, rollback_post_handler, worker_signal,
  worker_take,
}
use esp32_wifi_gnss.Ota.Host.{Request, waiting, serving, Host}
use esp32_wifi_gnss.Ota.Server.Admission.{
  ServerStep, post_flash, get_status, restart_fires, post_confirm, post_rollback,
  confirmation_times_out, worker_signals, worker_takes, worker_serves, ServerReach, at_start,
  then_step, IsStarted,
}
use esp32_wifi_gnss.Ota.Server.Flag.{
  MarksValid, Same, Keeps, flash_post_handler-Same, restart_schedule-Same, worker_take-Same,
  worker_serve-Same, confirm-cases,
}

module _ (rtos : Rtos) (board : Board) (host : Host board) where
  open rtos use {Queue, items, receive, receive-items, take_sem}

  abbrev Server : Type 0
  Server = OtaServer rtos board host

  -- The step is a POST /flash/confirm that does this.
  abbrev IsConfirmation : {s t : Server} → ServerStep rtos board host s t → Type 0
  IsConfirmation {s} post_confirm = MarksValid rtos board host s
  IsConfirmation _ = ⊥

  -- Such a step is among those that led here.
  abbrev Confirmed : {start s : Server} → ServerReach rtos board host start s → Type 0
  Confirmed at_start = ⊥
  Confirmed (then_step r step) = IsConfirmation step ⊎ Confirmed r

  -- No upload is queued or being served.
  abbrev NoUpload : Server → Type 0
  NoUpload s = (items s.request_queue ≡ []) × ((req : AsyncRequest) → s.phase ≡ serving req → ⊥)

  step-cases :
      {s t : Server} (step : ServerStep rtos board host s t)
      → IsConfirmation step ⊎ Same rtos board host s t
  unfolding rollback_post_handler confirmation_timeout_callback worker_signal status_get_handler
      restart_callback
  step-cases {s} (post_flash req) = inr (flash_post_handler-Same rtos board host req s)
  step-cases {s} (get_status version) = inr refl
  step-cases {s} restart_fires = inr refl
  step-cases {s} post_confirm = confirm-cases rtos board host s
  step-cases {s} post_rollback = inr (
      either (Keeps rtos board host s) s.restart_scheduled _ _ refl (
        either (Keeps rtos board host s) (not (host.esp_ota_check_rollback_is_possible s.dev)) _ _
          refl
          (either (Keeps rtos board host s) (is_ok (host.esp_ota_mark_app_invalid_rollback s.dev).0)
            _ _ (restart_schedule-Same rtos board host _) refl)))
  step-cases {s} confirmation_times_out =
      inr (either (Same rtos board host s) s.confirmation_pending _ _ refl refl)
  step-cases {s} (worker_signals e) = inr refl
  step-cases {s} (worker_takes e) = inr (worker_take-Same rtos board host s)
  step-cases {s} (worker_serves req e) = inr (worker_serve-Same rtos board host req s)

  -- A step that confirms clears the flag; so none ever sets it.
  confirm-never_sets :
      (s : Server)
      → s.confirmation_pending ≡ false
      → (confirm_post_handler rtos board host s).1.confirmation_pending ≡ false
  unfolding confirm_post_handler
  confirm-never_sets s e =
      on_test (λ (r : EspErr × Server). r.1.confirmation_pending ≡ false)
        (not s.confirmation_pending) _ _ (λ _. e) (λ waits. absurd (ground (arith, waits, e)))

  step-never_sets :
      {s t : Server} (step : ServerStep rtos board host s t)
      → s.confirmation_pending ≡ false
      → t.confirmation_pending ≡ false
  step-never_sets step e = elim (step-cases step) [
    | inr same ↦ same ∙ e
    | inl confirmation ↦ not_both step e confirmation
  ]
    where
      not_both :
          {s t : Server} (step : ServerStep rtos board host s t)
          → s.confirmation_pending ≡ false
          → IsConfirmation step
          → t.confirmation_pending ≡ false
      not_both {s} post_confirm e c = confirm-never_sets s e
      not_both (post_flash req) e c = absurd c
      not_both (get_status version) e c = absurd c
      not_both restart_fires e c = absurd c
      not_both post_rollback e c = absurd c
      not_both confirmation_times_out e c = absurd c
      not_both (worker_signals h) e c = absurd c
      not_both (worker_takes h) e c = absurd c
      not_both (worker_serves req h) e c = absurd c

  starting_is_not : (req : AsyncRequest) → waiting ≡ serving req → ⊥
  starting_is_not req e = cc

  pending_post-NoUpload :
      (req : Request) (s : Server)
      → s.confirmation_pending ≡ true
      → NoUpload s
      → NoUpload (flash_post_handler rtos board host req s).1
  unfolding flash_post_handler
  pending_post-NoUpload req s e n =
      either P s.restart_scheduled _ _ n
        (on_test P s.confirmation_pending _ _ (λ _. n) (λ no. absurd (ground (arith, no, e))))
    where
      P : EspErr × Server → Type 0
      P r = NoUpload r.1

  taken-NoUpload : (s : Server) → NoUpload s → NoUpload (worker_take rtos board host s)
  unfolding worker_take
  taken-NoUpload s n = elim (receive-items s.request_queue) [
    | inl (none_left, e) ↦ rw (e, worker_take) n
    | inr (req, q, listed, e, kept) ↦ absurd (cc (listed, n.0))
  ]

  -- While the flag stays set, no step brings an upload.
  step-NoUpload :
      {s t : Server}
      → ServerStep rtos board host s t
      → s.confirmation_pending ≡ true
      → NoUpload s
      → NoUpload t
  unfolding confirm_post_handler rollback_post_handler restart_schedule
      confirmation_timeout_callback worker_signal status_get_handler restart_callback
  step-NoUpload {s} (post_flash req) e n = pending_post-NoUpload req s e n
  step-NoUpload {s} (get_status version) e n = n
  step-NoUpload {s} restart_fires e n = n
  step-NoUpload {s} post_confirm e n =
      either P (not s.confirmation_pending) _ _ n
        (either P (is_ok (host.esp_ota_mark_app_valid_cancel_rollback s.dev).0) _ _ n n)
    where
      P : EspErr × Server → Type 0
      P r = NoUpload r.1
  step-NoUpload {s} post_rollback e n = either P s.restart_scheduled _ _ n (
      either P (not (host.esp_ota_check_rollback_is_possible s.dev)) _ _ n (
        either P (is_ok (host.esp_ota_mark_app_invalid_rollback s.dev).0) _ _
          (either NoUpload s.restart_scheduled _ _ n n) n))
    where
      P : EspErr × Server → Type 0
      P r = NoUpload r.1
  step-NoUpload {s} confirmation_times_out e n = either NoUpload s.confirmation_pending _ _ n n
  step-NoUpload {s} (worker_signals h) e n = (n.0, λ req. starting_is_not req)
  step-NoUpload {s} (worker_takes h) e n = taken-NoUpload s n
  step-NoUpload {s} (worker_serves req h) e n = absurd (n.1 req h)

  -- The image waits and no upload has come in, or it has been confirmed on the way.
  abbrev pub Life : {start s : Server} → ServerReach rtos board host start s → Type 0
  Life {s} r =
      ((s.confirmation_pending ≡ true) × NoUpload s)
      ⊎ ((s.confirmation_pending ≡ false) × Confirmed r)

  step-Life :
      {start s t : Server} (r : ServerReach rtos board host start s)
      (step : ServerStep rtos board host s t)
      → Life r
      → Life (then_step r step)
  step-Life r step (inr (done, confirmed)) = inr (step-never_sets step done, inr confirmed)
  step-Life {s} {t} r step (inl (waits, none_yet)) = elim (Bool-cases t.confirmation_pending) [
    | inl still ↦ inl (still, step-NoUpload step waits none_yet)
    | inr cleared ↦ elim (step-cases step) [
      | inl confirmation ↦ inr (cleared, inl confirmation)
      | inr same ↦ absurd (cc (same, waits, cleared))
    ]
  ]

  -- A new image that has booted and waits for its confirmation: whatever the handlers, the timers and
  -- the worker do from the start on, in any order, either it still waits, and no upload is queued or
  -- being served; or it does not wait any more, and then among the steps that led there is a POST
  -- /flash/confirm for which `esp_ota_mark_app_valid_cancel_rollback` succeeded.
  pub waits_until_confirmed :
      {start s : Server}
      → IsStarted rtos board host start
      → start.confirmation_pending ≡ true
      → (r : ServerReach rtos board host start s) → Life r
  waits_until_confirmed i waits at_start =
      inl (waits, (i.no_request, λ req e. absurd (cc (i.at_the_head, e))))
  waits_until_confirmed i waits (then_step r step) =
      step-Life r step (waits_until_confirmed i waits r)
