-- ===== src/Wifi/Order.antt =====
-- What the log of main/wifi_ap.c says of the stations.
use mathlib.Core.List.{Sublistᴰ}
use mathlib.Core.List.Sublistᴰ
use esp32_wifi_gnss.Prelude.{
  ℕ, ◌≤◌, ◌≡◌, refl, sym, ap, ap₂, ◌∙◌, subst, Option, none, some, List, [], ◌∷◌, ◌++◌, append-nil,
  append_assoc, length, length-append, ltb, inl, inr, Bool-cases, arith,
}
use esp32_wifi_gnss.Rtos.{Rtos, items-send_room, items-send_full}
use esp32_wifi_gnss.Wifi.{
  WifiEvent, ap_staconnected, ap_stadisconnected, any_other, StationEvent, station_connected,
  station_disconnected, station_event, Wifi, wifi_event_send, wifi_event_handler, wifi_stack_round,
}

-- What happens: ESP-IDF raises an event, or the task makes a round.
pub data WifiAction : Type 0 where
  raises : WifiEvent → WifiAction
  task_runs : WifiAction

abbrev listed : Option StationEvent → List StationEvent
listed none = []
listed (some event) = event ∷ []

-- What is to be logged of the events that are raised: each station that joins, and each that leaves
-- with the reason; of other events nothing.
abbrev pub raised : List WifiAction → List StationEvent
raised [] = []
raised (raises (ap_staconnected mac aid) ∷ actions) =
    record { event_type = station_connected; mac = mac; aid = aid; reason = 0 } ∷ raised actions
raised (raises (ap_stadisconnected mac aid reason) ∷ actions) =
    record { event_type = station_disconnected; mac = mac; aid = aid; reason = reason }
    ∷ raised actions
raised (raises any_other ∷ actions) = raised actions
raised (task_runs ∷ actions) = raised actions

raised-raises :
    (event : WifiEvent) (actions : List WifiAction)
    → listed (station_event event) ++ raised actions ≡ raised (raises event ∷ actions)
raised-raises (ap_staconnected mac aid) actions = refl
raised-raises (ap_stadisconnected mac aid reason) actions = refl
raised-raises any_other actions = refl

module _ (rtos : Rtos) where
  open rtos use {Queue, items, capacity, send, receive, receive-items, capacity-send}

  abbrev pub wifi_action : WifiAction → Wifi rtos → Wifi rtos
  wifi_action (raises event) w = wifi_event_handler rtos event w
  wifi_action task_runs w = wifi_stack_round rtos w

  abbrev pub wifi_run : List WifiAction → Wifi rtos → Wifi rtos
  wifi_run [] w = w
  wifi_run (a ∷ actions) w = wifi_run actions (wifi_action a w)

  -- Logged or still queued.
  abbrev pub kept : Wifi rtos → List StationEvent
  kept w = w.logged ++ items w.event_queue

  record WifiOk (room : ℕ) (history : List StationEvent) (w : Wifi rtos) : Type 0 where
    places : capacity w.event_queue ≡ room
    part : Sublistᴰ (kept w) history
    whole : length history ≤ room → kept w ≡ history

  send-WifiOk :
      (room : ℕ) (history : List StationEvent) (event : StationEvent) (w : Wifi rtos)
      → WifiOk room history w
      → WifiOk room (history ++ event ∷ []) (wifi_event_send rtos (some event) w)
  send-WifiOk room history event w v =
      let q = w.event_queue in
      elim (Bool-cases (ltb (length (items q)) (capacity q))) [
        | inl free ↦
            let e : w.logged ++ items (send q event).1 ≡ kept w ++ event ∷ [] =
              ap (λ l. w.logged ++ l) (items-send_room rtos q event free)
              ∙ sym (append_assoc w.logged (items q) (event ∷ [])) in
            record {
              places = capacity-send q event ∙ v.places;
              part =
                  subst (λ l. Sublistᴰ l (history ++ event ∷ [])) (sym e)
                    (Sublistᴰ.append v.part (Sublistᴰ.refl (event ∷ [])));
              whole = λ few.
                  e
                  ∙ ap (λ l. l ++ event ∷ [])
                      (v.whole (omega (arith, few, length-append history (event ∷ []))));
            }
        | inr full ↦
            let e : w.logged ++ items (send q event).1 ≡ kept w =
              ap (λ l. w.logged ++ l) (items-send_full rtos q event full) in
            record {
              places = capacity-send q event ∙ v.places;
              part =
                  subst (λ l. Sublistᴰ l (history ++ event ∷ [])) (append-nil _ ∙ sym e)
                    (Sublistᴰ.append v.part (Sublistᴰ.nil-sublist (event ∷ [])));
              whole = λ few.
                  let same = v.whole (omega (arith, few, length-append history (event ∷ []))) in
                  absurd (
                    ground (
                      arith,
                      few,
                      full,
                      v.places,
                      length-append history (event ∷ []),
                      ap length same,
                      length-append w.logged (items q),
                    ));
            }
      ]

  handled-WifiOk :
      (room : ℕ) (history : List StationEvent) (event : Option StationEvent) (w : Wifi rtos)
      → WifiOk room history w
      → WifiOk room (history ++ listed event) (wifi_event_send rtos event w)
  handled-WifiOk room history none w v = subst (λ h. WifiOk room h w) (sym (append-nil history)) v
  handled-WifiOk room history (some event) w v = send-WifiOk room history event w v

  round-WifiOk :
      (room : ℕ) (history : List StationEvent) (w : Wifi rtos)
      → WifiOk room history w
      → WifiOk room history (wifi_stack_round rtos w)
  unfolding wifi_stack_round
  round-WifiOk room history w v = elim (receive-items w.event_queue) [
    | inl (none_left, r) ↦ rw (r, wifi_stack_round) v
    | inr (event, q, first, r, same_room) ↦
        let e : (w.logged ++ event ∷ []) ++ items q ≡ kept w =
          append_assoc w.logged (event ∷ []) (items q) ∙ ap (λ l. w.logged ++ l) (sym first) in
        rw (r, wifi_stack_round)
          (record {
            places = same_room ∙ v.places;
            part = subst (λ l. Sublistᴰ l history) (sym e) v.part;
            whole = λ few. e ∙ v.whole few;
          })
  ]

  run-WifiOk :
      (actions : List WifiAction) (room : ℕ) (history : List StationEvent) (w : Wifi rtos)
      → WifiOk room history w
      → WifiOk room (history ++ raised actions) (wifi_run actions w)
  unfolding wifi_event_handler
  run-WifiOk [] room history w v = subst (λ h. WifiOk room h w) (sym (append-nil history)) v
  run-WifiOk (raises event ∷ actions) room history w v =
      subst (λ h. WifiOk room h (wifi_run actions (wifi_event_handler rtos event w)))
        (append_assoc history (listed (station_event event)) (raised actions)
          ∙ ap (λ l. history ++ l) (raised-raises event actions))
        (run-WifiOk actions room _ _ (handled-WifiOk room history (station_event event) w v))
  run-WifiOk (task_runs ∷ actions) room history w v =
      run-WifiOk actions room history _ (round-WifiOk room history w v)

  -- From an empty queue of `room` places, whatever events are raised and whenever the task runs: what
  -- is logged, and then what is still queued, are station events that were raised, each as the joining
  -- or the leaving that it was, with its address, id and reason, in their order and each once; and if
  -- no more than `room` station events were raised, they are all of them.
  pub stations_in_order :
      (room : ℕ) (actions : List WifiAction) (w : Wifi rtos)
      → capacity w.event_queue ≡ room
      → items w.event_queue ≡ []
      → w.logged ≡ []
      → Sublistᴰ (kept (wifi_run actions w)) (raised actions)
        × (length (raised actions) ≤ room → kept (wifi_run actions w) ≡ raised actions)
  stations_in_order room actions w places no_event nothing =
      let start : kept w ≡ [] = ap₂ (λ a b. a ++ b) nothing no_event in
      let v = run-WifiOk actions room [] w (record {
        places = places;
        part = subst (λ l. Sublistᴰ l []) (sym start) (Sublistᴰ.nil-sublist []);
        whole = λ few. start;
      }) in
      (v.part, v.whole)
