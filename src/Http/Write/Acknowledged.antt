-- ===== src/Http/Write/Acknowledged.antt =====
-- The acknowledgement that the writer of main/http_stream.c waits for.
use esp32_wifi_gnss.Prelude.{
  ℕ, zero, suc, ◌≤◌, ◌≡◌, inl, inr, refl, ap, ◌∙◌, true, List, [], ◌∷◌, length, arith,
}
use esp32_wifi_gnss.Rtos.{Rtos}
use esp32_wifi_gnss.Esp.{EspErr}
use esp32_wifi_gnss.Gnss.Pipeline.{
  Pipeline, Member, candidate_member, timer_member, control_member, filter_event, filter_step,
}
use esp32_wifi_gnss.Http.Write.{awaiting}
use esp32_wifi_gnss.Http.Write.Marks.{controls_in}
use esp32_wifi_gnss.Http.Write.Sync.{Waiting, Sync}
use esp32_wifi_gnss.Http.Write.Filters.{filter_step-Sync}
use esp32_wifi_gnss.Http.Write.Run.{WriteRun, IsQuiet}
use esp32_wifi_gnss.Http.Write.Flushed.{WriteRun-Sync}
use esp32_wifi_gnss.Rtos.Token.{empty-of_length}
use esp32_wifi_gnss.Prelude.{either, ◌≢◌, ◌==◌}

module _ (rtos : Rtos) where
  open rtos use {
    items, count, pending, take_sem, taken, receive, receive-items, select, select-pending,
  }

  abbrev pub filter_steps : ℕ → Pipeline rtos → Pipeline rtos
  filter_steps zero g = g
  filter_steps (suc n) g = filter_steps n (filter_step rtos g)

  filter_event-set :
      (m : Member) (g : Pipeline rtos)
      → (filter_event rtos m g).filter_queue_set ≡ g.filter_queue_set
  unfolding filter_event
  filter_event-set candidate_member g = elim (receive-items g.candidate_queue) [
    | inl (none_left, r) ↦ rw (r, filter_event) refl
    | inr (c, q, listed, r, kept) ↦ rw (r, filter_event) refl
  ]
  filter_event-set timer_member g = elim (receive-items g.timer_event_queue) [
    | inl (none_left, r) ↦ rw (r, filter_event) refl
    | inr (c, q, listed, r, kept) ↦ rw (r, filter_event) refl
  ]
  filter_event-set control_member g = elim (receive-items g.filter_control_queue) [
    | inl (none_left, r) ↦ rw (r, filter_event) refl
    | inr (c, q, listed, r, kept) ↦
        rw (r, filter_event)
          (either (λ (h : Pipeline rtos). h.filter_queue_set ≡ g.filter_queue_set)
            (c.input_epoch == g.input_epoch) _ _ refl refl)
  ]

  filter_step-pending :
      (g : Pipeline rtos) (m : Member) (l : List Member)
      → pending g.filter_queue_set ≡ m ∷ l
      → length (pending (filter_step rtos g).filter_queue_set) ≡ length l
  unfolding filter_step
  filter_step-pending g m l e = elim (select-pending g.filter_queue_set) [
    | inl (none_ready, r) ↦ absurd (omega (arith, ap length e, ap length none_ready))
    | inr (first, set, listed, r) ↦
        rw (r, filter_step)
          (ap (λ s. length (pending s))
              (filter_event-set first (record g { filter_queue_set = set }))
            ∙ omega (arith, ap length e, ap length listed))
  ]

  abbrev Answers : Pipeline rtos → ℕ → Type 0
  Answers g n = (k : ℕ) × (k ≤ n) × ((take_sem (filter_steps k g).override_flush_done).0 ≡ true)

  unmarked :
      (result : EspErr) (g : Pipeline rtos)
      → Sync rtos (awaiting result) g
      → Waiting rtos g
      → pending g.filter_queue_set ≢ []
  unmarked result g v w e = omega (arith, ap controls_in e, v.marked.controls, ap length w.listed)

  answers :
      (n : ℕ) (result : EspErr) (g : Pipeline rtos)
      → Sync rtos (awaiting result) g
      → length (pending g.filter_queue_set) ≤ n
      → Answers g n
  answers zero result g v short = elim v.flush [
    | inr a ↦ (0, omega arith, ground (arith, taken g.override_flush_done, a.answered))
    | inl w ↦ absurd (unmarked result g v w (empty-of_length _ (omega (arith, short))))
  ]
  answers (suc n) result g v short = elim v.flush [
    | inr a ↦ (0, omega arith, ground (arith, taken g.override_flush_done, a.answered))
    | inl w ↦ elim (select-pending g.filter_queue_set) [
      | inl (none_ready, r) ↦ absurd (unmarked result g v w none_ready)
      | inr (m, set, e, r) ↦
          let shorter = filter_step-pending g m (pending set) e in
          let (k, few, got) =
            answers n result (filter_step rtos g) (filter_step-Sync rtos (awaiting result) g v)
              (omega (arith, shorter, short, ap length e)) in
          (suc k, omega (arith, few), got)
    ]
  ]

  -- The writer never waits for ever: in every state that is reached with its flush sent, the filter
  -- task has the acknowledgement ready after at most as many rounds as there are marks in the queue
  -- set.
  pub flush_is_acknowledged :
      {start g : Pipeline rtos} (result : EspErr)
      → IsQuiet rtos start
      → WriteRun rtos start (awaiting result) g
      → (k : ℕ) × (k ≤ length (pending g.filter_queue_set))
        × ((take_sem (filter_steps k g).override_flush_done).0 ≡ true)
  flush_is_acknowledged {start} {g} result i run =
      answers (length (pending g.filter_queue_set)) result g (WriteRun-Sync rtos i run)
        (omega arith)
