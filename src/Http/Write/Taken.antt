-- ===== src/Http/Write/Taken.antt =====
-- The round of the filter task of main/gnss.c that takes the writer's flush.
use esp32_wifi_gnss.Prelude.{
  ◌≡◌, ◌≢◌, inl, inr, refl, sym, ap, ◌∙◌, true, List, [], ◌∷◌, length, ◌==◌, if◌then◌else◌,
  Bool-cases, arith,
}
use esp32_wifi_gnss.Rtos.{Rtos}
use esp32_wifi_gnss.Rtos.Token.{empty-of_length}
use esp32_wifi_gnss.Esp.{EspErr}
use esp32_wifi_gnss.Gnss.{FilterControl}
use esp32_wifi_gnss.Gnss.Filter.{publish_best_candidate, publication_of, still_best}
use esp32_wifi_gnss.Gnss.Pipeline.{
  Pipeline, Member, control_member, filter_event, filter_step, publish, control_event,
}
use esp32_wifi_gnss.Http.Write.{awaiting}
use esp32_wifi_gnss.Http.Write.Marks.{candidates_in, controls_in, behind_control}
use esp32_wifi_gnss.Http.Write.Sync.{Waiting, Marked, Sync}

module _ (rtos : Rtos) where
  open rtos use {
    Queue, QueueSet, items, capacity, count, pending, take_sem, taken, receive, receive-items,
    select, select-pending, give_sem, count-give, items-overwrite, overwrite,
  }

  -- The round finds no candidate in the queue, publishes what the filter holds for the current
  -- source, and gives the acknowledgement.
  pub record TakesFlush (g : Pipeline rtos) : Type 0 where
    pub all_weighed : items g.candidate_queue ≡ []
    pub published : items (filter_step rtos g).publication_queue ≡ (
        if still_best g.input_epoch g.filter
        then publication_of g.filter.next_sequence g.filter.best_candidate ∷ []
        else items g.publication_queue)
    pub answered : (take_sem (filter_step rtos g).override_flush_done).0 ≡ true

  publish-items :
      (g : Pipeline rtos)
      → items (publish rtos g).publication_queue ≡ (
          if still_best g.input_epoch g.filter
          then publication_of g.filter.next_sequence g.filter.best_candidate ∷ []
          else items g.publication_queue)
  unfolding publish_best_candidate
  publish-items g = elim (Bool-cases (still_best g.input_epoch g.filter)) [
    | inl held ↦
        rw (held, publish_best_candidate)
          (items-overwrite g.publication_queue
            (publication_of g.filter.next_sequence g.filter.best_candidate))
    | inr none_held ↦ rw (none_held, publish_best_candidate) refl
  ]

  heads_same : {A : Type 0} (a b : A) (l k : List A) → a ∷ l ≡ b ∷ k → a ≡ b
  heads_same a b l k e = cc

  flush-TakesFlush :
      (result : EspErr) (g : Pipeline rtos) (set : QueueSet Member) (c : FilterControl)
      (q : Queue FilterControl)
      → Sync rtos (awaiting result) g
      → Waiting rtos g
      → pending g.filter_queue_set ≡ control_member ∷ pending set
      → items g.filter_control_queue ≡ c ∷ items q
      → filter_step rtos g
        ≡ control_event rtos (record g { filter_queue_set = set; filter_control_queue = q }) c
      → TakesFlush g
  flush-TakesFlush result g set c q v w e listed step =
      let first = heads_same c w.flush (items q) [] (sym listed ∙ w.listed) in
      let same : (c.input_epoch == g.input_epoch) ≡ true =
        ground (arith, ap (λ (f : FilterControl). f.input_epoch) first, w.same_epoch) in
      let h : Pipeline rtos = record g { filter_queue_set = set; filter_control_queue = q } in
      let step' =
        step
        ∙ ap
            (λ b.
              let g' = if b then publish rtos h else h in
              record g' { override_flush_done = give_sem g'.override_flush_done })
            same in
      record {
        all_weighed =
            empty-of_length _
              (omega (arith, v.marked.candidates, ap candidates_in e, w.last, ap behind_control e));
        published = ap (λ (t : Pipeline rtos). items t.publication_queue) step' ∙ publish-items h;
        answered =
            ap (λ (t : Pipeline rtos). (take_sem t.override_flush_done).0) step'
            ∙ ground (
              arith,
              taken (give_sem g.override_flush_done),
              count-give g.override_flush_done,
              w.no_answer,
              v.marked.binary,
            );
      }

  no_flush :
      (g : Pipeline rtos) (rest : List Member)
      → Marked rtos g
      → pending g.filter_queue_set ≡ control_member ∷ rest
      → items g.filter_control_queue ≢ []
  no_flush g rest m e none_left = omega (arith, ap length none_left, m.controls, ap controls_in e)

  pub takes_flush :
      (result : EspErr) (g : Pipeline rtos) (rest : List Member)
      → Sync rtos (awaiting result) g
      → pending g.filter_queue_set ≡ control_member ∷ rest
      → TakesFlush g
  unfolding filter_step filter_event
  takes_flush result g rest v e = elim v.flush [
    | inr a ↦ absurd (no_flush g rest v.marked e a.no_control)
    | inl w ↦ elim (select-pending g.filter_queue_set) [
      | inl (none_ready, r) ↦ absurd (cc (none_ready, e))
      | inr (m, set, listed, r) ↦
          let is : m ≡ control_member = heads_same m control_member _ rest (sym listed ∙ e) in
          let e' = listed ∙ ap (λ k. k ∷ pending set) is in
          elim (receive-items g.filter_control_queue) [
            | inl (none_left, r') ↦ absurd (no_flush g (pending set) v.marked e' none_left)
            | inr (c, q, first, r', kept) ↦
                flush-TakesFlush result g set c q v w e' first
                  (rw (r, is, r', filter_step, filter_event) refl)
          ]
    ]
  ]
