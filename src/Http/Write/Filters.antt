-- ===== src/Http/Write/Filters.antt =====
-- The timer and the filter task of main/gnss.c while an upload is active or not.
use esp32_wifi_gnss.Prelude.{
  ℕ, ◌≡◌, inl, inr, refl, sym, ap, ◌∙◌, true, false, not, List, [], ◌∷◌, length, ◌==◌, arith,
  Option-cases, either,
}
use esp32_wifi_gnss.Rtos.{Rtos}
use esp32_wifi_gnss.Rtos.Token.{empty-of_length}
use esp32_wifi_gnss.Esp.{EspErr}
use esp32_wifi_gnss.Gnss.{Publication, FilterControl}
use esp32_wifi_gnss.Gnss.Filter.{FilterState, publish_best_candidate, still_best}
use esp32_wifi_gnss.Gnss.Pipeline.{
  Pipeline, Member, candidate_member, timer_member, control_member, filter_event, filter_step,
  publish, control_event,
}
use esp32_wifi_gnss.Http.Write.{
  WriterPhase, no_writer, receiving, ending, flushing, awaiting, answering,
}
use esp32_wifi_gnss.Http.Write.Marks.{candidates_in, controls_in, behind_control}
use esp32_wifi_gnss.Http.Write.Sync.{Waiting, Marked, Sync}
use esp32_wifi_gnss.Http.Write.Timer.{Flush-rest, same-Sync}

module _ (rtos : Rtos) where
  open rtos use {
    Queue, QueueSet, items, capacity, count, limit, pending, mark, overwrite, receive,
    receive-items, select, select-pending, pending-mark, give_sem, count-give, limit-give,
  }

  publish-has_best :
      (epoch : ℕ) (s : FilterState) (q : Queue Publication)
      → (publish_best_candidate overwrite epoch (s, q)).0.has_best_candidate ≡ false
  unfolding publish_best_candidate
  publish-has_best epoch s q =
      either (λ (t : FilterState × Queue Publication). t.0.has_best_candidate ≡ false)
        (not (still_best epoch s)) _ _ refl refl

  publish-Sync :
      (phase : WriterPhase) (g : Pipeline rtos)
      → Sync rtos phase g
      → Sync rtos phase (publish rtos g)
  publish-Sync phase g v =
      same-Sync rtos phase g (publish rtos g) v.parser refl refl refl refl refl refl refl
        (λ h. publish-has_best g.input_epoch g.filter g.publication_queue) v

  -- The filter takes the first mark `m` from the set.
  module _ (phase : WriterPhase) (g : Pipeline rtos) (set : QueueSet Member)
      (v : Sync rtos phase g) where
    candidate-Sync :
        pending g.filter_queue_set ≡ candidate_member ∷ pending set
        → Sync rtos phase (filter_event rtos candidate_member (record g { filter_queue_set = set }))
    unfolding filter_event
    candidate-Sync e = elim (receive-items g.candidate_queue) [
      | inl (none_left, r) ↦
          absurd (omega (arith, ap length none_left, v.marked.candidates, ap candidates_in e))
      | inr (c, q, listed, r, kept) ↦
          rw (r, filter_event)
            (record {
              parser = v.parser;
              active = v.active;
              closing = v.closing;
              marked = record {
                candidates =
                    omega (arith, ap length listed, v.marked.candidates, ap candidates_in e);
                controls = sym (ap controls_in e) ∙ v.marked.controls;
                one_control = v.marked.one_control;
                binary = v.marked.binary;
                flag = v.marked.flag;
              };
              flush =
                  Flush-rest rtos phase g _ refl refl
                    (λ w. record {
                      flush = w.flush;
                      listed = w.listed;
                      same_epoch = w.same_epoch;
                      no_answer = w.no_answer;
                      last = sym (ap behind_control e) ∙ w.last;
                    })
                    (λ a. absurd (omega (arith, ap length a.no_candidate, ap length listed)))
                    v.flush;
            })
    ]

    unmarked-Sync :
        pending g.filter_queue_set ≡ timer_member ∷ pending set
        → Sync rtos phase (record g { filter_queue_set = set })
    unmarked-Sync e = record {
      parser = v.parser;
      active = v.active;
      closing = v.closing;
      marked = record {
        candidates = sym (ap candidates_in e) ∙ v.marked.candidates;
        controls = sym (ap controls_in e) ∙ v.marked.controls;
        one_control = v.marked.one_control;
        binary = v.marked.binary;
        flag = v.marked.flag;
      };
      flush =
          Flush-rest rtos phase g _ refl refl
            (λ w. record {
              flush = w.flush;
              listed = w.listed;
              same_epoch = w.same_epoch;
              no_answer = w.no_answer;
              last = sym (ap behind_control e) ∙ w.last;
            })
            (λ a. record {
              answered = a.answered;
              no_control = a.no_control;
              no_candidate = a.no_candidate;
              no_best = a.no_best;
            })
            v.flush;
    }

    timer_member-Sync :
        pending g.filter_queue_set ≡ timer_member ∷ pending set
        → Sync rtos phase (filter_event rtos timer_member (record g { filter_queue_set = set }))
    unfolding filter_event
    timer_member-Sync e = elim (Option-cases (receive g.timer_event_queue)) [
      | inl r ↦ rw (r, filter_event) (publish-Sync phase _ (unmarked-Sync e))
      | inr ((expired, q), r) ↦
          rw (r, filter_event)
            (publish-Sync phase (record g { filter_queue_set = set; timer_event_queue = q })
              (same-Sync rtos phase (record g { filter_queue_set = set })
                (record g { filter_queue_set = set; timer_event_queue = q }) v.parser refl refl refl
                refl refl refl refl (λ h. h) (unmarked-Sync e)))
    ]

  cons_injective : {A : Type 0} (a b : A) (l k : List A) → a ∷ l ≡ b ∷ k → (a ≡ b) × (l ≡ k)
  cons_injective a b l k e = (cc, cc)

  -- The filter takes the flush that is waited for.
  answers-Sync :
      (result : EspErr) (g : Pipeline rtos) (set : QueueSet Member) (c : FilterControl)
      (q : Queue FilterControl)
      → Sync rtos (awaiting result) g
      → Waiting rtos g
      → pending g.filter_queue_set ≡ control_member ∷ pending set
      → items g.filter_control_queue ≡ c ∷ items q
      → capacity q ≡ capacity g.filter_control_queue
      → Sync rtos
          (awaiting result)
          (control_event rtos (record g { filter_queue_set = set; filter_control_queue = q }) c)
  answers-Sync result g set c q v w e listed kept =
      let (first, rest) = cons_injective c w.flush (items q) [] (sym listed ∙ w.listed) in
      let same : (c.input_epoch == g.input_epoch) ≡ true =
        ground (arith, ap (λ (f : FilterControl). f.input_epoch) first, w.same_epoch) in
      rw same (record {
        parser = v.parser;
        active = v.active;
        closing = v.closing;
        marked = record {
          candidates = sym (ap candidates_in e) ∙ v.marked.candidates;
          controls = omega (arith, v.marked.controls, ap controls_in e, ap length listed);
          one_control = kept ∙ v.marked.one_control;
          binary = limit-give g.override_flush_done ∙ v.marked.binary;
          flag = ground (arith, count-give g.override_flush_done, w.no_answer, v.marked.binary);
        };
        flush = inr (record {
          answered = ground (arith, count-give g.override_flush_done, w.no_answer, v.marked.binary);
          no_control = rest;
          no_candidate =
              empty-of_length _ (
                omega
                  (arith, v.marked.candidates, ap candidates_in e, w.last, ap behind_control e));
          no_best = publish-has_best g.input_epoch g.filter g.publication_queue;
        });
      })

  no_control_mark :
      {A : Type 0} (g : Pipeline rtos) (set : QueueSet Member)
      → Marked rtos g
      → pending g.filter_queue_set ≡ control_member ∷ pending set
      → items g.filter_control_queue ≡ []
      → A
  no_control_mark g set m e none_left =
      absurd (omega (arith, ap length none_left, m.controls, ap controls_in e))

  control-Sync :
      (phase : WriterPhase) (g : Pipeline rtos) (set : QueueSet Member)
      → Sync rtos phase g
      → pending g.filter_queue_set ≡ control_member ∷ pending set
      → Sync rtos phase (filter_event rtos control_member (record g { filter_queue_set = set }))
  unfolding filter_event
  control-Sync no_writer g set v e = no_control_mark g set v.marked e v.flush
  control-Sync (receiving left) g set v e = no_control_mark g set v.marked e v.flush
  control-Sync (ending result) g set v e = no_control_mark g set v.marked e v.flush
  control-Sync (answering result) g set v e = no_control_mark g set v.marked e v.flush
  control-Sync (flushing result control) g set v e = no_control_mark g set v.marked e v.flush.0
  control-Sync (awaiting result) g set v e = elim v.flush [
    | inr a ↦ no_control_mark g set v.marked e a.no_control
    | inl w ↦ elim (receive-items g.filter_control_queue) [
      | inl (none_left, r) ↦ no_control_mark g set v.marked e none_left
      | inr (c, q, listed, r, kept) ↦
          rw (r, filter_event) (answers-Sync result g set c q v w e listed kept)
    ]
  ]

  event-Sync :
      (m : Member) (phase : WriterPhase) (g : Pipeline rtos) (set : QueueSet Member)
      → Sync rtos phase g
      → pending g.filter_queue_set ≡ m ∷ pending set
      → Sync rtos phase (filter_event rtos m (record g { filter_queue_set = set }))
  event-Sync candidate_member phase g set v e = candidate-Sync phase g set v e
  event-Sync timer_member phase g set v e = timer_member-Sync phase g set v e
  event-Sync control_member phase g set v e = control-Sync phase g set v e

  pub filter_step-Sync :
      (phase : WriterPhase) (g : Pipeline rtos)
      → Sync rtos phase g
      → Sync rtos phase (filter_step rtos g)
  unfolding filter_step
  filter_step-Sync phase g v = elim (select-pending g.filter_queue_set) [
    | inl (none_ready, r) ↦ rw (r, filter_step) v
    | inr (m, set, e, r) ↦ rw (r, filter_step) (event-Sync m phase g set v e)
  ]
