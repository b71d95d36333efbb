-- ===== src/Http/Write/Timer.antt =====
-- What the timer, and any step that leaves the control queue alone, keeps.
use esp32_wifi_gnss.Prelude.{
  ℕ, ◌≤◌, ◌≡◌, inl, inr, refl, sym, ap, ◌∙◌, subst, false, [], ◌∷◌, length, ◌==◌, arith, either,
}
use esp32_wifi_gnss.Rtos.{Rtos, overwrite_member}
use esp32_wifi_gnss.Gnss.Parser.Invariant.{ParserInv}
use esp32_wifi_gnss.Gnss.Pipeline.{Pipeline, Member, timer_member, selection_timer_callback}
use esp32_wifi_gnss.Http.Write.{
  WriterPhase, no_writer, receiving, ending, flushing, awaiting, answering,
}
use esp32_wifi_gnss.Http.Write.Marks.{
  candidates_in, controls_in, behind_control, candidates_in-append, controls_in-append,
  behind_control-timer,
}
use esp32_wifi_gnss.Http.Write.Sync.{Waiting, Acknowledged, Flush, Sync}

module _ (rtos : Rtos) where
  open rtos use {
    Queue, QueueSet, items, capacity, count, limit, pending, mark, overwrite, receive,
    receive-items, select, select-pending, pending-mark, give_sem, count-give, limit-give,
  }

  -- A step that leaves the control queue and the source generation alone.
  pub Flush-rest :
      (phase : WriterPhase) (g h : Pipeline rtos)
      → h.filter_control_queue ≡ g.filter_control_queue
      → h.input_epoch ≡ g.input_epoch
      → (Waiting rtos g → Waiting rtos h)
      → (Acknowledged rtos g → Acknowledged rtos h)
      → Flush rtos phase g
      → Flush rtos phase h
  Flush-rest no_writer g h eq ee w a f = ap items eq ∙ f
  Flush-rest (receiving left) g h eq ee w a f = ap items eq ∙ f
  Flush-rest (ending result) g h eq ee w a f = ap items eq ∙ f
  Flush-rest (answering result) g h eq ee w a f = ap items eq ∙ f
  Flush-rest (flushing result control) g h eq ee w a (f, e) = (ap items eq ∙ f, e ∙ sym ee)
  Flush-rest (awaiting result) g h eq ee w a (inl f) = inl (w f)
  Flush-rest (awaiting result) g h eq ee w a (inr f) = inr (a f)

  pub timer-parts :
      (s : QueueSet Member) (q : Queue ℕ)
      → let t = (overwrite_member rtos s timer_member q 1).1 in
        (candidates_in (pending t) ≡ candidates_in (pending s))
        × (controls_in (pending t) ≡ controls_in (pending s))
        × (behind_control (pending t) ≡ behind_control (pending s))
  unfolding overwrite_member
  timer-parts s q =
      either P (length (items q) == 0) (mark s timer_member) s
        (
          ap candidates_in (pending-mark s timer_member)
              ∙ omega (arith, candidates_in-append (pending s) (timer_member ∷ [])),
          ap controls_in (pending-mark s timer_member)
              ∙ omega (arith, controls_in-append (pending s) (timer_member ∷ [])),
          ap behind_control (pending-mark s timer_member) ∙ behind_control-timer (pending s),
        )
        (refl, refl, refl)
    where
      P : QueueSet Member → Type 0
      P t =
          (candidates_in (pending t) ≡ candidates_in (pending s))
          × (controls_in (pending t) ≡ controls_in (pending s))
          × (behind_control (pending t) ≡ behind_control (pending s))

  pub timer-Sync :
      (phase : WriterPhase) (g : Pipeline rtos)
      → Sync rtos phase g
      → Sync rtos phase (selection_timer_callback rtos g)
  unfolding selection_timer_callback
  timer-Sync phase g v =
      let k = timer-parts g.filter_queue_set g.timer_event_queue in
      record {
        parser = v.parser;
        active = v.active;
        closing = v.closing;
        marked = record {
          candidates = k.0 ∙ v.marked.candidates;
          controls = k.1 ∙ v.marked.controls;
          one_control = v.marked.one_control;
          binary = v.marked.binary;
          flag = v.marked.flag;
        };
        flush =
            Flush-rest phase g _ refl refl
              (λ w. record {
                flush = w.flush;
                listed = w.listed;
                same_epoch = w.same_epoch;
                no_answer = w.no_answer;
                last = k.2 ∙ w.last;
              })
              (λ a. record {
                answered = a.answered;
                no_control = a.no_control;
                no_candidate = a.no_candidate;
                no_best = a.no_best;
              })
              v.flush;
      }

  -- A step that changes nothing that matters here, except that the filter may drop its candidate.
  pub same-Sync :
      (phase : WriterPhase) (g h : Pipeline rtos)
      → ParserInv h.parser_state
      → h.input_override_active ≡ g.input_override_active
      → h.input_override_closing ≡ g.input_override_closing
      → h.candidate_queue ≡ g.candidate_queue
      → h.filter_queue_set ≡ g.filter_queue_set
      → h.filter_control_queue ≡ g.filter_control_queue
      → h.override_flush_done ≡ g.override_flush_done
      → h.input_epoch ≡ g.input_epoch
      → (g.filter.has_best_candidate ≡ false → h.filter.has_best_candidate ≡ false)
      → Sync rtos phase g
      → Sync rtos phase h
  same-Sync phase g h p ea ec eq es ek ed ee eb v = record {
    parser = p;
    active = ea ∙ v.active;
    closing = ec ∙ v.closing;
    marked = record {
      candidates =
          ap (λ s. candidates_in (pending s)) es
          ∙ v.marked.candidates
          ∙ ap (λ q. length (items q)) (sym eq);
      controls =
          ap (λ s. controls_in (pending s)) es
          ∙ v.marked.controls
          ∙ ap (λ q. length (items q)) (sym ek);
      one_control = ap capacity ek ∙ v.marked.one_control;
      binary = ap limit ed ∙ v.marked.binary;
      flag = subst (λ d. count d ≤ 1) (sym ed) v.marked.flag;
    };
    flush =
        Flush-rest phase g h ek ee
          (λ w. record {
            flush = w.flush;
            listed = ap items ek ∙ w.listed;
            same_epoch = w.same_epoch ∙ sym ee;
            no_answer = ap count ed ∙ w.no_answer;
            last = ap (λ s. behind_control (pending s)) es ∙ w.last;
          })
          (λ a. record {
            answered = ap count ed ∙ a.answered;
            no_control = ap items ek ∙ a.no_control;
            no_candidate = ap items eq ∙ a.no_candidate;
            no_best = eb a.no_best;
          })
          v.flush;
  }
