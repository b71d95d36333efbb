-- ===== src/Gnss/Pipeline/Genuine.antt =====
-- The invariant of the pipeline of main/gnss.c, and the operations that feed the queues.
use esp32_wifi_gnss.Prelude.{
  ℕ, ◌≤◌, ◌≡◌, refl, sym, subst, ap, ◌∙◌, true, [], ◌∷◌, Bytes, All, All-append, length, ltb,
  ltb→lt, ◌==◌, inl, inr, Bool-cases, Option-cases, arith, length-append,
}
use esp32_wifi_gnss.Rtos.{Rtos, send_member, items-send_room, items-send_full}
use esp32_wifi_gnss.Gnss.{Candidate, Publication, FilterControl}
use esp32_wifi_gnss.Gnss.Parser.Bounds.{parser_feed-Kept}
use esp32_wifi_gnss.Gnss.Parser.Invariant.{ParserInv, IsGenuine}
use esp32_wifi_gnss.Gnss.Filter.{
  FilterState, consider_candidate, publish_best_candidate, still_best,
}
use esp32_wifi_gnss.Gnss.Filter.Publish.{
  Sized, Holds, publication_of-Holds, publish-held, publish-empty,
}
use esp32_wifi_gnss.Gnss.Pipeline.{
  Pipeline, candidate_member, timer_member, control_member, Sink, candidate_send, feed_parser,
  publish, control_event, filter_event,
}

-- A candidate that the parser sent, in its own source generation.
abbrev pub IsSent : Candidate → Type 0
IsSent c = IsGenuine c.input_epoch c

-- A publication that holds the lines of such a candidate.
pub record IsPublishable (p : Publication) : Type 0 where
  pub candidate : Candidate
  pub sent : IsSent candidate
  pub holds : Holds candidate p

pub IsSent-Sized : (c : Candidate) → IsSent c → Sized c
IsSent-Sized c s = record { gga_fits = s.gga_fits; rmc_fits = s.rmc_fits }

IsGenuine-IsSent : (epoch : ℕ) (c : Candidate) → IsGenuine epoch c → IsSent c
IsGenuine-IsSent epoch c g = record {
  gga_fits = g.gga_fits;
  gga_ok = g.gga_ok;
  rmc_fits = g.rmc_fits;
  rmc_sum = g.rmc_sum;
  rmc_type = g.rmc_type;
  epoch_kept = refl;
}

pub still-has :
    (epoch : ℕ) (s : FilterState) → still_best epoch s ≡ true → s.has_best_candidate ≡ true
still-has epoch s h = ground arith

abbrev BestOk : FilterState → Type 0
BestOk s = s.has_best_candidate ≡ true → IsSent s.best_candidate

consider-BestOk :
    (epoch : ℕ) (s : FilterState) (c : Candidate)
    → BestOk s
    → IsSent c
    → BestOk (consider_candidate epoch s c)
unfolding consider_candidate
consider-BestOk epoch s c b h = ground arith

module _ (rtos : Rtos) where
  open rtos use {
    Queue, items, capacity, send, overwrite, receive, receive-items, items-send, capacity-send,
    items-overwrite, take_sem, give_sem, select,
  }

  abbrev QueueOk : Queue Candidate → Type 0
  QueueOk q = All IsSent (items q) × (length (items q) ≤ 8) × (capacity q ≡ 8)

  pub record PipelineInv (g : Pipeline rtos) : Type 0 where
    pub parser : ParserInv g.parser_state
    pub queued : QueueOk g.candidate_queue
    pub best : BestOk g.filter
    pub published : All IsPublishable (items g.publication_queue)

  candidate_send-QueueOk :
      (epoch : ℕ) (s : Sink rtos) (c : Candidate)
      → IsGenuine epoch c
      → QueueOk s.0
      → QueueOk (candidate_send rtos s c).0
  unfolding candidate_send send_member
  candidate_send-QueueOk epoch s c gen ok =
      elim (Bool-cases (ltb (length (items s.0)) (capacity s.0))) [
        | inl room ↦
            let e = items-send_room rtos s.0 c room in
            (
              subst (All IsSent) (sym e)
                  (All-append IsSent (items s.0) (c ∷ []) ok.0 (IsGenuine-IsSent epoch c gen, tt)),
              omega (arith, ap length e, length-append (items s.0) (c ∷ []), ltb→lt _ _ room, ok.2),
              capacity-send s.0 c ∙ ok.2,
            )
        | inr full ↦
            let e = items-send_full rtos s.0 c full in
            (
              subst (All IsSent) (sym e) ok.0,
              omega (arith, ap length e, ok.1),
              capacity-send s.0 c ∙ ok.2,
            )
      ]

  pub feed_parser-PipelineInv :
      (bytes : Bytes) (g : Pipeline rtos) → PipelineInv g → PipelineInv (feed_parser rtos bytes g)
  unfolding feed_parser
  feed_parser-PipelineInv bytes g v =
      let k =
        parser_feed-Kept (candidate_send rtos) g.input_epoch (λ s. QueueOk s.0)
          (λ s c gen ok. candidate_send-QueueOk g.input_epoch s c gen ok) bytes g.parser_state
          (g.candidate_queue, g.filter_queue_set) v.parser v.queued in
      record { parser = k.0; queued = k.1; best = v.best; published = v.published }

  abbrev FilterOk : FilterState × Queue Publication → Type 0
  FilterOk s = BestOk s.0 × All IsPublishable (items s.1)

  publish-FilterOk :
      (epoch : ℕ) (s : FilterState) (q : Queue Publication)
      → BestOk s
      → All IsPublishable (items q)
      → FilterOk (publish_best_candidate overwrite epoch (s, q))
  publish-FilterOk epoch s q b h = elim (Bool-cases (still_best epoch s)) [
    | inl held ↦
        let sent = b (still-has epoch s held) in
        subst FilterOk (sym (publish-held overwrite epoch s q held)) (
          λ t. cc,
          subst (All IsPublishable) (sym (items-overwrite q _)) (
            record {
              candidate = s.best_candidate;
              sent = sent;
              holds = publication_of-Holds s.next_sequence s.best_candidate (IsSent-Sized _ sent);
            },
            tt,
          ),
        )
    | inr none_held ↦
        subst FilterOk (sym (publish-empty overwrite epoch s q none_held)) (λ t. cc, h)
  ]

  publish-PipelineInv : (g : Pipeline rtos) → PipelineInv g → PipelineInv (publish rtos g)
  publish-PipelineInv g v =
      let k = publish-FilterOk g.input_epoch g.filter g.publication_queue v.best v.published in
      record { parser = v.parser; queued = v.queued; best = k.0; published = k.1 }

  control-PipelineInv :
      (g : Pipeline rtos) (control : FilterControl)
      → PipelineInv g
      → PipelineInv (control_event rtos g control)
  control-PipelineInv g control v = elim (Bool-cases (control.input_epoch == g.input_epoch)) [
    | inl e ↦
        let w = publish-PipelineInv g v in
        rw e
          (record { parser = w.parser; queued = w.queued; best = w.best; published = w.published })
    | inr e ↦
        rw e
          (record { parser = v.parser; queued = v.queued; best = v.best; published = v.published })
  ]

  pub candidate-PipelineInv :
      (g : Pipeline rtos) → PipelineInv g → PipelineInv (filter_event rtos candidate_member g)
  unfolding filter_event
  candidate-PipelineInv g v = elim (receive-items g.candidate_queue) [
    | inl (none_left, e) ↦ rw (e, filter_event) v
    | inr (c, q, listed, e, cap) ↦
        let all = subst (All IsSent) listed v.queued.0 in
        rw (e, filter_event)
          (record {
            parser = v.parser;
            queued = (all.1, omega (arith, ap length listed, v.queued), cap ∙ v.queued.2);
            best = consider-BestOk g.input_epoch g.filter c v.best all.0;
            published = v.published;
          })
  ]

  pub timer-PipelineInv :
      (g : Pipeline rtos) → PipelineInv g → PipelineInv (filter_event rtos timer_member g)
  unfolding filter_event
  timer-PipelineInv g v = elim (Option-cases (receive g.timer_event_queue)) [
    | inl e ↦ rw (e, filter_event) (publish-PipelineInv g v)
    | inr ((expired, q), e) ↦
        rw (e, filter_event)
          (publish-PipelineInv (record g { timer_event_queue = q })
            (record {
              parser = v.parser;
              queued = v.queued;
              best = v.best;
              published = v.published;
            }))
  ]

  pub control_member-PipelineInv :
      (g : Pipeline rtos) → PipelineInv g → PipelineInv (filter_event rtos control_member g)
  unfolding filter_event
  control_member-PipelineInv g v = elim (Option-cases (receive g.filter_control_queue)) [
    | inl e ↦ rw (e, filter_event) v
    | inr ((control, q), e) ↦
        rw (e, filter_event)
          (control-PipelineInv (record g { filter_control_queue = q }) control
            (record {
              parser = v.parser;
              queued = v.queued;
              best = v.best;
              published = v.published;
            }))
  ]
