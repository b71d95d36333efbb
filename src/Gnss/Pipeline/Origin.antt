-- ===== src/Gnss/Pipeline/Origin.antt =====
-- What the pipeline of main/gnss.c holds, and the sessions it goes back to.
use esp32_wifi_gnss.Prelude.{
  ℕ, ◌≡◌, refl, sym, subst, true, [], ◌∷◌, ◌++◌, Bytes, All, All-append, All-map, if◌then◌else◌,
  length, ltb, ◌==◌, inl, inr, Bool-cases, Option-cases, either, arith,
}
use esp32_wifi_gnss.Rtos.{Rtos, send_member, items-send_room, items-send_full}
use esp32_wifi_gnss.Gnss.{Candidate, Publication, cleared_parser}
use esp32_wifi_gnss.Gnss.Parser.Origin.{parser_feed-InOrder}
use esp32_wifi_gnss.Gnss.Parser.Heard.{InOrder, Fed, cleared-Fed}
use esp32_wifi_gnss.Gnss.Filter.{
  FilterState, consider_candidate, publish_best_candidate, still_best,
}
use esp32_wifi_gnss.Gnss.Filter.Publish.{publication_of-Holds, publish-held, publish-empty}
use esp32_wifi_gnss.Gnss.Pipeline.{
  Pipeline, Member, candidate_member, timer_member, control_member, Sink, candidate_send,
  feed_parser, publish, filter_event, filter_step,
}
use esp32_wifi_gnss.Gnss.Pipeline.Genuine.{IsSent, IsSent-Sized, still-has, PipelineInv}
use esp32_wifi_gnss.Gnss.Pipeline.Safety.{rest-PipelineInv}
use esp32_wifi_gnss.Gnss.Pipeline.Sessions.{
  Sessions, extend, InOne, IsOfOneSource, Grows, grow-IsOfOneSource, extend-InOne,
}

-- The bytes of the current session.
abbrev current : Sessions → Bytes
current [] = []
current (s ∷ ss) = s

abbrev BestFrom : Sessions → FilterState → Type 0
BestFrom ss f = f.has_best_candidate ≡ true → InOne f.best_candidate ss

head-InOne :
    (bytes : Bytes) (ss : Sessions) (c : Candidate)
    → InOrder (current ss ++ bytes) c
    → InOne c (extend bytes ss)
head-InOne bytes [] c h = inl h
head-InOne bytes (s ∷ ss) c h = inl h

current-extend : (bytes : Bytes) (ss : Sessions) → current (extend bytes ss) ≡ current ss ++ bytes
current-extend bytes [] = refl
current-extend bytes (s ∷ ss) = refl

consider-BestFrom :
    (ss : Sessions) (epoch : ℕ) (s : FilterState) (c : Candidate)
    → BestFrom ss s
    → InOne c ss
    → BestFrom ss (consider_candidate epoch s c)
unfolding consider_candidate
consider-BestFrom ss epoch s c b h = ground arith

module _ (rtos : Rtos) where
  open rtos use {
    Queue, items, capacity, send, overwrite, receive, receive-items, items-overwrite, select,
  }

  pub record OriginInv (ss : Sessions) (g : Pipeline rtos) : Type 0 where
    pub fed : Fed (current ss) g.parser_state
    pub queued : All (λ c. InOne c ss) (items g.candidate_queue)
    pub best : BestFrom ss g.filter
    pub published : All (IsOfOneSource ss) (items g.publication_queue)

  candidate_send-InOne :
      (ss : Sessions) (s : Sink rtos) (c : Candidate)
      → InOne c ss
      → All (λ d. InOne d ss) (items s.0)
      → All (λ d. InOne d ss) (items (candidate_send rtos s c).0)
  unfolding candidate_send send_member
  candidate_send-InOne ss s c h ok = elim (Bool-cases (ltb (length (items s.0)) (capacity s.0))) [
    | inl room ↦
        subst (All _) (sym (items-send_room rtos s.0 c room))
          (All-append (λ d. InOne d ss) (items s.0) (c ∷ []) ok (h, tt))
    | inr full ↦ subst (All _) (sym (items-send_full rtos s.0 c full)) ok
  ]

  -- The history grows with a parser that goes back to its current session.
  grow-OriginInv :
      (ss more : Sessions) (g h : Pipeline rtos)
      → Grows ss more
      → Fed (current more) h.parser_state
      → h.candidate_queue ≡ g.candidate_queue
      → h.filter ≡ g.filter
      → h.publication_queue ≡ g.publication_queue
      → OriginInv ss g
      → OriginInv more h
  grow-OriginInv ss more g h grow fed ec ef eq v = record {
    fed = fed;
    queued =
        subst (λ q. All (λ c. InOne c more) (items q)) (sym ec)
          (All-map _ (λ c. InOne c more) _ grow v.queued);
    best = subst (BestFrom more) (sym ef) (λ has. grow _ (v.best has));
    published =
        subst (λ q. All (IsOfOneSource more) (items q)) (sym eq)
          (All-map _ (IsOfOneSource more) _ (grow-IsOfOneSource ss more grow) v.published);
  }

  pub rest-OriginInv :
      (ss : Sessions) (g h : Pipeline rtos)
      → h.parser_state ≡ g.parser_state
      → h.candidate_queue ≡ g.candidate_queue
      → h.filter ≡ g.filter
      → h.publication_queue ≡ g.publication_queue
      → OriginInv ss g
      → OriginInv ss h
  rest-OriginInv ss g h ep ec ef eq v =
      grow-OriginInv ss ss g h (λ c i. i) (subst (Fed (current ss)) (sym ep) v.fed) ec ef eq v

  pub cleared-OriginInv :
      (ss : Sessions) (g h : Pipeline rtos)
      → h.parser_state ≡ cleared_parser
      → h.candidate_queue ≡ g.candidate_queue
      → h.filter ≡ g.filter
      → h.publication_queue ≡ g.publication_queue
      → OriginInv ss g
      → OriginInv ([] ∷ ss) h
  cleared-OriginInv ss g h ep ec ef eq v =
      grow-OriginInv ss ([] ∷ ss) g h (λ c i. inr i) (subst (Fed []) (sym ep) cleared-Fed) ec ef eq
        v

  pub feed-OriginInv :
      (bytes : Bytes) (ss : Sessions) (g : Pipeline rtos)
      → PipelineInv rtos g
      → OriginInv ss g
      → OriginInv (extend bytes ss) (feed_parser rtos bytes g)
  unfolding feed_parser
  feed-OriginInv bytes ss g v o =
      let more = extend bytes ss in
      let (fed, queued) =
        parser_feed-InOrder (candidate_send rtos) g.input_epoch (current ss ++ bytes)
          (λ s. All (λ c. InOne c more) (items s.0))
          (λ s c i ok. candidate_send-InOne more s c (head-InOne bytes ss c i) ok) bytes
          g.parser_state (g.candidate_queue, g.filter_queue_set) (current ss) v.parser o.fed refl
          (All-map _ (λ c. InOne c more) _ (extend-InOne bytes ss) o.queued) in
      record {
        fed =
            subst (λ t. Fed t (feed_parser rtos bytes g).parser_state)
              (sym (current-extend bytes ss)) fed;
        queued = queued;
        best = λ has. extend-InOne bytes ss _ (o.best has);
        published =
            All-map _ (IsOfOneSource more) _ (grow-IsOfOneSource ss more (extend-InOne bytes ss))
              o.published;
      }

  abbrev FilterFrom : Sessions → FilterState × Queue Publication → Type 0
  FilterFrom ss s = BestFrom ss s.0 × All (IsOfOneSource ss) (items s.1)

  publish-FilterFrom :
      (ss : Sessions) (epoch : ℕ) (s : FilterState) (q : Queue Publication)
      → (s.has_best_candidate ≡ true → IsSent s.best_candidate)
      → BestFrom ss s
      → All (IsOfOneSource ss) (items q)
      → FilterFrom ss (publish_best_candidate overwrite epoch (s, q))
  publish-FilterFrom ss epoch s q ok b h = elim (Bool-cases (still_best epoch s)) [
    | inl held ↦
        let has = still-has epoch s held in
        subst (FilterFrom ss) (sym (publish-held overwrite epoch s q held)) (
          λ t. absurd cc,
          subst (All (IsOfOneSource ss)) (sym (items-overwrite q _)) (
            record {
              candidate = s.best_candidate;
              sent = ok has;
              holds =
                  publication_of-Holds s.next_sequence s.best_candidate (IsSent-Sized _ (ok has));
              origin = b has;
            },
            tt,
          ),
        )
    | inr none_held ↦
        subst (FilterFrom ss) (sym (publish-empty overwrite epoch s q none_held))
          (λ t. absurd cc, h)
  ]

  publish-OriginInv :
      (ss : Sessions) (g : Pipeline rtos)
      → PipelineInv rtos g
      → OriginInv ss g
      → OriginInv ss (publish rtos g)
  publish-OriginInv ss g v o =
      let k =
        publish-FilterFrom ss g.input_epoch g.filter g.publication_queue v.best o.best
          o.published in
      record { fed = o.fed; queued = o.queued; best = k.0; published = k.1 }

  event-OriginInv :
      (ss : Sessions) (m : Member) (g : Pipeline rtos)
      → PipelineInv rtos g
      → OriginInv ss g
      → OriginInv ss (filter_event rtos m g)
  unfolding filter_event
  event-OriginInv ss candidate_member g v o = elim (receive-items g.candidate_queue) [
    | inl (none_left, e) ↦ rw (e, filter_event) o
    | inr (c, q, listed, e, kept) ↦
        let all = subst (All (λ c. InOne c ss)) listed o.queued in
        rw (e, filter_event)
          (record {
            fed = o.fed;
            queued = all.1;
            best = consider-BestFrom ss g.input_epoch g.filter c o.best all.0;
            published = o.published;
          })
  ]
  event-OriginInv ss timer_member g v o = elim (Option-cases (receive g.timer_event_queue)) [
    | inl e ↦ rw (e, filter_event) (publish-OriginInv ss g v o)
    | inr ((expired, q), e) ↦
        rw (e, filter_event)
          (publish-OriginInv ss (record g { timer_event_queue = q })
            (rest-PipelineInv rtos g _ v refl refl refl refl)
            (rest-OriginInv ss g _ refl refl refl refl o))
  ]
  event-OriginInv ss control_member g v o = elim (Option-cases (receive g.filter_control_queue)) [
    | inl e ↦ rw (e, filter_event) o
    | inr ((control, q), e) ↦
        let g' = record g { filter_control_queue = q } in
        let v' = rest-PipelineInv rtos g g' v refl refl refl refl in
        let o' = rest-OriginInv ss g g' refl refl refl refl o in
        rw (e, filter_event)
          (rest-OriginInv ss (if control.input_epoch == g.input_epoch then publish rtos g' else g')
            _ refl refl refl refl
            (either (OriginInv ss) (control.input_epoch == g.input_epoch) _ _
              (publish-OriginInv ss g' v' o') o'))
  ]

  pub filter_step-OriginInv :
      (ss : Sessions) (g : Pipeline rtos)
      → PipelineInv rtos g
      → OriginInv ss g
      → OriginInv ss (filter_step rtos g)
  unfolding filter_step
  filter_step-OriginInv ss g v o = elim (Option-cases (select g.filter_queue_set)) [
    | inl e ↦ rw (e, filter_step) o
    | inr ((ready, set), e) ↦
        rw (e, filter_step)
          (event-OriginInv ss ready (record g { filter_queue_set = set })
            (rest-PipelineInv rtos g _ v refl refl refl refl)
            (rest-OriginInv ss g _ refl refl refl refl o))
  ]
