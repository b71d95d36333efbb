-- ===== src/Gnss/Pipeline/Safety.antt =====
-- The steps of the pipeline of main/gnss.c and its invariant.
use esp32_wifi_gnss.Prelude.{
  ℕ, zero, suc, ◌≡◌, refl, sym, subst, ap, Bool, true, false, not, ◌&&◌, ◌||◌, Option, none, some,
  [], ◌∷◌, Bytes, All, length, take, ◌≤◌, inl, inr, Bool-cases, Option-cases, if◌then◌else◌, arith,
}
use esp32_wifi_gnss.Rtos.{Rtos}
use esp32_wifi_gnss.Gnss.{cleared_parser}
use esp32_wifi_gnss.Gnss.Parser.Invariant.{ParserInv, cleared-ParserInv}
use esp32_wifi_gnss.Gnss.Pipeline.{
  Pipeline, Member, candidate_member, timer_member, control_member, feed_parser, uart_input_feed,
  selection_timer_callback, filter_event, filter_step, publication_receive, feed_chunks,
  input_override_begin, input_override_feed, input_override_close, input_override_flush,
  input_override_finish, int_max,
}
use esp32_wifi_gnss.Gnss.Pipeline.Steps.{
  Step, uart, timer, filters, receives, begins, feeds, closes, flushes, finishes, clears, IsInitial,
  Reach, here, next,
}
use esp32_wifi_gnss.Gnss.Pipeline.Genuine.{
  IsSent, IsPublishable, PipelineInv, feed_parser-PipelineInv, candidate-PipelineInv,
  timer-PipelineInv, control_member-PipelineInv,
}

module _ (rtos : Rtos) where
  open rtos use {items, capacity, receive, receive-items, select}

  -- The fields that the invariant does not speak of may change.
  pub rest-PipelineInv :
      (g h : Pipeline rtos)
      → PipelineInv rtos g
      → h.parser_state ≡ g.parser_state
      → h.candidate_queue ≡ g.candidate_queue
      → h.filter ≡ g.filter
      → h.publication_queue ≡ g.publication_queue
      → PipelineInv rtos h
  rest-PipelineInv g h v ep ec ef eq = record {
    parser = subst ParserInv (sym ep) v.parser;
    queued =
        subst (λ q. All IsSent (items q) × (length (items q) ≤ 8) × (capacity q ≡ 8)) (sym ec)
          v.queued;
    best = subst (λ f. f.has_best_candidate ≡ true → IsSent f.best_candidate) (sym ef) v.best;
    published = subst (λ q. All IsPublishable (items q)) (sym eq) v.published;
  }

  -- A cleared parser keeps it too.
  cleared-PipelineInv :
      (g h : Pipeline rtos)
      → PipelineInv rtos g
      → h.parser_state ≡ cleared_parser
      → h.candidate_queue ≡ g.candidate_queue
      → h.filter ≡ g.filter
      → h.publication_queue ≡ g.publication_queue
      → PipelineInv rtos h
  cleared-PipelineInv g h v ep ec ef eq =
      rest-PipelineInv (record g { parser_state = cleared_parser }) h
        (record {
          parser = cleared-ParserInv;
          queued = v.queued;
          best = v.best;
          published = v.published;
        })
        ep ec ef eq

  event-PipelineInv :
      (m : Member) (g : Pipeline rtos)
      → PipelineInv rtos g
      → PipelineInv rtos (filter_event rtos m g)
  event-PipelineInv candidate_member g v = candidate-PipelineInv rtos g v
  event-PipelineInv timer_member g v = timer-PipelineInv rtos g v
  event-PipelineInv control_member g v = control_member-PipelineInv rtos g v

  filter_step-PipelineInv :
      (g : Pipeline rtos) → PipelineInv rtos g → PipelineInv rtos (filter_step rtos g)
  unfolding filter_step
  filter_step-PipelineInv g v = elim (Option-cases (select g.filter_queue_set)) [
    | inl e ↦ rw (e, filter_step) v
    | inr ((ready, set), e) ↦
        rw (e, filter_step)
          (event-PipelineInv ready (record g { filter_queue_set = set })
            (rest-PipelineInv g _ v refl refl refl refl))
  ]

  either-PipelineInv :
      {A : Type 0} (b : Bool) (x y : A × Pipeline rtos)
      → PipelineInv rtos x.1
      → PipelineInv rtos y.1
      → PipelineInv rtos (if b then x else y).1
  either-PipelineInv true x y v w = v
  either-PipelineInv false x y v w = w

  feed_chunks-PipelineInv :
      (limit rounds : ℕ) (bytes : Bytes) (g : Pipeline rtos)
      → PipelineInv rtos g
      → PipelineInv rtos (feed_chunks (feed_parser rtos) limit rounds bytes g)
  unfolding feed_chunks
  feed_chunks-PipelineInv limit zero bytes g v = v
  feed_chunks-PipelineInv limit (suc rounds) [] g v = v
  feed_chunks-PipelineInv limit (suc rounds) (b ∷ bytes) g v =
      feed_chunks-PipelineInv limit rounds _ _ (feed_parser-PipelineInv rtos _ g v)

  override_feed-PipelineInv :
      (g : Pipeline rtos) (bytes : Option Bytes) (len : ℕ)
      → PipelineInv rtos g
      → PipelineInv rtos (input_override_feed rtos g bytes len).1
  unfolding input_override_feed
  override_feed-PipelineInv g none zero v =
      either-PipelineInv (not g.input_override_active || g.input_override_closing) _ _ v v
  override_feed-PipelineInv g none (suc len) v = v
  override_feed-PipelineInv g (some bytes) len v =
      either-PipelineInv (not g.input_override_active || g.input_override_closing) _ _ v
        (feed_chunks-PipelineInv int_max len (take len bytes) g v)

  pub receive-PipelineInv :
      (g : Pipeline rtos) → PipelineInv rtos g → PipelineInv rtos (publication_receive rtos g).1
  unfolding publication_receive
  receive-PipelineInv g v = elim (receive-items g.publication_queue) [
    | inl (none_left, e) ↦ rw (e, publication_receive) v
    | inr (p, q, listed, e, kept) ↦
        rw (e, publication_receive)
          (record {
            parser = v.parser;
            queued = v.queued;
            best = v.best;
            published = (subst (All IsPublishable) listed v.published).1;
          })
  ]

  pub Step-PipelineInv :
      {g h : Pipeline rtos} → Step rtos g h → PipelineInv rtos g → PipelineInv rtos h
  unfolding uart_input_feed selection_timer_callback input_override_begin input_override_close
      input_override_flush input_override_finish
  Step-PipelineInv {g} (uart bytes) v = elim (Bool-cases (not g.input_override_active)) [
    | inl e ↦ rw e (feed_parser-PipelineInv rtos bytes g v)
    | inr e ↦ rw e v
  ]
  Step-PipelineInv {g} timer v = rest-PipelineInv g _ v refl refl refl refl
  Step-PipelineInv {g} filters v = filter_step-PipelineInv g v
  Step-PipelineInv {g} receives v = receive-PipelineInv g v
  Step-PipelineInv {g} begins v =
      either-PipelineInv g.input_override_active _ _ v
        (cleared-PipelineInv g _ v refl refl refl refl)
  Step-PipelineInv {g} (feeds bytes len) v = override_feed-PipelineInv g bytes len v
  Step-PipelineInv {g} closes v =
      either-PipelineInv (g.input_override_active && not g.input_override_closing) _ _
        (rest-PipelineInv g _ v refl refl refl refl) v
  Step-PipelineInv {g} (flushes control) v = rest-PipelineInv g _ v refl refl refl refl
  Step-PipelineInv {g} finishes v = cleared-PipelineInv g _ v refl refl refl refl
  Step-PipelineInv {g} clears v = cleared-PipelineInv g _ v refl refl refl refl

  pub initial-PipelineInv : (g : Pipeline rtos) → IsInitial rtos g → PipelineInv rtos g
  initial-PipelineInv g i = record {
    parser = subst ParserInv (sym i.parser) cleared-ParserInv;
    queued = (
      subst (All IsSent) (sym i.no_candidates) tt,
      omega (arith, ap length i.no_candidates),
      i.eight,
    );
    best = λ h. cc;
    published = subst (All IsPublishable) (sym i.no_publication) tt;
  }

  pub Reach-PipelineInv :
      {start g : Pipeline rtos} → IsInitial rtos start → Reach rtos start g → PipelineInv rtos g
  Reach-PipelineInv i here = initial-PipelineInv _ i
  Reach-PipelineInv i (next r s) = Step-PipelineInv s (Reach-PipelineInv i r)

  -- In every state that the tasks reach from the initial one, in any interleaving, with any bytes
  -- from either source, each publication in the queue holds the two lines of one candidate: a GGA
  -- line with a valid checksum and an accepted HDOP, and an RMC line with a valid checksum.
  reached-IsPublishable :
      {start g : Pipeline rtos}
      → IsInitial rtos start
      → Reach rtos start g
      → All IsPublishable (items g.publication_queue)
  reached-IsPublishable i r = (Reach-PipelineInv i r).published
