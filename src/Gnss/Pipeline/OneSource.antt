-- ===== src/Gnss/Pipeline/OneSource.antt =====
-- The lines of a publication of main/gnss.c come from one session of one source.
use esp32_wifi_gnss.Prelude.{
  zero, suc, refl, sym, subst, not, ◌&&◌, ◌||◌, Option, none, some, [], ◌∷◌, All, length-take, take,
  inl, inr, either, on_test₂, arith,
}
use esp32_wifi_gnss.Rtos.{Rtos}
use esp32_wifi_gnss.Esp.{EspErr}
use esp32_wifi_gnss.Gnss.{FilterControl}
use esp32_wifi_gnss.Gnss.Parser.Heard.{Fed, cleared-Fed}
use esp32_wifi_gnss.Gnss.Pipeline.{
  Pipeline, uart_input_feed, selection_timer_callback, publication_receive, input_override_begin,
  input_override_feed, input_override_close, input_override_flush, input_override_finish, int_max,
}
use esp32_wifi_gnss.Gnss.Pipeline.Feed.{feed_chunks-feed_parser}
use esp32_wifi_gnss.Gnss.Pipeline.Steps.{
  Step, uart, timer, filters, receives, begins, feeds, closes, flushes, finishes, clears, IsInitial,
  Reach, here, next,
}
use esp32_wifi_gnss.Gnss.Pipeline.Genuine.{PipelineInv}
use esp32_wifi_gnss.Gnss.Pipeline.Safety.{Reach-PipelineInv}
use esp32_wifi_gnss.Gnss.Pipeline.Sessions.{
  Sessions, extend, InOne, IsOfOneSource, step_sessions, sessions,
}
use esp32_wifi_gnss.Gnss.Pipeline.Origin.{
  OriginInv, rest-OriginInv, cleared-OriginInv, feed-OriginInv, filter_step-OriginInv,
}

module _ (rtos : Rtos) where
  open rtos use {items, receive-items}

  pub receive-OriginInv :
      (ss : Sessions) (g : Pipeline rtos)
      → OriginInv rtos ss g
      → OriginInv rtos ss (publication_receive rtos g).1
  unfolding publication_receive
  receive-OriginInv ss g o = elim (receive-items g.publication_queue) [
    | inl (none_left, e) ↦ rw (e, publication_receive) o
    | inr (p, q, listed, e, kept) ↦
        rw (e, publication_receive)
          (record {
            fed = o.fed;
            queued = o.queued;
            best = o.best;
            published = (subst (All (IsOfOneSource ss)) listed o.published).1;
          })
  ]

  pub Step-OriginInv :
      {g h : Pipeline rtos} (ss : Sessions) (s : Step rtos g h)
      → PipelineInv rtos g
      → OriginInv rtos ss g
      → OriginInv rtos (step_sessions rtos s ss) h
  unfolding uart_input_feed selection_timer_callback input_override_begin input_override_feed
      input_override_close input_override_flush input_override_finish
  Step-OriginInv {g} ss (uart bytes) v o =
      on_test₂ (OriginInv rtos) (not g.input_override_active) _ _ _ _
        (λ _. feed-OriginInv rtos bytes ss g v o) (λ _. o)
  Step-OriginInv {g} ss timer v o = rest-OriginInv rtos ss g _ refl refl refl refl o
  Step-OriginInv {g} ss filters v o = filter_step-OriginInv rtos ss g v o
  Step-OriginInv {g} ss receives v o = receive-OriginInv ss g o
  Step-OriginInv {g} ss begins v o =
      on_test₂ (λ more (r : EspErr × Pipeline rtos). OriginInv rtos more r.1)
        g.input_override_active _ _ _ _ (λ _. o)
        (λ _. cleared-OriginInv rtos ss g _ refl refl refl refl o)
  Step-OriginInv {g} ss (feeds none zero) v o =
      either (λ (r : EspErr × Pipeline rtos). OriginInv rtos ss r.1)
        (not g.input_override_active || g.input_override_closing) _ _ o o
  Step-OriginInv {g} ss (feeds none (suc len)) v o = o
  Step-OriginInv {g} ss (feeds (some bytes) len) v o =
      on_test₂ (λ more (r : EspErr × Pipeline rtos). OriginInv rtos more r.1)
        (not g.input_override_active || g.input_override_closing) _ _ _ _ (λ _. o)
        (λ _.
          subst (OriginInv rtos (extend (take len bytes) ss))
            (sym (
              feed_chunks-feed_parser rtos int_max len (take len bytes) g (omega arith)
                (omega (arith, length-take len bytes))))
            (feed-OriginInv rtos (take len bytes) ss g v o))
  Step-OriginInv {g} ss closes v o =
      either (λ (r : Option FilterControl × Pipeline rtos). OriginInv rtos ss r.1)
        (g.input_override_active && not g.input_override_closing) _ _
        (rest-OriginInv rtos ss g _ refl refl refl refl o) o
  Step-OriginInv {g} ss (flushes control) v o = rest-OriginInv rtos ss g _ refl refl refl refl o
  Step-OriginInv {g} ss finishes v o = cleared-OriginInv rtos ss g _ refl refl refl refl o
  Step-OriginInv {g} ss clears v o = cleared-OriginInv rtos ss g _ refl refl refl refl o

  pub initial-OriginInv : (g : Pipeline rtos) → IsInitial rtos g → OriginInv rtos ([] ∷ []) g
  initial-OriginInv g i = record {
    fed = subst (Fed []) (sym i.parser) cleared-Fed;
    queued = subst (All (λ c. InOne c ([] ∷ []))) (sym i.no_candidates) tt;
    best = λ h. absurd (cc (h, i.no_best));
    published = subst (All (IsOfOneSource ([] ∷ []))) (sym i.no_publication) tt;
  }

  Reach-OriginInv :
      {start g : Pipeline rtos}
      → IsInitial rtos start
      → (r : Reach rtos start g) → OriginInv rtos (sessions rtos r) g
  Reach-OriginInv i here = initial-OriginInv _ i
  Reach-OriginInv i (next r s) =
      Step-OriginInv (sessions rtos r) s (Reach-PipelineInv rtos i r) (Reach-OriginInv i r)

  -- A publication never mixes sources. In every state that the tasks reach from the initial one, in
  -- any interleaving, with any bytes from the UART and from uploads that begin, are fed, close and
  -- end at any time, each publication in the queue is a GGA line with a valid checksum and an
  -- accepted HDOP, and then an RMC line with a valid checksum, and the two stand byte for byte and
  -- in this order in what one session of one source has sent: in one run of the UART between
  -- uploads, or in one upload.
  pub publication_from_one_source :
      {start g : Pipeline rtos}
      → IsInitial rtos start
      → (r : Reach rtos start g) → All (IsOfOneSource (sessions rtos r)) (items g.publication_queue)
  publication_from_one_source i r = (Reach-OriginInv i r).published
