-- ===== src/Http/Write/Flushed.antt =====
-- What the writer of main/http_stream.c can rely on in every state that is reached.
use esp32_wifi_gnss.Prelude.{
  ℕ, ◌≡◌, inl, inr, refl, sym, ap, subst, true, false, not, some, List, [], ◌∷◌, Bytes, length,
  if◌then◌else◌,
}
use esp32_wifi_gnss.Rtos.{Rtos}
use esp32_wifi_gnss.Esp.{EspErr, esp_ok}
use esp32_wifi_gnss.Gnss.Parser.Invariant.{cleared-ParserInv}
use esp32_wifi_gnss.Gnss.Pipeline.{
  Pipeline, Member, control_member, feed_parser, uart_input_feed, publication_receive, parser_clear,
  input_override_begin, input_override_feed, input_override_close,
}
use esp32_wifi_gnss.Http.Write.{
  WriterPhase, no_writer, receiving, ending, flushing, awaiting, answering,
}
use esp32_wifi_gnss.Http.Write.Sync.{Sync, fed-parts}
use esp32_wifi_gnss.Http.Write.Filters.{filter_step-Sync}
use esp32_wifi_gnss.Http.Write.Timer.{timer-Sync, same-Sync}
use esp32_wifi_gnss.Http.Write.Handshake.{begin-idle, feed-open, close-open, flush_of}
use esp32_wifi_gnss.Http.Write.Taken.{TakesFlush, takes_flush}
use esp32_wifi_gnss.Http.Write.Run.{
  WriteStep, uart_feeds, timer_expires, filter_runs, dispatcher_takes, init_clears, writer_begins,
  writer_receives, writer_closes, writer_flushes, writer_finishes, writer_leaves, WriteRun, at_boot,
  and_then, IsQuiet, quiet-Sync,
}
use esp32_wifi_gnss.Http.Write.Calls.{
  begin-Sync, round-Sync, close-Sync, flush-Sync, finish-Sync, acknowledged,
}

module _ (rtos : Rtos) where
  open rtos use {
    items, count, pending, take_sem, taken, receive, receive-items, select, select-pending,
  }

  uart-active :
      (bytes : Bytes) (g : Pipeline rtos)
      → g.input_override_active ≡ true
      → uart_input_feed rtos g bytes ≡ g
  unfolding uart_input_feed
  uart-active bytes g e = ap (λ b. if not b then feed_parser rtos bytes g else g) e

  uart-idle :
      (bytes : Bytes) (g : Pipeline rtos)
      → g.input_override_active ≡ false
      → uart_input_feed rtos g bytes ≡ feed_parser rtos bytes g
  unfolding uart_input_feed
  uart-idle bytes g e = ap (λ b. if not b then feed_parser rtos bytes g else g) e

  uart-Sync :
      (phase : WriterPhase) (bytes : Bytes) (g : Pipeline rtos)
      → Sync rtos phase g
      → Sync rtos phase (uart_input_feed rtos g bytes)
  unfolding feed_parser
  uart-Sync no_writer bytes g v =
      let (p, m) = fed-parts rtos bytes g v.parser v.marked in
      subst (Sync rtos no_writer) (sym (uart-idle bytes g v.active))
        (record { parser = p; active = v.active; closing = v.closing; marked = m; flush = v.flush })
  uart-Sync (answering result) bytes g v =
      let (p, m) = fed-parts rtos bytes g v.parser v.marked in
      subst (Sync rtos (answering result)) (sym (uart-idle bytes g v.active))
        (record { parser = p; active = v.active; closing = v.closing; marked = m; flush = v.flush })
  uart-Sync (receiving left) bytes g v =
      subst (Sync rtos (receiving left)) (sym (uart-active bytes g v.active)) v
  uart-Sync (ending result) bytes g v =
      subst (Sync rtos (ending result)) (sym (uart-active bytes g v.active)) v
  uart-Sync (flushing result control) bytes g v =
      subst (Sync rtos (flushing result control)) (sym (uart-active bytes g v.active)) v
  uart-Sync (awaiting result) bytes g v =
      subst (Sync rtos (awaiting result)) (sym (uart-active bytes g v.active)) v

  receive-Sync :
      (phase : WriterPhase) (g : Pipeline rtos)
      → Sync rtos phase g
      → Sync rtos phase (publication_receive rtos g).1
  unfolding publication_receive
  receive-Sync phase g v = elim (receive-items g.publication_queue) [
    | inl (none_left, r) ↦ rw (r, publication_receive) v
    | inr (p, q, listed, r, kept) ↦
        rw (r, publication_receive)
          (same-Sync rtos phase g (record g { publication_queue = q }) v.parser refl refl refl refl
            refl refl refl (λ h. h) v)
  ]

  WriteStep-Sync :
      {p : WriterPhase} {g : Pipeline rtos} {q : WriterPhase} {h : Pipeline rtos}
      → WriteStep rtos p g q h
      → Sync rtos p g
      → Sync rtos q h
  WriteStep-Sync {p} {g} (uart_feeds bytes) v = uart-Sync p bytes g v
  WriteStep-Sync {p} {g} timer_expires v = timer-Sync rtos p g v
  WriteStep-Sync {p} {g} filter_runs v = filter_step-Sync rtos p g v
  WriteStep-Sync {p} {g} dispatcher_takes v = receive-Sync p g v
  WriteStep-Sync {p} {g} init_clears v =
      same-Sync rtos p g (parser_clear rtos g) cleared-ParserInv refl refl refl refl refl refl refl
        (λ h. h) v
  WriteStep-Sync {g = g} (writer_begins content_len) v = begin-Sync rtos content_len g v
  WriteStep-Sync {g = g} (writer_receives remaining received asked) v =
      round-Sync rtos remaining received g v
  WriteStep-Sync {g = g} (writer_closes result) v = close-Sync rtos result g v
  WriteStep-Sync {g = g} (writer_flushes result control) v = flush-Sync rtos result control g v
  WriteStep-Sync {g = g} (writer_finishes result got) v = finish-Sync rtos result g v got
  WriteStep-Sync (writer_leaves result) v = record {
    parser = v.parser;
    active = v.active;
    closing = v.closing;
    marked = v.marked;
    flush = v.flush;
  }

  pub WriteRun-Sync :
      {start : Pipeline rtos} {p : WriterPhase} {g : Pipeline rtos}
      → IsQuiet rtos start
      → WriteRun rtos start p g
      → Sync rtos p g
  WriteRun-Sync i at_boot = quiet-Sync rtos _ i
  WriteRun-Sync i (and_then step run) = WriteStep-Sync step (WriteRun-Sync i run)

  -- However the writer, both inputs, the timer and the filter interleave while the writer waits for the
  -- acknowledgement of its flush: the round of the filter that takes the flush finds no candidate left
  -- in the queue, publishes the candidate that the filter holds for the current source, if it holds
  -- one, under the next sequence number, and gives the acknowledgement; and whenever the writer can
  -- take the acknowledgement, no candidate is left in the queue, the filter holds none back, and no
  -- other control event is queued. So of what the upload has put into the queue nothing is left for a
  -- window of UART2.
  pub flush_is_complete :
      {start g : Pipeline rtos} (result : EspErr)
      → IsQuiet rtos start
      → WriteRun rtos start (awaiting result) g
      → ((rest : List Member)
          → pending g.filter_queue_set ≡ control_member ∷ rest
          → TakesFlush rtos g)
        × ((take_sem g.override_flush_done).0 ≡ true
            → (items g.candidate_queue ≡ [])
              × (g.filter.has_best_candidate ≡ false)
              × (items g.filter_control_queue ≡ []))
  flush_is_complete {start} {g} result i run =
      let v = WriteRun-Sync i run in
      (
        λ rest next. takes_flush rtos result g rest v next,
        λ got.
            let a = acknowledged rtos result g v got in (a.no_candidate, a.no_best, a.no_control),
      )

  -- In every state that is reached, `gnss_input_override_begin` succeeds for a new writer,
  -- `gnss_input_override_feed` takes whatever a writer in its loop feeds, a writer that leaves its
  -- loop has a flush of its own source generation to send, and a writer that answers has given the
  -- override back. The error branches of these functions are not reached.
  pub writer_is_not_refused :
      {start g : Pipeline rtos} {p : WriterPhase} (bytes : Bytes)
      → IsQuiet rtos start
      → WriteRun rtos start p g
      → (p ≡ no_writer → (input_override_begin rtos g).0 ≡ esp_ok)
        × ((remaining : ℕ)
            → p ≡ receiving remaining
            → (input_override_feed rtos g (some bytes) (length bytes)).0 ≡ esp_ok)
        × ((result : EspErr)
            → p ≡ ending result
            → (input_override_close rtos g).0 ≡ some (flush_of rtos g))
        × ((result : EspErr) → p ≡ answering result → g.input_override_active ≡ false)
  writer_is_not_refused {start} {g} {p} bytes i run =
      let v = WriteRun-Sync i run in
      (
        λ e. ap (λ r. r.0) (begin-idle rtos g (subst (λ q. Sync rtos q g) e v).active),
        λ remaining e.
            let w = subst (λ q. Sync rtos q g) e v in
            ap (λ r. r.0) (feed-open rtos bytes g w.active w.closing),
        λ result e.
            let w = subst (λ q. Sync rtos q g) e v in
            ap (λ r. r.0) (close-open rtos g w.active w.closing),
        λ result e. (subst (λ q. Sync rtos q g) e v).active,
      )
