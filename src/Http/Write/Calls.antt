-- ===== src/Http/Write/Calls.antt =====
-- The calls of the writer, and what they keep.
use esp32_wifi_gnss.Prelude.{
  ℕ, zero, suc, ◌-◌, ◌≡◌, inl, inr, refl, sym, ap, ◌∙◌, subst, true, false, [], ◌∷◌, ◌++◌, Bytes,
  length, length-append, ltb, arith,
}
use esp32_wifi_gnss.Rtos.{Rtos, send_member, items-send_room}
use esp32_wifi_gnss.Esp.{EspErr}
use esp32_wifi_gnss.Socket.{Received, timed_out, closed, data_in}
use esp32_wifi_gnss.Gnss.{FilterControl}
use esp32_wifi_gnss.Gnss.Parser.Invariant.{ParserInv, cleared-ParserInv}
use esp32_wifi_gnss.Gnss.Pipeline.{
  Pipeline, control_member, feed_parser, input_override_flush, input_override_finish,
}
use esp32_wifi_gnss.Http.Write.{
  WriterPhase, no_writer, receiving, ending, flushing, awaiting, answering, write_loop, write_begin,
  write_round, write_feed, write_close,
}
use esp32_wifi_gnss.Http.Write.Marks.{
  candidates_in, controls_in, behind_control, candidates_in-append, controls_in-append,
  behind_control-control,
}
use esp32_wifi_gnss.Http.Write.Sync.{Acknowledged, Marked, Sync, fed-parts}
use esp32_wifi_gnss.Http.Write.Handshake.{
  begun, write_begin-idle, write_feed-open, write_close-open,
}

module _ (rtos : Rtos) where
  open rtos use {
    Queue, items, capacity, count, limit, pending, mark, send, sent-send, capacity-send,
    pending-mark, take_sem, taken, count-take, limit-take, receive, receive-items,
  }

  -- Behind `write_loop` the override is open, whether bytes are left or not.
  pub loop-Sync :
      (n : ℕ) (g : Pipeline rtos)
      → ParserInv g.parser_state
      → g.input_override_active ≡ true
      → g.input_override_closing ≡ false
      → Marked rtos g
      → items g.filter_control_queue ≡ []
      → Sync rtos (write_loop n) g
  loop-Sync zero g p ea ec m f = record {
    parser = p;
    active = ea;
    closing = ec;
    marked = m;
    flush = f;
  }
  loop-Sync (suc n) g p ea ec m f = record {
    parser = p;
    active = ea;
    closing = ec;
    marked = m;
    flush = f;
  }

  abbrev pub SyncPair : WriterPhase × Pipeline rtos → Type 0
  SyncPair t = Sync rtos t.0 t.1

  pub begin-Sync :
      (content_len : ℕ) (g : Pipeline rtos)
      → Sync rtos no_writer g
      → SyncPair (write_begin rtos content_len g)
  begin-Sync content_len g v = subst SyncPair (sym (write_begin-idle rtos content_len g v.active)) (
      loop-Sync content_len (begun rtos g) cleared-ParserInv refl refl
        (record {
          candidates = v.marked.candidates;
          controls = v.marked.controls;
          one_control = v.marked.one_control;
          binary = v.marked.binary;
          flag = v.marked.flag;
        })
        v.flush)

  pub feed-Sync :
      (remaining : ℕ) (bytes : Bytes) (g : Pipeline rtos)
      → Sync rtos (receiving remaining) g
      → SyncPair (write_feed rtos remaining bytes g)
  unfolding feed_parser
  feed-Sync remaining bytes g v =
      let (p, m) = fed-parts rtos bytes g v.parser v.marked in
      subst SyncPair (sym (write_feed-open rtos remaining bytes g v.active v.closing)) (
        loop-Sync (remaining - length bytes) (feed_parser rtos bytes g) p v.active v.closing m
          v.flush)

  pub round-Sync :
      (remaining : ℕ) (received : Received) (g : Pipeline rtos)
      → Sync rtos (receiving remaining) g
      → SyncPair (write_round rtos remaining received g)
  unfolding write_round
  round-Sync remaining timed_out g v = v
  round-Sync remaining closed g v = record {
    parser = v.parser;
    active = v.active;
    closing = v.closing;
    marked = v.marked;
    flush = v.flush;
  }
  round-Sync remaining (data_in []) g v = record {
    parser = v.parser;
    active = v.active;
    closing = v.closing;
    marked = v.marked;
    flush = v.flush;
  }
  round-Sync remaining (data_in (b ∷ bytes)) g v = feed-Sync remaining (b ∷ bytes) g v

  pub close-Sync :
      (result : EspErr) (g : Pipeline rtos)
      → Sync rtos (ending result) g
      → SyncPair (write_close rtos result g)
  close-Sync result g v =
      subst SyncPair (sym (write_close-open rtos result g v.active v.closing)) (record {
        parser = v.parser;
        active = v.active;
        closing = refl;
        marked = record {
          candidates = v.marked.candidates;
          controls = v.marked.controls;
          one_control = v.marked.one_control;
          binary = v.marked.binary;
          flag = v.marked.flag;
        };
        flush = (v.flush, refl);
      })

  pub flush-Sync :
      (result : EspErr) (control : FilterControl) (g : Pipeline rtos)
      → Sync rtos (flushing result control) g
      → Sync rtos (awaiting result) (input_override_flush rtos g control)
  unfolding input_override_flush send_member
  flush-Sync result control g v =
      let q = g.filter_control_queue in
      let set = g.filter_queue_set in
      let room : ltb (length (items q)) (capacity q) ≡ true =
        ground (arith, ap length v.flush.0, v.marked.one_control) in
      let e = items-send_room rtos q control room in
      rw (sent-send q control ∙ room, input_override_flush, send_member)
        (record {
          parser = v.parser;
          active = v.active;
          closing = v.closing;
          marked = record {
            candidates =
                ap candidates_in (pending-mark set control_member)
                ∙ omega (
                  arith,
                  candidates_in-append (pending set) (control_member ∷ []),
                  v.marked.candidates,
                );
            controls =
                ap controls_in (pending-mark set control_member)
                ∙ omega (
                  arith,
                  controls_in-append (pending set) (control_member ∷ []),
                  v.marked.controls,
                  ap length e,
                  length-append (items q) (control ∷ []),
                );
            one_control = capacity-send q control ∙ v.marked.one_control;
            binary = limit-take g.override_flush_done ∙ v.marked.binary;
            flag = omega (arith, count-take g.override_flush_done, v.marked.flag);
          };
          flush = inl (record {
            flush = control;
            listed = e ∙ ap (λ l. l ++ control ∷ []) v.flush.0;
            same_epoch = v.flush.1;
            no_answer = omega (arith, count-take g.override_flush_done, v.marked.flag);
            last =
                ap behind_control (pending-mark set control_member)
                ∙ behind_control-control (pending set)
                    (omega (arith, v.marked.controls, ap length v.flush.0));
          });
        })

  -- An acknowledgement that can be taken is there.
  pub acknowledged :
      (result : EspErr) (g : Pipeline rtos)
      → Sync rtos (awaiting result) g
      → (take_sem g.override_flush_done).0 ≡ true
      → Acknowledged rtos g
  acknowledged result g v got = elim v.flush [
    | inr a ↦ a
    | inl w ↦ absurd (ground (arith, got, taken g.override_flush_done, w.no_answer))
  ]

  pub finish-Sync :
      (result : EspErr) (g : Pipeline rtos)
      → Sync rtos (awaiting result) g
      → (take_sem g.override_flush_done).0 ≡ true
      → Sync rtos (answering result) (input_override_finish rtos g)
  unfolding input_override_finish
  finish-Sync result g v got = record {
    parser = cleared-ParserInv;
    active = refl;
    closing = refl;
    marked = record {
      candidates = v.marked.candidates;
      controls = v.marked.controls;
      one_control = v.marked.one_control;
      binary = limit-take g.override_flush_done ∙ v.marked.binary;
      flag = omega (arith, count-take g.override_flush_done, v.marked.flag);
    };
    flush = (acknowledged result g v got).no_control;
  }
