-- ===== src/Http/Write/Sync.antt =====
-- What the writer of main/http_stream.c and the pipeline of main/gnss.c know of each other.
use esp32_wifi_gnss.Prelude.{
  ℕ, ◌≤◌, ◌≡◌, ◌⊎◌, inl, inr, sym, ap, ◌∙◌, Bool, true, false, [], ◌∷◌, Bytes, length,
  length-append, ltb, arith, Bool-cases,
}
use esp32_wifi_gnss.Rtos.{Rtos, send_member, items-send_room, items-send_full}
use esp32_wifi_gnss.Gnss.{Candidate, FilterControl}
use esp32_wifi_gnss.Gnss.Parser.Bounds.{parser_feed-Kept}
use esp32_wifi_gnss.Gnss.Parser.Invariant.{ParserInv}
use esp32_wifi_gnss.Gnss.Pipeline.{Pipeline, Sink, candidate_member, candidate_send, feed_parser}
use esp32_wifi_gnss.Http.Write.{WriterPhase, no_writer, flushing, awaiting, answering}
use esp32_wifi_gnss.Http.Write.Marks.{
  candidates_in, controls_in, behind_control, candidates_in-append, controls_in-append,
}

-- The phases in which the override is active, and those in which it closes.
abbrev pub is_active : WriterPhase → Bool
is_active no_writer = false
is_active (answering result) = false
is_active _ = true

abbrev pub is_closing : WriterPhase → Bool
is_closing (flushing result control) = true
is_closing (awaiting result) = true
is_closing _ = false

module _ (rtos : Rtos) where
  open rtos use {
    Queue, QueueSet, items, capacity, count, limit, pending, mark, send, items-send, sent-send,
    pending-mark,
  }

  -- The flush is in the queue, and no candidate is marked behind it.
  pub record Waiting (g : Pipeline rtos) : Type 0 where
    pub flush : FilterControl
    pub listed : items g.filter_control_queue ≡ flush ∷ []
    pub same_epoch : flush.input_epoch ≡ g.input_epoch
    pub no_answer : count g.override_flush_done ≡ 0
    pub last : behind_control (pending g.filter_queue_set) ≡ 0

  -- The flush is acknowledged; the filter holds nothing back.
  pub record Acknowledged (g : Pipeline rtos) : Type 0 where
    pub answered : count g.override_flush_done ≡ 1
    pub no_control : items g.filter_control_queue ≡ []
    pub no_candidate : items g.candidate_queue ≡ []
    pub no_best : g.filter.has_best_candidate ≡ false

  abbrev pub Flush : WriterPhase → Pipeline rtos → Type 0
  Flush (awaiting result) g = Waiting g ⊎ Acknowledged g
  Flush (flushing result control) g =
      (items g.filter_control_queue ≡ []) × (control.input_epoch ≡ g.input_epoch)
  Flush _ g = items g.filter_control_queue ≡ []

  -- The marks in the set are the items in the queues.
  pub record Marked (g : Pipeline rtos) : Type 0 where
    pub candidates : candidates_in (pending g.filter_queue_set) ≡ length (items g.candidate_queue)
    pub controls : controls_in (pending g.filter_queue_set) ≡ length (items g.filter_control_queue)
    pub one_control : capacity g.filter_control_queue ≡ 1
    pub binary : limit g.override_flush_done ≡ 1
    pub flag : count g.override_flush_done ≤ 1

  pub record Sync (phase : WriterPhase) (g : Pipeline rtos) : Type 0 where
    pub parser : ParserInv g.parser_state
    pub active : g.input_override_active ≡ is_active phase
    pub closing : g.input_override_closing ≡ is_closing phase
    pub marked : Marked g
    pub flush : Flush phase g

  -- What feeding the parser does to the queue of candidates and the set.
  abbrev SinkOk : ℕ → Sink rtos → Type 0
  SinkOk controls s =
      (candidates_in (pending s.1) ≡ length (items s.0)) × (controls_in (pending s.1) ≡ controls)

  candidate_send-SinkOk :
      (controls : ℕ) (s : Sink rtos) (c : Candidate)
      → SinkOk controls s
      → SinkOk controls (candidate_send rtos s c)
  unfolding candidate_send send_member
  candidate_send-SinkOk controls (q, set) c ok =
      elim (Bool-cases (ltb (length (items q)) (capacity q))) [
        | inl room ↦
            let e = items-send_room rtos q c room in
            rw (sent-send q c ∙ room, candidate_send, send_member)
              (
                ap candidates_in (pending-mark set candidate_member)
                    ∙ omega (
                      arith,
                      candidates_in-append (pending set) (candidate_member ∷ []),
                      ap length e,
                      length-append (items q) (c ∷ []),
                      ok.0,
                    ),
                ap controls_in (pending-mark set candidate_member)
                    ∙ omega (arith, controls_in-append (pending set) (candidate_member ∷ []), ok.1),
              )
        | inr full ↦
            rw (sent-send q c ∙ full, candidate_send, send_member)
              (ok.0 ∙ ap length (sym (items-send_full rtos q c full)), ok.1)
      ]

  -- The parser may be fed in a phase that asks nothing of the candidates.
  pub fed-parts :
      (bytes : Bytes) (g : Pipeline rtos)
      → ParserInv g.parser_state
      → Marked g
      → ParserInv (feed_parser rtos bytes g).parser_state × Marked (feed_parser rtos bytes g)
  unfolding feed_parser
  fed-parts bytes g p m =
      let k =
        parser_feed-Kept (candidate_send rtos) g.input_epoch
          (SinkOk (length (items g.filter_control_queue)))
          (λ s c gen ok. candidate_send-SinkOk _ s c ok) bytes g.parser_state
          (g.candidate_queue, g.filter_queue_set) p (m.candidates, m.controls) in
      (
        k.0,
        record {
          candidates = k.1.0;
          controls = k.1.1;
          one_control = m.one_control;
          binary = m.binary;
          flag = m.flag;
        },
      )
