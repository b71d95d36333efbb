-- ===== src/Gnss/Pipeline.antt =====
-- The static variables of main/gnss.c and the functions that work on them. A section under the
-- parser's mutex is one step. Tasks and callbacks interleave as the steps of `Pipeline/Steps`.
pub mod Steps
pub mod Feed
pub mod Genuine
pub mod Safety
pub mod Sessions
pub mod Origin
pub mod OneSource
use esp32_wifi_gnss.Prelude.{
  ℕ, zero, suc, ◌+◌, ◌-◌, ◌^◌, min, Bool, true, false, not, ◌&&◌, ◌||◌, Option, none, some, List,
  [], ◌∷◌, Bytes, length, take, drop, ltb, ◌==◌, if◌then◌else◌,
}
use esp32_wifi_gnss.Rtos.{Rtos, send_member, overwrite_member}
use esp32_wifi_gnss.Esp.{EspErr, esp_ok, err_invalid_arg, err_invalid_state}
use esp32_wifi_gnss.Gnss.{
  ParserState, Candidate, Publication, FilterControlType, FilterControl, flush_override, u32,
  cleared_parser,
}
use esp32_wifi_gnss.Gnss.Parser.{parser_feed}
use esp32_wifi_gnss.Gnss.Filter.{FilterState, consider_candidate, publish_best_candidate}

-- The members of `s_filter_queue_set`.
pub data Member : Type 0 where
  candidate_member timer_member control_member : Member

unfoldable pub input_epoch_advance : ℕ → ℕ
input_epoch_advance epoch = let next = u32 (epoch + 1) in if next == 0 then u32 (next + 1) else next

abbrev pub int_max : ℕ
int_max = 2 ^ 31 - 1

-- The loop of `gnss_input_override_feed`: at most `limit` bytes a round. Each round takes a byte at
-- least, so as many rounds as there are bytes are enough.
module _ {S : Type 0} (feed : Bytes → S → S) (limit : ℕ) where
  unfoldable pub feed_chunks : ℕ → Bytes → S → S
  feed_chunks zero bytes s = s
  feed_chunks (suc rounds) [] s = s
  feed_chunks (suc rounds) (b ∷ bytes) s =
      let chunk_len = min (length (b ∷ bytes)) limit in
      feed_chunks rounds (drop chunk_len (b ∷ bytes)) (feed (take chunk_len (b ∷ bytes)) s)

module _ (rtos : Rtos) where
  open rtos use {
    Queue, items, capacity, send, overwrite, receive, Semaphore, take_sem, give_sem, QueueSet,
    select,
  }

  -- The variables `s_...`, and the local ones of the filter task.
  pub record Pipeline : Type 0 where
    pub candidate_queue : Queue Candidate
    pub timer_event_queue : Queue ℕ
    pub filter_control_queue : Queue FilterControl
    pub publication_queue : Queue Publication
    pub filter_queue_set : QueueSet Member
    pub override_flush_done : Semaphore
    pub parser_state : ParserState
    pub input_override_active : Bool
    pub input_override_closing : Bool
    pub input_epoch : ℕ  -- uint32_t
    pub filter : FilterState

  -- What `gnss_init_task` does with the parser before it scans.
  abbrev pub parser_clear : Pipeline → Pipeline
  parser_clear g = record g { parser_state = cleared_parser }

  -- What `gnss_candidate_send` changes. A full queue drops the newest pair.
  abbrev pub Sink : Type 0
  Sink = Queue Candidate × QueueSet Member

  unfoldable pub candidate_send : Sink → Candidate → Sink
  candidate_send (q, set) candidate =
      let (sent, q', set') = send_member rtos set candidate_member q candidate in (q', set')

  -- `nmea_parser_feed(&s_parser_state, data, len)`
  unfoldable pub feed_parser : Bytes → Pipeline → Pipeline
  feed_parser bytes g =
      let (state, sink) =
        parser_feed candidate_send g.input_epoch bytes
          (g.parser_state, (g.candidate_queue, g.filter_queue_set)) in
      record g { parser_state = state; candidate_queue = sink.0; filter_queue_set = sink.1 }

  unfoldable pub uart_input_feed : Pipeline → Bytes → Pipeline
  uart_input_feed g bytes = if not g.input_override_active then feed_parser bytes g else g

  unfoldable pub selection_timer_callback : Pipeline → Pipeline
  selection_timer_callback g =
      let (q, set) = overwrite_member rtos g.filter_queue_set timer_member g.timer_event_queue 1 in
      record g { timer_event_queue = q; filter_queue_set = set }

  abbrev pub consider : Pipeline → Candidate → Pipeline
  consider g candidate = record g { filter = consider_candidate g.input_epoch g.filter candidate }

  abbrev pub publish : Pipeline → Pipeline
  publish g =
      let (filter, q) =
        publish_best_candidate overwrite g.input_epoch (g.filter, g.publication_queue) in
      record g { filter = filter; publication_queue = q }

  -- The control event: only a flush of the current source publishes; the acknowledgement is given
  -- in any case.
  abbrev pub control_event : Pipeline → FilterControl → Pipeline
  control_event g control =
      let g' = if control.input_epoch == g.input_epoch then publish g else g in
      record g' { override_flush_done = give_sem g'.override_flush_done }

  -- The branches of the loop of `gnss_filter_task`.
  unfoldable pub filter_event : Member → Pipeline → Pipeline
  filter_event candidate_member g = elim (receive g.candidate_queue) [
    | none ↦ g
    | some (candidate, q) ↦ consider (record g { candidate_queue = q }) candidate
  ]
  filter_event timer_member g = elim (receive g.timer_event_queue) [
    | none ↦ publish g
    | some (expired, q) ↦ publish (record g { timer_event_queue = q })
  ]
  filter_event control_member g = elim (receive g.filter_control_queue) [
    | none ↦ g
    | some (control, q) ↦ control_event (record g { filter_control_queue = q }) control
  ]

  -- One round of that loop; the task waits while the set has no member ready.
  unfoldable pub filter_step : Pipeline → Pipeline
  unfolding filter_event
  filter_step g = elim (select g.filter_queue_set) [
    | none ↦ g
    | some (ready, set) ↦ filter_event ready (record g { filter_queue_set = set })
  ]

  -- `gnss_publication_receive`, with no wait.
  unfoldable pub publication_receive : Pipeline → Option Publication × Pipeline
  publication_receive g = elim (receive g.publication_queue) [
    | none ↦ (none, g)
    | some (publication, q) ↦ (some publication, record g { publication_queue = q })
  ]

  unfoldable pub input_override_begin : Pipeline → EspErr × Pipeline
  input_override_begin g = if g.input_override_active then (err_invalid_state, g) else (
    esp_ok,
    record g {
      input_override_active = true;
      input_override_closing = false;
      input_epoch = input_epoch_advance g.input_epoch;
      parser_state = cleared_parser;
    },
  )

  -- `data` is `none` for NULL.
  unfoldable pub input_override_feed : Pipeline → Option Bytes → ℕ → EspErr × Pipeline
  input_override_feed g none zero =
      if not g.input_override_active || g.input_override_closing
      then (err_invalid_state, g)
      else (esp_ok, g)
  input_override_feed g none (suc len) = (err_invalid_arg, g)
  input_override_feed g (some bytes) len =
      if not g.input_override_active || g.input_override_closing
      then (err_invalid_state, g)
      else (esp_ok, feed_chunks feed_parser int_max len (take len bytes) g)

  -- The first section of `gnss_input_override_end`, with `should_flush` and `control`.
  unfoldable pub input_override_close : Pipeline → Option FilterControl × Pipeline
  input_override_close g =
      if g.input_override_active && not g.input_override_closing
      then (
        some (record { control_type = flush_override; input_epoch = g.input_epoch }),
        record g { input_override_closing = true },
      )
      else (none, g)

  -- A stale acknowledgement is discarded, and the flush is sent.
  unfoldable pub input_override_flush : Pipeline → FilterControl → Pipeline
  input_override_flush g control =
      let (taken, done) = take_sem g.override_flush_done in
      let (sent, q, set) =
        send_member rtos g.filter_queue_set control_member g.filter_control_queue control in
      record g { override_flush_done = done; filter_control_queue = q; filter_queue_set = set }

  -- What follows the acknowledgement.
  unfoldable pub input_override_finish : Pipeline → Pipeline
  input_override_finish g =
      let (taken, done) = take_sem g.override_flush_done in
      record g {
        override_flush_done = done;
        input_override_active = false;
        input_override_closing = false;
        input_epoch = input_epoch_advance g.input_epoch;
        parser_state = cleared_parser;
      }
