-- ===== src/Gnss/Pipeline/Steps.antt =====
-- The tasks of the GNSS pipeline, interleaved in any order, over any kernel that keeps the laws of
-- `Rtos`. The HTTP writer may call the override functions at any time and in any order.
use esp32_wifi_gnss.Prelude.{ℕ, ◌≡◌, false, Option, [], Bytes}
use esp32_wifi_gnss.Rtos.{Rtos}
use esp32_wifi_gnss.Gnss.{FilterControl, cleared_parser}
use esp32_wifi_gnss.Gnss.Pipeline.{
  Pipeline, uart_input_feed, selection_timer_callback, filter_step, publication_receive,
  input_override_begin, input_override_feed, input_override_close, input_override_flush,
  input_override_finish, parser_clear,
}

module _ (rtos : Rtos) where
  open rtos use {items, capacity}

  pub data Step (g : Pipeline rtos) : Pipeline rtos → Type 0 where
    uart : (bytes : Bytes) → Step g (uart_input_feed rtos g bytes)
    timer : Step g (selection_timer_callback rtos g)
    filters : Step g (filter_step rtos g)
    receives : Step g (publication_receive rtos g).1
    begins : Step g (input_override_begin rtos g).1
    feeds : (bytes : Option Bytes) (len : ℕ) → Step g (input_override_feed rtos g bytes len).1
    closes : Step g (input_override_close rtos g).1
    flushes : (control : FilterControl) → Step g (input_override_flush rtos g control)
    finishes : Step g (input_override_finish rtos g)
    clears : Step g (parser_clear rtos g)

  -- The static initialisers, `gnss_stack_init` and the start of the filter task: empty queues of the
  -- configured lengths.
  pub record IsInitial (g : Pipeline rtos) : Type 0 where
    pub no_candidates : items g.candidate_queue ≡ []
    pub eight : capacity g.candidate_queue ≡ 8
    pub no_publication : items g.publication_queue ≡ []
    pub parser : g.parser_state ≡ cleared_parser
    pub no_best : g.filter.has_best_candidate ≡ false
    pub first_sequence : g.filter.next_sequence ≡ 1
    pub first_epoch : g.input_epoch ≡ 1
    pub no_override : g.input_override_active ≡ false

  pub data Reach (start : Pipeline rtos) : Pipeline rtos → Type 0 where
    here : Reach start start
    next : {g h : Pipeline rtos} → Reach start g → Step g h → Reach start h
