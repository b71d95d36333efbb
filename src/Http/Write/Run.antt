-- ===== src/Http/Write/Run.antt =====
-- The writer of main/http_stream.c and the tasks of main/gnss.c, interleaved in any order.
use esp32_wifi_gnss.Prelude.{
  ℕ, ◌≤◌, ◌≡◌, min, sym, ap, subst, true, false, [], Bytes, length, arith,
}
use esp32_wifi_gnss.Rtos.{Rtos}
use esp32_wifi_gnss.Esp.{EspErr}
use esp32_wifi_gnss.Socket.{Received, data_in}
use esp32_wifi_gnss.Gnss.{FilterControl}
use esp32_wifi_gnss.Gnss.Parser.Invariant.{ParserInv, cleared-ParserInv}
use esp32_wifi_gnss.Gnss.Pipeline.{
  Pipeline, uart_input_feed, selection_timer_callback, filter_step, publication_receive,
  parser_clear, input_override_flush, input_override_finish,
}
use esp32_wifi_gnss.Gnss.Pipeline.Steps.{IsInitial}
use esp32_wifi_gnss.Http.Write.{
  WriterPhase, no_writer, receiving, ending, flushing, awaiting, answering, write_begin,
  write_round, write_close, http_write_buffer_size,
}
use esp32_wifi_gnss.Http.Write.Marks.{candidates_in, controls_in}
use esp32_wifi_gnss.Http.Write.Sync.{Sync}

-- At most as many bytes as were asked for.
abbrev Asked : ℕ → Received → Type 0
Asked remaining (data_in bytes) = length bytes ≤ min remaining http_write_buffer_size
Asked remaining received = Unit

module _ (rtos : Rtos) where
  open rtos use {
    Queue, items, capacity, count, limit, pending, mark, send, sent-send, capacity-send,
    pending-mark, take_sem, taken, count-take, limit-take, receive, receive-items,
  }

  pub data WriteStep : WriterPhase → Pipeline rtos → WriterPhase → Pipeline rtos → Type 0 where
    uart_feeds :
        {p : WriterPhase} {g : Pipeline rtos} (bytes : Bytes)
        → WriteStep p g p (uart_input_feed rtos g bytes)
    timer_expires :
        {p : WriterPhase} {g : Pipeline rtos} → WriteStep p g p (selection_timer_callback rtos g)
    filter_runs : {p : WriterPhase} {g : Pipeline rtos} → WriteStep p g p (filter_step rtos g)
    dispatcher_takes :
        {p : WriterPhase} {g : Pipeline rtos} → WriteStep p g p (publication_receive rtos g).1
    init_clears : {p : WriterPhase} {g : Pipeline rtos} → WriteStep p g p (parser_clear rtos g)
    writer_begins :
        {g : Pipeline rtos} (content_len : ℕ)
        → WriteStep no_writer g
            (write_begin rtos content_len g).0
            (write_begin rtos content_len g).1
    writer_receives :
        {g : Pipeline rtos} (remaining : ℕ) (received : Received)
        → Asked remaining received
        → WriteStep
            (receiving remaining)
            g
            (write_round rtos remaining received g).0
            (write_round rtos remaining received g).1
    writer_closes :
        {g : Pipeline rtos} (result : EspErr)
        → WriteStep (ending result) g (write_close rtos result g).0 (write_close rtos result g).1
    writer_flushes :
        {g : Pipeline rtos} (result : EspErr) (control : FilterControl)
        → WriteStep
            (flushing result control)
            g
            (awaiting result)
            (input_override_flush rtos g control)
    writer_finishes :
        {g : Pipeline rtos} (result : EspErr)
        → (take_sem g.override_flush_done).0 ≡ true
        → WriteStep (awaiting result) g (answering result) (input_override_finish rtos g)
    writer_leaves :
        {g : Pipeline rtos} (result : EspErr) → WriteStep (answering result) g no_writer g

  pub data WriteRun (start : Pipeline rtos) : WriterPhase → Pipeline rtos → Type 0 where
    at_boot : WriteRun start no_writer start
    and_then :
        {p q : WriterPhase} {g h : Pipeline rtos}
        → WriteStep p g q h
        → WriteRun start p g
        → WriteRun start q h

  -- What `gnss_stack_init` adds to `IsInitial`.
  pub record IsQuiet (g : Pipeline rtos) : Type 0 where
    pub initial : IsInitial rtos g
    pub no_mark : pending g.filter_queue_set ≡ []
    pub no_control : items g.filter_control_queue ≡ []
    pub one_control : capacity g.filter_control_queue ≡ 1
    pub no_answer : count g.override_flush_done ≡ 0
    pub binary : limit g.override_flush_done ≡ 1
    pub not_closing : g.input_override_closing ≡ false

  pub quiet-Sync : (g : Pipeline rtos) → IsQuiet g → Sync rtos no_writer g
  quiet-Sync g i = record {
    parser = subst ParserInv (sym i.initial.parser) cleared-ParserInv;
    active = i.initial.no_override;
    closing = i.not_closing;
    marked = record {
      candidates = omega (arith, ap candidates_in i.no_mark, ap length i.initial.no_candidates);
      controls = omega (arith, ap controls_in i.no_mark, ap length i.no_control);
      one_control = i.one_control;
      binary = i.binary;
      flag = omega (arith, i.no_answer);
    };
    flush = i.no_control;
  }
