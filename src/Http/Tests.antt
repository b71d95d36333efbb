-- ===== src/Http/Tests.antt =====
-- Concrete publications, clients, pools and uploads.
use mathlib.Core.List.{Sublistᴰ}
use esp32_wifi_gnss.Prelude.{ℕ, ◌≡◌, refl, false, List, [], ◌∷◌, ◌++◌, All, pos, negsuc}
use esp32_wifi_gnss.Rtos.Simple.{simple}
use esp32_wifi_gnss.Esp.{esp_ok}
use esp32_wifi_gnss.Socket.{Peek, eagain}
use esp32_wifi_gnss.Led.{Led}
use esp32_wifi_gnss.Gnss.{Publication}
use esp32_wifi_gnss.Gnss.Pipeline.{uart_input_feed, filter_step}
use esp32_wifi_gnss.Gnss.Pipeline.Steps.{uart, timer, filters}
use esp32_wifi_gnss.Gnss.Pipeline.Sessions.{IsOfOneSource}
use esp32_wifi_gnss.Http.{Snapshot, stream_round, snapshot_store}
use esp32_wifi_gnss.Gnss.Samples.{gga_body, rmc_body, start, start-IsInitial}
use esp32_wifi_gnss.Gnss.Parser.Reading.{line_of}
use esp32_wifi_gnss.Gnss.Pipeline.{selection_timer_callback}
use esp32_wifi_gnss.Http.Stream.{
  StreamEvent, dispatches, rounds, stream_run, stream_event, last_sent, published,
}
use esp32_wifi_gnss.Http.Stream.Order.{client_in_order, client_catches_up, opened, store_all}
use esp32_wifi_gnss.Http.System.{
  System, IsBooted, Runs, not_yet, goes_on, pipeline_runs, dispatcher_runs, worker_runs,
  http_stack_round, system_round, run_sessions, sent_from_one_source,
}

abbrev publication : ℕ → Publication
publication n = record { sequence = n; len = 2; hdop_milli = pos 900; body = n ∷ n ∷ [] }

abbrev nothing_stored : Snapshot
nothing_stored = record { latest_publication = publication 0; has_latest_publication = false }

abbrev dark : Led
dark = record {
  connected_client_count = 0;
  pending_packet_toggles = 0;
  led_on = false;
  levels = [];
}

abbrev quiet : Peek
quiet = record { received = negsuc 0; errno = eagain }

abbrev events : List StreamEvent
events =
    rounds esp_ok quiet
    ∷ dispatches (publication 2)
    ∷ dispatches (publication 3)
    ∷ rounds esp_ok quiet
    ∷ dispatches (publication 4)
    ∷ []

client_in_order_example :
    Sublistᴰ
      (stream_run events (opened (store_all (publication 1 ∷ []) nothing_stored) dark)).client.sent
      ((publication 1 ∷ []) ++ published events)
client_in_order_example = client_in_order (publication 1 ∷ []) nothing_stored dark events refl

client_catches_up_example :
    last_sent 0
      (stream_event (rounds esp_ok quiet) (
        stream_run events
          (opened (store_all (publication 1 ∷ []) nothing_stored) dark))).client.sent
    ≡ 4
unfolding stream_run stream_round snapshot_store
client_catches_up_example =
    client_catches_up (publication 1 ∷ []) nothing_stored dark events quiet (publication 4) refl
      refl refl

abbrev booted : System simple
booted = record { pipeline = start; view = opened nothing_stored dark }

booted-IsBooted : IsBooted simple booted
booted-IsBooted = record {
  pipeline_initial = start-IsInitial;
  no_snapshot = refl;
  nothing_sent = refl;
}

-- A pair comes in by UART2, the timer expires, and the publication goes to the client.
abbrev served : System simple
served = system_round simple esp_ok quiet (
    http_stack_round simple (record booted {
      pipeline = filter_step simple (
          filter_step simple (
            selection_timer_callback simple
              (uart_input_feed simple start (line_of gga_body ++ line_of rmc_body))));
    }))

served-Runs : Runs simple booted served
served-Runs = goes_on (worker_runs esp_ok quiet) (
    goes_on dispatcher_runs (
      goes_on (pipeline_runs filters) (
        goes_on (pipeline_runs filters) (
          goes_on (pipeline_runs timer)
            (goes_on (pipeline_runs (uart (line_of gga_body ++ line_of rmc_body))) not_yet)))))

sent_from_one_source_example :
    All (IsOfOneSource (run_sessions simple served-Runs)) served.view.client.sent
sent_from_one_source_example = sent_from_one_source simple booted-IsBooted served-Runs
