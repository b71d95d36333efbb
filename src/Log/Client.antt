-- ===== src/Log/Client.antt =====
-- The loop of `log_response_send` of main/log_stream.c. What the socket answers is an argument of a
-- round; the notification only wakes the worker, which also wakes by itself, so that a round may
-- come at any time.
use esp32_wifi_gnss.Prelude.{
  ℕ, Bool, true, false, ◌&&◌, Option, none, some, List, [], ◌∷◌, ◌++◌, Bytes, length, ltb, ltb_ℤ,
  pos, if◌then◌else◌,
}
use esp32_wifi_gnss.Esp.{EspErr, esp_fail, is_ok}
use esp32_wifi_gnss.Socket.{Peek, is_zero, is_hard}
use esp32_wifi_gnss.Log.{LogRing, log_capture, reader_start, chunk_take}

unfoldable pub log_client_is_connected : Peek → Bool
log_client_is_connected peek =
    if is_zero peek.received
    then false
    else if ltb_ℤ peek.received (pos 0) && is_hard peek.errno
    then false
    else true

-- The local state of `log_response_send`: `sent` are the bytes that the socket has taken, and
-- `result` is there once the function has returned.
pub record LogClient : Type 0 where
  pub last_sent : ℕ  -- size_t
  pub sent : Bytes
  pub result : Option EspErr

abbrev pub log_client_open : LogRing → LogClient
log_client_open r = record { last_sent = reader_start r; sent = []; result = none }

-- A round: `err` is what `httpd_resp_send_chunk` returns, and `peek` what the socket tells, where
-- the round asks.
unfoldable pub log_client_round : LogRing → EspErr → Peek → LogClient → LogClient
unfolding log_client_is_connected
log_client_round r err peek client =
    let (chunk, next) = chunk_take r client.last_sent in
    if ltb 0 (length chunk)
    then (if is_ok err
        then record client { last_sent = next; sent = client.sent ++ chunk }
        else record client { result = some err })
    else if log_client_is_connected peek
    then client
    else record client { result = some esp_fail }

-- The ring and the worker's client.
pub record LogView : Type 0 where
  pub ring : LogRing
  pub client : LogClient

pub data LogEvent : Type 0 where
  captures : Bytes → LogEvent
  rounds : EspErr → Peek → LogEvent

-- The worker makes rounds until the function returns.
abbrev pub round_of : Option EspErr → EspErr → Peek → LogView → LogView
round_of (some left) err peek v = v
round_of none err peek v = record v { client = log_client_round v.ring err peek v.client }

unfoldable pub log_event : LogEvent → LogView → LogView
log_event (captures text) v = record v { ring = log_capture text v.ring }
log_event (rounds err peek) v = round_of v.client.result err peek v

unfoldable pub log_run : List LogEvent → LogView → LogView
unfolding log_event
log_run [] v = v
log_run (e ∷ events) v = log_run events (log_event e v)
