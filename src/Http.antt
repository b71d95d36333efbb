-- ===== src/Http.antt =====
-- The read side of main/http_stream.c: the snapshot of the newest publication and the rounds in which
-- a worker sends it to its client. What the socket answers is an argument of a round. The
-- notifications only wake a worker; it also wakes by itself, so that a round may come at any time.
pub mod Httpd
pub mod Simple
pub mod Pool
pub mod Stream
pub mod Write
pub mod System
mod Tests
use esp32_wifi_gnss.Prelude.{
  ℕ, Bool, true, false, not, ◌&&◌, Option, none, some, List, [], ◌∷◌, ◌++◌, Bytes, take, ltb_ℤ, pos,
  ◌==◌, if◌then◌else◌,
}
use esp32_wifi_gnss.Esp.{EspErr, esp_fail, is_ok}
use esp32_wifi_gnss.Socket.{Peek, is_zero, is_hard}
use esp32_wifi_gnss.Gnss.{Publication}
use esp32_wifi_gnss.Led.{Led, led_packet_consumed}

-- `s_latest_publication` and `s_has_latest_publication`
pub record Snapshot : Type 0 where
  pub latest_publication : Publication
  pub has_latest_publication : Bool

unfoldable pub latest_publication_copy_if_new : Snapshot → ℕ → Option Publication
latest_publication_copy_if_new s last_sequence =
    if s.has_latest_publication && not (s.latest_publication.sequence == last_sequence)
    then some s.latest_publication
    else none

-- What `http_stack_task` does with a publication.
unfoldable pub snapshot_store : Publication → Snapshot → Snapshot
snapshot_store publication s = record {
  latest_publication = publication;
  has_latest_publication = true;
}

unfoldable pub stream_client_is_connected : Peek → Bool
stream_client_is_connected peek =
    if is_zero peek.received
    then false
    else if ltb_ℤ peek.received (pos 0) && is_hard peek.errno
    then false
    else true

-- The local state of `stream_response_send`: `sent` are the publications whose chunks the socket has
-- taken, oldest first, and `result` is there once the function has returned.
pub record Client : Type 0 where
  pub last_sequence : ℕ  -- uint32_t
  pub sent : List Publication
  pub result : Option EspErr

abbrev pub stream_open : Client
stream_open = record { last_sequence = 0; sent = []; result = none }

-- `publication.data` and `publication.len` as the bytes of a chunk.
abbrev pub chunk_of : Publication → Bytes
chunk_of publication = take publication.len publication.body

-- A round of the loop of `stream_response_send`. `err` is what `httpd_resp_send_chunk` returns, and
-- `peek` what the socket tells, where the round asks.
unfoldable pub stream_round : Snapshot → EspErr → Peek → Client × Led → Client × Led
unfolding latest_publication_copy_if_new stream_client_is_connected
stream_round snapshot err peek (client, led) =
    elim (latest_publication_copy_if_new snapshot client.last_sequence) [
      | some publication ↦
          if is_ok err
          then (
            record client {
              last_sequence = publication.sequence;
              sent = client.sent ++ publication ∷ [];
            },
            led_packet_consumed led,
          )
          else (record client { result = some err }, led)
      | none ↦
          if stream_client_is_connected peek
          then (client, led)
          else (record client { result = some esp_fail }, led)
    ]
