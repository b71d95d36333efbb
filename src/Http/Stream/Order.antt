-- ===== src/Http/Stream/Order.antt =====
-- The whole life of a client of main/http_stream.c, from its connection on.
use mathlib.Core.List.{Sublistᴰ}
use mathlib.Core.List.Sublistᴰ
use esp32_wifi_gnss.Prelude.{
  ◌≡◌, refl, sym, ap, subst, ◌∙◌, true, false, Option, none, some, List, [], ◌∷◌, ◌++◌,
  append_assoc, append-nil, arith,
}
use esp32_wifi_gnss.Esp.{EspErr, esp_ok}
use esp32_wifi_gnss.Socket.{Peek}
use esp32_wifi_gnss.Gnss.{Publication}
use esp32_wifi_gnss.Led.{Led}
use esp32_wifi_gnss.Http.{
  Snapshot, stream_open, latest_publication_copy_if_new, snapshot_store, stream_round,
}
use esp32_wifi_gnss.Http.Stream.{
  View, StreamEvent, rounds, client_round, stream_event, stream_run, published, last_sent, Follows,
  before_all, behind, dispatch-Follows, event-Follows, stream_run-Follows,
}

-- The snapshot after `before` was published, and a client that has just connected.
abbrev pub store_all : List Publication → Snapshot → Snapshot
store_all [] s = s
store_all (p ∷ before) s = store_all before (snapshot_store p s)

abbrev pub opened : Snapshot → Led → View
opened s led = record { snapshot = s; client = stream_open; led = led }

stored-Follows :
    (before history : List Publication) (s : Snapshot) (led : Led)
    → Follows history (opened s led)
    → Follows (history ++ before) (opened (store_all before s) led)
stored-Follows [] history s led f =
    subst (λ h. Follows h (opened s led)) (sym (append-nil history)) f
stored-Follows (p ∷ before) history s led f =
    subst (λ h. Follows h (opened (store_all before (snapshot_store p s)) led))
      (append_assoc history (p ∷ []) before)
      (stored-Follows before _ (snapshot_store p s) led (dispatch-Follows history p _ f))

opened-Follows :
    (before : List Publication) (s : Snapshot) (led : Led) (events : List StreamEvent)
    → s.has_latest_publication ≡ false
    → Follows (before ++ published events) (stream_run events (opened (store_all before s) led))
opened-Follows before s led events none_yet =
    stream_run-Follows events before _
      (stored-Follows before [] s led (before_all _ none_yet refl refl))

Follows-Sublist :
    {history : List Publication} {v : View} → Follows history v → Sublistᴰ v.client.sent history
Follows-Sublist (before_all v has sent last) =
    subst (λ l. Sublistᴰ l []) (sym sent) (Sublistᴰ.nil-sublist [])
Follows-Sublist (behind older v has sub old last) = sub

-- Let `before` be published before a client connects, and let publications and rounds of its worker
-- then come in any order, with any results of the socket. The publications that the client gets are
-- among those published, in their order, and each at most as often as it was published.
pub client_in_order :
    (before : List Publication) (s : Snapshot) (led : Led) (events : List StreamEvent)
    → s.has_latest_publication ≡ false
    → Sublistᴰ
        (stream_run events (opened (store_all before s) led)).client.sent
        (before ++ published events)
client_in_order before s led events none_yet =
    Follows-Sublist (opened-Follows before s led events none_yet)

Follows-last_sequence :
    {history : List Publication} {v : View}
    → Follows history v
    → v.client.last_sequence ≡ last_sent 0 v.client.sent
Follows-last_sequence (before_all v has sent last) = last ∙ ap (last_sent 0) (sym sent)
Follows-last_sequence (behind older v has sub old last) = last

abbrev pub newest : List Publication → Option Publication
newest [] = none
newest (p ∷ []) = some p
newest (p ∷ q ∷ l) = newest (q ∷ l)

newest-append : (l : List Publication) (p : Publication) → newest (l ++ p ∷ []) ≡ some p
newest-append [] p = refl
newest-append (x ∷ []) p = refl
newest-append (x ∷ y ∷ l) p = newest-append (y ∷ l) p

some_injective : {A : Type 0} (a b : A) → some a ≡ some b → a ≡ b
some_injective a b e = cc

Follows-newest :
    {history : List Publication} {v : View} (p : Publication)
    → Follows history v
    → newest history ≡ some p
    → (v.snapshot.has_latest_publication ≡ true) × (v.snapshot.latest_publication ≡ p)
Follows-newest p (before_all v has sent last) e = absurd cc
Follows-newest p (behind older v has sub old last) e =
    (has, some_injective _ p (sym (newest-append older v.snapshot.latest_publication) ∙ e))

round_sends :
    (v : View) (peek : Peek)
    → v.snapshot.has_latest_publication ≡ true
    → (stream_round v.snapshot esp_ok peek (v.client, v.led)).0.last_sequence
      ≡ v.snapshot.latest_publication.sequence
unfolding stream_round latest_publication_copy_if_new
round_sends v peek has = ground arith

round_event_sends :
    (result : Option EspErr) (v : View) (peek : Peek)
    → v.snapshot.has_latest_publication ≡ true
    → result ≡ none
    → (client_round result esp_ok peek v).client.last_sequence
      ≡ v.snapshot.latest_publication.sequence
round_event_sends none v peek has e = round_sends v peek has
round_event_sends (some left) v peek has e = absurd cc

-- However many publications a slow client has missed, while its worker is in the loop one round whose
-- send succeeds brings it up to date: afterwards the last publication that the client has got carries
-- the sequence number of the newest one published. A client that has got none counts as 0.
pub client_catches_up :
    (before : List Publication) (s : Snapshot) (led : Led) (events : List StreamEvent) (peek : Peek)
    (p : Publication)
    → s.has_latest_publication ≡ false
    → newest (before ++ published events) ≡ some p
    → (stream_run events (opened (store_all before s) led)).client.result ≡ none
    → let v = stream_run events (opened (store_all before s) led) in
      last_sent 0 (stream_event (rounds esp_ok peek) v).client.sent ≡ p.sequence
unfolding stream_event
client_catches_up before s led events peek p none_yet last in_loop =
    let v = stream_run events (opened (store_all before s) led) in
    let f = opened-Follows before s led events none_yet in
    let (has, is_p) = Follows-newest p f last in
    sym (Follows-last_sequence (event-Follows _ (rounds esp_ok peek) v f))
    ∙ round_event_sends v.client.result v peek has in_loop
    ∙ ap (λ (q : Publication). q.sequence) is_p
