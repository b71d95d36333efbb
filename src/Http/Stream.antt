-- ===== src/Http/Stream.antt =====
-- What the client of one worker gets of the publications that the dispatcher stores.
pub mod Order
use mathlib.Core.List.{Sublistᴰ}
use mathlib.Core.List.Sublistᴰ
use esp32_wifi_gnss.Prelude.{
  ℕ, ◌≡◌, ◌≢◌, ◌⊎◌, refl, sym, ap, subst, ◌∙◌, Bool, true, false, not, ◌&&◌, Option, none, some,
  List, [], ◌∷◌, ◌++◌, append_assoc, append-nil, ◌==◌, if◌then◌else◌, inl, inr, Bool-cases,
  Option-cases, on_test, either, arith, All, All-append,
}
use esp32_wifi_gnss.Esp.{EspErr, esp_ok, esp_fail, is_ok}
use esp32_wifi_gnss.Socket.{Peek}
use esp32_wifi_gnss.Gnss.{Publication}
use esp32_wifi_gnss.Led.{Led, led_packet_consumed}
use esp32_wifi_gnss.Http.{
  Snapshot, Client, stream_open, latest_publication_copy_if_new, snapshot_store, stream_round,
  stream_client_is_connected,
}

-- The snapshot, a client and the indicator.
pub record View : Type 0 where
  pub snapshot : Snapshot
  pub client : Client
  pub led : Led

pub data StreamEvent : Type 0 where
  dispatches : Publication → StreamEvent
  rounds : EspErr → Peek → StreamEvent

-- A worker makes rounds until it returns.
abbrev pub client_round : Option EspErr → EspErr → Peek → View → View
client_round (some left) err peek v = v
client_round none err peek v =
    let (client, led) = stream_round v.snapshot err peek (v.client, v.led) in
    record v { client = client; led = led }

unfoldable pub stream_event : StreamEvent → View → View
stream_event (dispatches p) v = record v { snapshot = snapshot_store p v.snapshot }
stream_event (rounds err peek) v = client_round v.client.result err peek v

unfoldable pub stream_run : List StreamEvent → View → View
unfolding stream_event
stream_run [] v = v
stream_run (e ∷ events) v = stream_run events (stream_event e v)

abbrev pub published : List StreamEvent → List Publication
published [] = []
published (dispatches p ∷ events) = p ∷ published events
published (rounds err peek ∷ events) = published events

abbrev pub last_sent : ℕ → List Publication → ℕ
last_sent n [] = n
last_sent n (p ∷ l) = last_sent p.sequence l

last_sent-append :
    (n : ℕ) (l : List Publication) (p : Publication) → last_sent n (l ++ p ∷ []) ≡ p.sequence
last_sent-append n [] p = refl
last_sent-append n (x ∷ l) p = last_sent-append x.sequence l p

-- `history` has been published; the client has had a part of it.
pub data Follows : List Publication → View → Type 0 where
  before_all :
      (v : View)
      → v.snapshot.has_latest_publication ≡ false
      → v.client.sent ≡ []
      → v.client.last_sequence ≡ 0
      → Follows [] v
  behind :
      (older : List Publication) (v : View)
      → v.snapshot.has_latest_publication ≡ true
      → Sublistᴰ v.client.sent (older ++ v.snapshot.latest_publication ∷ [])
      → (v.snapshot.latest_publication.sequence ≢ v.client.last_sequence
          → Sublistᴰ v.client.sent older)
      → v.client.last_sequence ≡ last_sent 0 v.client.sent
      → Follows (older ++ v.snapshot.latest_publication ∷ []) v

longer-Sublist :
    (l h : List Publication) (p : Publication) → Sublistᴰ l h → Sublistᴰ l (h ++ p ∷ [])
longer-Sublist l h p s =
    subst (λ k. Sublistᴰ k (h ++ p ∷ [])) (append-nil l)
      (Sublistᴰ.append s (Sublistᴰ.nil-sublist (p ∷ [])))

both-Sublist :
    (l h : List Publication) (p : Publication) → Sublistᴰ l h → Sublistᴰ (l ++ p ∷ []) (h ++ p ∷ [])
both-Sublist l h p s = Sublistᴰ.append s (Sublistᴰ.refl (p ∷ []))

pub dispatch-Follows :
    (history : List Publication) (p : Publication) (v : View)
    → Follows history v
    → Follows (history ++ p ∷ []) (record v { snapshot = snapshot_store p v.snapshot })
unfolding snapshot_store
dispatch-Follows history p v (before_all _ has sent last) =
    behind [] (record v { snapshot = snapshot_store p v.snapshot }) refl
      (subst (λ l. Sublistᴰ l (p ∷ [])) (sym sent) (Sublistᴰ.nil-sublist (p ∷ [])))
      (λ ne. subst (λ l. Sublistᴰ l []) (sym sent) (Sublistᴰ.nil-sublist []))
      (last ∙ ap (last_sent 0) (sym sent))
dispatch-Follows history p v (behind older _ has sub old last) =
    behind (older ++ v.snapshot.latest_publication ∷ [])
      (record v { snapshot = snapshot_store p v.snapshot }) refl (longer-Sublist _ _ p sub)
      (λ ne. sub) last

-- A worker that has left its loop, or whose round sends nothing, stays where it is.
left-Follows :
    (history : List Publication) (v : View) (result : Option EspErr) (led : Led)
    → Follows history v
    → Follows history (record v { client = record v.client { result = result }; led = led })
left-Follows history v result led (before_all _ has sent last) = before_all _ has sent last
left-Follows history v result led (behind older _ has sub old last) =
    behind older _ has sub old last

sent-Follows :
    (history : List Publication) (v : View) (led : Led)
    → v.snapshot.has_latest_publication ≡ true
    → v.snapshot.latest_publication.sequence ≢ v.client.last_sequence
    → Follows history v
    → Follows history (record v {
      client = record v.client {
        last_sequence = v.snapshot.latest_publication.sequence;
        sent = v.client.sent ++ v.snapshot.latest_publication ∷ [];
      };
      led = led;
    })
sent-Follows history v led has new (before_all _ none_yet sent last) = absurd (cc has)
sent-Follows history v led has new (behind older _ has' sub old last) =
    behind older _ has' (both-Sublist _ _ _ (old new)) (λ ne. absurd (ne refl))
      (sym (last_sent-append 0 v.client.sent v.snapshot.latest_publication))

pub copy-cases :
    (s : Snapshot) (n : ℕ)
    → (latest_publication_copy_if_new s n ≡ none)
      ⊎ ((latest_publication_copy_if_new s n ≡ some s.latest_publication)
          × (s.has_latest_publication ≡ true)
          × (s.latest_publication.sequence ≢ n))
unfolding latest_publication_copy_if_new
copy-cases s n =
    elim (Bool-cases (s.has_latest_publication && not (s.latest_publication.sequence == n))) [
      | inl new ↦ inr (ground arith, ground arith, ground arith)
      | inr old ↦ inl (ground arith)
    ]

round-Follows :
    (history : List Publication) (result : Option EspErr) (err : EspErr) (peek : Peek) (v : View)
    → Follows history v
    → Follows history (client_round result err peek v)
unfolding stream_round
round-Follows history (some left) err peek v f = f
round-Follows history none err peek v f = elim (copy-cases v.snapshot v.client.last_sequence) [
  | inl old ↦
      rw (old, stream_round)
        (either P (stream_client_is_connected peek) _ _
          (left-Follows history v v.client.result v.led f)
          (left-Follows history v (some esp_fail) v.led f))
  | inr (new, has, differs) ↦
      rw (new, stream_round)
        (either P (is_ok err) _ _ (sent-Follows history v (led_packet_consumed v.led) has differs f)
          (left-Follows history v (some err) v.led f))
]
  where
    P : Client × Led → Type 0
    P r = Follows history (record v { client = r.0; led = r.1 })

pub event-Follows :
    (history : List Publication) (e : StreamEvent) (v : View)
    → Follows history v
    → Follows (history ++ published (e ∷ [])) (stream_event e v)
unfolding stream_event
event-Follows history (dispatches p) v f = dispatch-Follows history p v f
event-Follows history (rounds err peek) v f =
    subst (λ h. Follows h (client_round v.client.result err peek v)) (sym (append-nil history))
      (round-Follows history v.client.result err peek v f)

published_cons :
    (e : StreamEvent) (events : List StreamEvent)
    → published (e ∷ []) ++ published events ≡ published (e ∷ events)
published_cons (dispatches p) events = refl
published_cons (rounds err peek) events = refl

pub stream_run-Follows :
    (events : List StreamEvent) (history : List Publication) (v : View)
    → Follows history v
    → Follows (history ++ published events) (stream_run events v)
unfolding stream_run
stream_run-Follows [] history v f = subst (λ h. Follows h v) (sym (append-nil history)) f
stream_run-Follows (e ∷ events) history v f =
    subst (λ h. Follows h (stream_run events (stream_event e v)))
      (append_assoc history (published (e ∷ [])) (published events)
        ∙ ap (◌++◌ history) (published_cons e events))
      (stream_run-Follows events _ _ (event-Follows history e v f))
