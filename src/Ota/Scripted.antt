-- ===== src/Ota/Scripted.antt =====
-- The interface `Board` can be met: a board that keeps its `View`, with a script of what the socket
-- delivers. The stand-in for SHA-256 gives 32 bytes.
use esp32_wifi_gnss.Prelude.{
  ℕ, ◌≤◌, ◌≡◌, ◌⊎◌, refl, sym, ap, subst, ◌∙◌, inl, inr, true, ◌&&◌, Option, none, some, List, [],
  ◌∷◌, ◌++◌, Bytes, length, replicate, ltb, leb, if◌then◌else◌, Bool-cases, arith,
}
use esp32_wifi_gnss.Esp.{esp_ok}
use esp32_wifi_gnss.Socket.{Received, timed_out, closed, data_in}
use esp32_wifi_gnss.Ota.Board.{Board, View, arrived, more}

pub record Scripted : Type 0 where
  pub shown : View
  pub script : List Received

abbrev pub digest_of : Bytes → Bytes
digest_of b = replicate 32 (length b)

-- Data that is empty or longer than the buffer counts as a closed connection.
abbrev pub delivered : ℕ → Received → Received
delivered n (data_in b) = if ltb 0 (length b) && leb (length b) n then data_in b else closed
delivered n r = r

abbrev pub next_of : List Received → Received
next_of [] = closed
next_of (r ∷ l) = r

abbrev pub rest_of : List Received → List Received
rest_of [] = []
rest_of (r ∷ l) = l

abbrev pub scripted_recv : ℕ → Scripted → Received × Scripted
scripted_recv n d =
    let r = delivered n (next_of d.script) in
    (r, record { shown = arrived r d.shown; script = rest_of d.script })

abbrev pub finish : Option Bytes → Option Bytes
finish none = none
finish (some absorbed) = some (digest_of absorbed)

pub view-finished :
    (d : Scripted) (h : Option Bytes)
    → d.shown.hash ≡ h
    → ((finish h ≡ none) × (record d.shown { hash = none } ≡ d.shown))
      ⊎ ((digest : Bytes) × (finish h ≡ some digest)
          × (record d.shown { hash = none } ≡ record d.shown { hash = none })
          × ((absorbed : Bytes) → h ≡ some absorbed → digest ≡ digest_of absorbed))
view-finished d none e = inl (refl, ap {B = View} (λ x. record d.shown { hash = x }) (sym e))
view-finished d (some absorbed) e = inr (digest_of absorbed, refl, refl, λ a e. cc)

pub delivered-size :
    (n : ℕ) (r : Received) (b : Bytes) → delivered n r ≡ data_in b → (1 ≤ length b) × (length b ≤ n)
delivered-size n timed_out b e = cc
delivered-size n closed b e = cc
delivered-size n (data_in a) b e = elim (Bool-cases (ltb 0 (length a) && leb (length a) n)) [
  | inl ok ↦
      let same : data_in a ≡ data_in b = sym (ap (λ t. if t then data_in a else closed) ok) ∙ e in
      let eq : a ≡ b = cc in
      subst (λ x. (1 ≤ length x) × (length x ≤ n)) eq (ground arith, ground arith)
  | inr bad ↦
      let other : closed ≡ data_in b = sym (ap (λ t. if t then data_in a else closed) bad) ∙ e in cc
]

abbrev pub scripted : Board
scripted = record {
  Dev = Scripted;
  view = λ d. d.shown;
  sha256 = digest_of;
  is_image = λ b. true;
  psa_hash_setup = λ d. (true, record d { shown = record d.shown { hash = some [] } });
  psa_hash_update =
      λ b d. (true, record d { shown = record d.shown { hash = more b d.shown.hash } });
  psa_hash_finish = λ d. (finish d.shown.hash, record d { shown = record d.shown { hash = none } });
  psa_hash_abort = λ d. record d { shown = record d.shown { hash = none } };
  esp_ota_begin = λ p d. (esp_ok, record d { shown = record d.shown { session = some [] } });
  esp_ota_write =
      λ b d. (esp_ok, record d { shown = record d.shown { session = more b d.shown.session } });
  esp_ota_end = λ d. (esp_ok, record d { shown = record d.shown { session = none } });
  esp_ota_abort = λ d. record d { shown = record d.shown { session = none } };
  esp_ota_set_boot_partition =
      λ p d. (esp_ok, record d { shown = record d.shown { boot = p.address } });
  httpd_req_recv = scripted_recv;
  ota_send_text =
      λ r d. (esp_ok, record d { shown = record d.shown { replies = d.shown.replies ++ r ∷ [] } });
  view-setup = λ d. refl;
  view-update = λ b d. refl;
  view-finish = λ d. view-finished d d.shown.hash refl;
  view-hash_abort = λ d. refl;
  view-begin = λ p d. refl;
  view-write = λ b d. refl;
  view-end = λ d. refl;
  end-valid = λ d w ok e. refl;
  view-ota_abort = λ d. refl;
  view-set_boot = λ p d. refl;
  view-recv = λ n d. refl;
  size-recv = λ n d b e. delivered-size n (next_of d.script) b e;
  view-send = λ r d. refl;
}
