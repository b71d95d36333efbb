-- ===== src/Ota/Flash/Loop.antt =====
-- The receive loop of `ota_flash_receive` with its fuel, and the function as a whole.
use esp32_wifi_gnss.Prelude.{
  ℕ, zero, suc, ◌+◌, ◌-◌, ◌*◌, ◌≤◌, ◌<◌, ◌≡◌, inl, inr, refl, sym, ap, ◌∙◌, min, Bool, true, false,
  Option, none, some, [], ◌++◌, Bytes, length, ltb, ltb→lt, if◌then◌else◌, Bool-cases,
  length-append, append_assoc, append-nil, arith,
}
use esp32_wifi_gnss.Esp.{EspErr, is_ok}
use esp32_wifi_gnss.Socket.{Received, timed_out, closed, data_in}
use esp32_wifi_gnss.Ota.Board.{Board, View, arrived, more}
use esp32_wifi_gnss.Ota.Flash.{
  AsyncRequest, Exit, write_buffer_size, enough_fuel, flash_write, flash_round, flash_loop,
  flash_begin, flash_setup, flash_cleanup, flash_receive,
}
use esp32_wifi_gnss.Ota.Flash.Outcome.{Flashed, refuse-Flashed}
use esp32_wifi_gnss.Ota.Flash.Safety.{with_body, with_body-Kept, Good, flash_finish-Good}

module _ (board : Board) (req : AsyncRequest) (v : View) where
  open board use {
    Dev, view, view-setup, view-update, view-begin, view-write, view-recv, size-recv,
    psa_hash_update, esp_ota_write, httpd_req_recv, esp_ota_begin, psa_hash_setup,
  }

  Returns : Option (Exit board req) → Type 0
  Returns m = (e : Exit board req) × (m ≡ some e) × Good board req v e

  abbrev Rest : ℕ → (ℕ → ℕ → Dev → Option (Exit board req)) → Type 0
  Rest fuel rest =
      (remaining timeouts : ℕ) (body : Bytes) (d : Dev)
      → timeouts < 3
      → 3 * remaining + 3 ≤ fuel + timeouts
      → view d ≡ with_body board req v (some body) (some body) body
      → length body + remaining ≡ req.content_len
      → Returns (rest remaining timeouts d)

  flash_write-Returns :
      (fuel : ℕ) (rest : ℕ → ℕ → Dev → Option (Exit board req)) (remaining : ℕ) (body bytes : Bytes)
      (d : Dev)
      → Rest fuel rest
      → 1 ≤ length bytes
      → length bytes ≤ remaining
      → 3 * remaining ≤ fuel
      → view d ≡ with_body board req v (some body) (some body) (body ++ bytes)
      → length body + remaining ≡ req.content_len
      → Returns (flash_write board req rest remaining bytes d)
  unfolding flash_write Returns
  flash_write-Returns fuel rest remaining body bytes d ih some_byte fits fuelled e len =
      let update = view-update bytes d in
      let write = view-write bytes (psa_hash_update bytes d).1 in
      elim (Bool-cases (psa_hash_update bytes d).0) [
        | inr bad ↦
            let e1 =
              update
              ∙ ap (λ b. if b then record (view d) { hash = more bytes (view d).hash } else view d)
                  bad
              ∙ e in
            rw (bad, flash_write)
              (
                _,
                refl,
                refuse-Flashed board req v _ true true _ _ _ refl
                    (with_body-Kept board req v _ _ _ _ e1) (inl refl) refl,
              )
        | inl ok ↦
            let e1 =
              update
              ∙ ap (λ b. if b then record (view d) { hash = more bytes (view d).hash } else view d)
                  ok
              ∙ ap {A = View} (λ w. record w { hash = more bytes w.hash }) e in
            let d1 = (psa_hash_update bytes d).1 in
            elim (Bool-cases (is_ok (esp_ota_write bytes d1).0)) [
              | inl written ↦
                  rw (ok, written, flash_write)
                    (ih (remaining - length bytes) 0 (body ++ bytes) (esp_ota_write bytes d1).1
                      (omega arith) (omega arith)
                      (write
                        ∙ ap
                            (λ b.
                              if b
                              then record (view d1) { session = more bytes (view d1).session }
                              else view d1)
                            written
                        ∙ ap {A = View} (λ w. record w { session = more bytes w.session }) e1)
                      (omega (arith, length-append body bytes)))
              | inr unwritten ↦
                  rw (ok, unwritten, flash_write)
                    (
                      _,
                      refl,
                      refuse-Flashed board req v _ true true _ _ _ refl
                          (with_body-Kept board req v _ _ _ _ (
                            write
                            ∙ ap
                                (λ b.
                                  if b
                                  then record (view d1) { session = more bytes (view d1).session }
                                  else view d1)
                                unwritten
                            ∙ e1))
                          (inl refl) refl,
                    )
            ]
      ]

  flash_round-Returns :
      (fuel : ℕ) (rest : ℕ → ℕ → Dev → Option (Exit board req)) (remaining timeouts : ℕ)
      (body : Bytes) (r : Received) (d : Dev)
      → Rest fuel rest
      → timeouts < 3
      → 3 * remaining + 3 ≤ suc fuel + timeouts
      → ((bytes : Bytes) → r ≡ data_in bytes → (1 ≤ length bytes) × (length bytes ≤ remaining))
      → view d ≡ arrived r (with_body board req v (some body) (some body) body)
      → length body + remaining ≡ req.content_len
      → Returns (flash_round board req rest remaining timeouts (r, d))
  unfolding flash_round Returns
  flash_round-Returns fuel rest remaining timeouts body timed_out d ih few fuelled size e len =
      elim (Bool-cases (ltb (suc timeouts) 3)) [
        | inl again ↦
            rw again (ih remaining (suc timeouts) body d (ltb→lt _ _ again) (omega arith) e len)
        | inr over ↦ rw over (
          _,
          refl,
          refuse-Flashed board req v _ true true _ _ _ refl (with_body-Kept board req v _ _ _ _ e)
              (inl refl) refl,
        )
      ]
  flash_round-Returns fuel rest remaining timeouts body closed d ih few fuelled size e len = (
    _,
    refl,
    refuse-Flashed board req v _ true true _ _ _ refl (with_body-Kept board req v _ _ _ _ e)
        (inl refl) refl,
  )
  flash_round-Returns fuel rest remaining timeouts body (data_in bytes) d ih few fuelled size e
        len =
      flash_write-Returns fuel rest remaining body bytes d ih (size bytes refl).0
        (size bytes refl).1 (omega arith)
        (e
          ∙ ap {B = View} (λ l. record v { hash = some body; session = some body; received = l })
              (append_assoc v.received body bytes))
        len

  flash_loop-Rest : (fuel : ℕ) → Rest fuel (flash_loop board req fuel)
  unfolding flash_loop Returns
  flash_loop-Rest zero remaining timeouts body d few fuelled e len =
      let never : suc zero ≡ zero = omega arith in cc
  flash_loop-Rest (suc fuel) zero timeouts body d few fuelled e len =
      (_, refl, flash_finish-Good board req v body d e (omega arith))
  flash_loop-Rest (suc fuel) (suc left) timeouts body d few fuelled e len =
      let n = min (suc left) write_buffer_size in
      flash_round-Returns fuel _ (suc left) timeouts body (httpd_req_recv n d).0
        (httpd_req_recv n d).1 (flash_loop-Rest fuel) few (omega arith)
        (λ bytes is. ((size-recv n d bytes is).0, omega (arith, size-recv n d bytes is)))
        (view-recv n d ∙ ap (arrived (httpd_req_recv n d).0) e) len

  flash_begin-Returns :
      (d : Dev)
      → view d ≡ with_body board req v (some []) none []
      → Returns (flash_begin board req d)
  unfolding flash_begin Returns
  flash_begin-Returns d e =
      let begin = view-begin req.update_partition d in
      elim (Bool-cases (is_ok (esp_ota_begin req.update_partition d).0)) [
        | inl ok ↦
            rw (ok, flash_begin)
              (flash_loop-Rest (enough_fuel board req req.content_len) req.content_len 0 []
                (esp_ota_begin req.update_partition d).1 (omega arith) (omega arith)
                (begin
                  ∙ ap (λ b. if b then record (view d) { session = some [] } else view d) ok
                  ∙ ap {A = View} (λ w. record w { session = some [] }) e)
                (omega arith))
        | inr bad ↦
            let same =
              begin
              ∙ ap (λ b. if b then record (view d) { session = some [] } else view d) bad
              ∙ e in
            rw (bad, flash_begin)
              (
                _,
                refl,
                refuse-Flashed board req v _ true false _ _ _ refl
                    (with_body-Kept board req v _ _ _ _ same) (inl refl) (ap (λ w. w.session) same),
              )
      ]

  flash_setup-Returns :
      (d : Dev) → view d ≡ v → v.hash ≡ none → v.session ≡ none → Returns (flash_setup board req d)
  unfolding flash_setup Returns
  flash_setup-Returns d e no_hash no_session =
      let setup = view-setup d in
      let idle : view d ≡ with_body board req v none none [] =
        e
        ∙ ap {B = View} (λ h. record v { hash = h }) no_hash
        ∙ ap {B = View} (λ s. record v { hash = none; session = s }) no_session
        ∙ ap {B = View} (λ l. record v { hash = none; session = none; received = l })
            (sym (append-nil v.received)) in
      elim (Bool-cases (psa_hash_setup d).0) [
        | inl ok ↦
            rw (ok, flash_setup)
              (flash_begin-Returns (psa_hash_setup d).1 (
                setup
                ∙ ap (λ b. if b then record (view d) { hash = some [] } else view d) ok
                ∙ ap {A = View} (λ w. record w { hash = some [] }) idle))
        | inr bad ↦
            let same =
              setup
              ∙ ap (λ b. if b then record (view d) { hash = some [] } else view d) bad
              ∙ idle in
            rw (bad, flash_setup)
              (
                _,
                refl,
                refuse-Flashed board req v _ false false _ _ _ refl
                    (with_body-Kept board req v _ _ _ _ same) (inl (ap (λ w. w.hash) same))
                    (ap (λ w. w.session) same),
              )
      ]

-- `ota_flash_receive` returns, on a board with no hash operation or OTA handle in use, whatever the
-- socket delivers and whichever call fails. Either the boot partition is the update partition, and
-- then the whole body of `content_len` bytes was received, its SHA-256 is the one of the request,
-- `esp_ota_end` accepted it as an image, nothing is left in use, and the one reply says so; or the
-- boot partition is as before, no reboot is asked for, the one reply has an error status (4xx or 5xx),
-- no OTA handle is left in use, and no hash operation unless the checksum calculation failed.
pub flash_receive-Flashed :
    (board : Board) (req : AsyncRequest) (d : board.Dev)
    → (board.view d).hash ≡ none
    → (board.view d).session ≡ none
    → (r : EspErr × Bool × board.Dev) × (flash_receive board req d ≡ some r)
      × Flashed board req (board.view d) r
unfolding flash_receive Returns
flash_receive-Flashed board req d no_hash no_session =
    let k = flash_setup-Returns board req (board.view d) d refl no_hash no_session in
    (flash_cleanup board req k.0, rw (k.1, flash_receive) refl, k.2)
