-- ===== src/Ota/Flash/Safety.antt =====
-- `ota_flash_receive` from its end to its start: what each part guarantees.
use esp32_wifi_gnss.Prelude.{
  ◌≡◌, inl, inr, refl, sym, ap, ◌∙◌, true, false, Option, none, some, [], ◌∷◌, ◌++◌, Bytes, length,
  ◌==◌, if◌then◌else◌, Bool-cases,
}
use esp32_wifi_gnss.Esp.{is_ok}
use esp32_wifi_gnss.Ota.Board.{Board, View}
use esp32_wifi_gnss.Ota.Flash.{
  AsyncRequest, Exit, same_bytes, accepted_reply, sha256_len, flash_select, flash_end,
  flash_compare, flash_finish, flash_cleanup,
}
use esp32_wifi_gnss.Ota.Flash.Outcome.{same_bytes_sound, Flashed, accepted, Kept, refuse-Flashed}

module _ (board : Board) (req : AsyncRequest) (v : View) where
  open board use {
    Dev, view, sha256, is_image, view-setup, view-update, view-finish, view-hash_abort, view-begin,
    view-write, view-end, end-valid, view-ota_abort, view-set_boot, view-recv, size-recv, view-send,
    psa_hash_abort, esp_ota_abort, ota_send_text, esp_ota_set_boot_partition, esp_ota_end,
    psa_hash_finish, psa_hash_update, esp_ota_write, httpd_req_recv, esp_ota_begin, psa_hash_setup,
  }

  -- The board before the call, with the operations in the given states and `body` received.
  abbrev pub with_body : Option Bytes → Option Bytes → Bytes → View
  with_body hash session body = record v {
    hash = hash;
    session = session;
    received = v.received ++ body;
  }

  pub with_body-Kept :
      (hash session : Option Bytes) (body : Bytes) (d : Dev)
      → view d ≡ with_body hash session body
      → Kept board req v d
  with_body-Kept hash session body d e = record {
    boot = ap (λ w. w.boot) e;
    replies = ap (λ w. w.replies) e;
  }

  abbrev pub Good : Exit board req → Type 0
  Good e = Flashed board req v (flash_cleanup board req e)

  flash_select-Good :
      (body : Bytes) (d : Dev)
      → view d ≡ with_body none none body
      → length body ≡ req.content_len
      → sha256 body ≡ req.expected_sha256
      → is_image body ≡ true
      → Good (flash_select board req d)
  unfolding flash_select flash_cleanup
  flash_select-Good body d e len sum image =
      elim (Bool-cases (is_ok (esp_ota_set_boot_partition req.update_partition d).0)) [
        | inl ok ↦
            let set =
              view-set_boot req.update_partition d
              ∙ ap
                  (λ b.
                    if b then record (view d) { boot = req.update_partition.address } else view d)
                  ok in
            rw (ok, flash_select)
              (accepted body _ len sum image (
                view-send (accepted_reply board req) _
                ∙ ap {A = View}
                    (λ w. record w { replies = w.replies ++ accepted_reply board req ∷ [] })
                    (set
                      ∙ ap {A = View} (λ w. record w { boot = req.update_partition.address }) e)))
        | inr bad ↦
            let unset =
              view-set_boot req.update_partition d
              ∙ ap
                  (λ b.
                    if b then record (view d) { boot = req.update_partition.address } else view d)
                  bad
              ∙ e in
            rw (bad, flash_select)
              (refuse-Flashed board req v _ false false _ _ _ refl (with_body-Kept _ _ _ _ unset)
                (inl (ap (λ w. w.hash) unset)) (ap (λ w. w.session) unset))
      ]

  flash_end-Good :
      (body : Bytes) (d : Dev)
      → view d ≡ with_body none (some body) body
      → length body ≡ req.content_len
      → sha256 body ≡ req.expected_sha256
      → Good (flash_end board req d)
  unfolding flash_end
  flash_end-Good body d e len sum =
      let closed_view = view-end d ∙ ap {A = View} (λ w. record w { session = none }) e in
      elim (Bool-cases (is_ok (esp_ota_end d).0)) [
        | inl ok ↦
            rw (ok, flash_end)
              (flash_select-Good body (esp_ota_end d).1 closed_view len sum
                (end-valid d body ok (ap (λ w. w.session) e)))
        | inr bad ↦
            rw (bad, flash_end)
              (refuse-Flashed board req v _ false false _ _ _ refl
                (with_body-Kept _ _ _ _ closed_view) (inl (ap (λ w. w.hash) closed_view))
                (ap (λ w. w.session) closed_view))
      ]

  flash_compare-Good :
      (body digest : Bytes) (d : Dev)
      → view d ≡ with_body none (some body) body
      → length body ≡ req.content_len
      → digest ≡ sha256 body
      → Good (flash_compare board req digest d)
  unfolding flash_compare
  flash_compare-Good body digest d e len sum =
      elim (Bool-cases (same_bytes digest req.expected_sha256)) [
        | inl same ↦
            rw (same, flash_compare)
              (flash_end-Good body d e len
                (sym sum ∙ same_bytes_sound digest req.expected_sha256 same))
        | inr differ ↦
            rw (differ, flash_compare)
              (refuse-Flashed board req v _ false true _ _ _ refl (with_body-Kept _ _ _ _ e)
                (inl (ap (λ w. w.hash) e)) refl)
      ]

  pub flash_finish-Good :
      (body : Bytes) (d : Dev)
      → view d ≡ with_body (some body) (some body) body
      → length body ≡ req.content_len
      → Good (flash_finish board req d)
  unfolding flash_finish
  flash_finish-Good body d e len = elim (view-finish d) [
    | inl (failed, same) ↦
        rw (failed, flash_finish)
          (refuse-Flashed board req v _ false true _ _ _ refl (with_body-Kept _ _ _ _ (same ∙ e))
            (inr refl) refl)
    | inr (digest, finished, done, sum) ↦
        let e' = done ∙ ap {A = View} (λ w. record w { hash = none }) e in
        elim (Bool-cases (length digest == sha256_len)) [
          | inl right ↦
              rw (finished, right, flash_finish)
                (flash_compare-Good body digest (psa_hash_finish d).1 e' len
                  (sum body (ap (λ w. w.hash) e)))
          | inr wrong ↦
              rw (finished, wrong, flash_finish)
                (refuse-Flashed board req v _ false true _ _ _ refl (with_body-Kept _ _ _ _ e')
                  (inl (ap (λ w. w.hash) e')) refl)
        ]
  ]
